-- ===== src/Process/Drift.antt =====
-- The adapter's view of the link and the guards' agree.
use mathlib.Core.Option
use mavctl.Prelude.{
  ℕ, ◌*◌, ◌≡◌, ◌≤◌, refl, true, Option, none, some, String, Float, finite, infinity, minus_infinity,
  nan, pos, negsuc, thousandths, float_le, round_thousandths, round_quotient, negative, arith,
  Bool-cases, inl, inr,
}
use mavctl.Guards.Decision.{is_fresh, not_older}
use mavctl.Adapter.Snapshot.{Snapshot}
use mavctl.Adapter.Observation.{is_connected, heartbeat_age, get_state}
use mavctl.Process.Entry.{config_of}

rounds_below : (k n : ℕ) → n ≤ k * 1000000 → round_quotient n 1000000 * 1000000 ≤ k * 1000000
unfolding round_quotient
rounds_below k n h = ground arith

round-le :
    (k : ℕ) (age : Float)
    → float_le age (thousandths k) ≡ true
    → float_le (round_thousandths age) (thousandths k) ≡ true
unfolding float_le round_thousandths
round-le k (finite (pos n)) h = ground (arith, rounds_below k n)
round-le k (finite (negsuc n)) h = ground (arith, negative)
round-le k minus_infinity h = refl
round-le k infinity h = cc h
round-le k nan h = cc h

connected_fresh :
    (k : ℕ) (age : Option Float)
    → is_connected (thousandths k) age ≡ true
    → not_older (Option.map round_thousandths age) (thousandths k) ≡ true
unfolding is_connected not_older
connected_fresh k none h = cc h
connected_fresh k (some age) h = round-le k age h

-- With a time-out of whole milliseconds the adapter and the guards never disagree about the link: a
-- snapshot is fresh for the guards exactly when it says that the vehicle is connected.
pub get_state-is_fresh :
    (connection : String) (k : ℕ) (now later : Float) (s : Snapshot)
    → let state = get_state connection (thousandths k) now later s in
      is_fresh state (config_of (thousandths k)) ≡ state.connected
unfolding is_fresh get_state config_of
get_state-is_fresh connection k now later s =
    elim (Bool-cases (is_connected (thousandths k) (heartbeat_age later s.last_hb_monotonic))) [
      | inl up ↦ rw (up, connected_fresh k (heartbeat_age later s.last_hb_monotonic) up) refl
      | inr down ↦ rw down refl
    ]
