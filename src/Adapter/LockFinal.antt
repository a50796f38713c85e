-- ===== src/Adapter/LockFinal.antt =====
-- The adapter follows one vehicle: the first autopilot it hears of.
use mavctl.Prelude.{
  ℕ, ◌≡◌, refl, ap, ◌∙◌, true, List, [], ◌∷◌, All, Bool-cases, inl, inr, if◌then◌else◌, arith,
}
use mavctl.Adapter.Link.{Target, Sender, is_locked_target, heed_heartbeat}

-- A series of heartbeats: the target afterwards and the senders whose heartbeats were taken.
unfoldable pub heed_all : ℕ → Target → List Sender → Target × List Sender
unfolding heed_heartbeat
heed_all autopilot target [] = (target, [])
heed_all autopilot target (sender ∷ rest) =
    let (next, taken) = heed_heartbeat autopilot sender target in
    let (last, others) = heed_all autopilot next rest in
    (last, if taken then sender ∷ others else others)

locked_keeps :
    (autopilot : ℕ) (target : Target) (sender : Sender)
    → target.target_locked ≡ true
    → (heed_heartbeat autopilot sender target).0 ≡ target
unfolding heed_heartbeat
locked_keeps autopilot target sender h = ground arith

locked_all :
    (autopilot : ℕ) (target : Target) (senders : List Sender)
    → target.target_locked ≡ true
    → (heed_all autopilot target senders).0 ≡ target
unfolding heed_all
locked_all autopilot target [] h = refl
locked_all autopilot target (sender ∷ rest) h =
    let kept : (heed_heartbeat autopilot sender target).0 ≡ target =
      locked_keeps autopilot target sender h in
    ap (λ t. (heed_all autopilot t rest).0) kept ∙ locked_all autopilot target rest h

taken_locked :
    (autopilot : ℕ) (target : Target) (sender : Sender)
    → (heed_heartbeat autopilot sender target).1 ≡ true
    → ((heed_heartbeat autopilot sender target).0.target_locked ≡ true)
      × (is_locked_target (heed_heartbeat autopilot sender target).0 sender ≡ true)
unfolding heed_heartbeat is_locked_target
taken_locked autopilot target sender h = ground arith

-- All heartbeats that are taken, over any series of heartbeats, come from one vehicle: the target
-- at the end of the series.
pub heed_all_one :
    (autopilot : ℕ) (target : Target) (senders : List Sender)
    → let (last, taken) = heed_all autopilot target senders in
      All (λ sender. is_locked_target last sender ≡ true) taken
unfolding heed_all
heed_all_one autopilot target [] = tt
heed_all_one autopilot target (sender ∷ rest) =
    let next : Target = (heed_heartbeat autopilot sender target).0 in
    let later : All (λ s. is_locked_target (heed_all autopilot next rest).0 s ≡ true)
        (heed_all autopilot next rest).1 =
      heed_all_one autopilot next rest in
    elim (Bool-cases (heed_heartbeat autopilot sender target).1) [
      | inl taken ↦
          let (locked, from) = taken_locked autopilot target sender taken in
          rw taken (
            ap (λ t. is_locked_target t sender) (locked_all autopilot next rest locked) ∙ from,
            later,
          )
      | inr dropped ↦ rw dropped later
    ]
