-- ===== src/Adapter/VouchedRuns.antt =====
-- Whole histories of messages: who is listened to, and what the daemon is told.
use mavctl.Prelude.{
  ℕ, ◌≡◌, refl, Bool, true, false, not, Option, List, [], ◌∷◌, String, Float, ◌==◌, if◌then◌else◌,
  if_cases, arith, All,
}
use mavctl.Adapter.Link.{Target, Sender, is_locked_target, heed_heartbeat}
use mavctl.Adapter.Dialect.{Dialect, MavMessage, heartbeat}
use mavctl.Adapter.Snapshot.{Arrival, Snapshot}
use mavctl.Adapter.Handlers.{take_heartbeat, on_heartbeat, handle_message, handle_all}
use mavctl.Adapter.Vouched.{Vouched, guard_message-Vouched}

-- The three ends of the lock's look at a heartbeat.
heed_cases :
    (Q : Target × Bool → Type 0) (autopilot : ℕ) (sender : Sender) (target : Target)
    → Q (target, false)
    → (is_locked_target target sender ≡ true → Q (target, true))
    → (target.target_locked ≡ false
        → Q (
          record {
            target_system = sender.system;
            target_component = sender.component;
            target_locked = true;
          },
          true,
        ))
    → Q (heed_heartbeat autopilot sender target)
unfolding heed_heartbeat
heed_cases Q autopilot sender target foreign own first =
    if_cases Q (not target.target_locked)
      (λ open_.
        if_cases Q (not (sender.component == autopilot)) (λ _. foreign) (λ _. first (ground arith)))
      (λ _.
        if_cases Q (not (is_locked_target target sender)) (λ _. foreign)
          (λ mine. own (ground arith)))

not_locked :
    (target : Target) (sender : Sender)
    → target.target_locked ≡ false
    → is_locked_target target sender ≡ false
unfolding is_locked_target
not_locked target sender h = ground arith

self_locked :
    (sender : Sender)
    → is_locked_target
        (record {
          target_system = sender.system;
          target_component = sender.component;
          target_locked = true;
        })
        sender
      ≡ true
unfolding is_locked_target
self_locked sender = ground arith

module _ (dialect : Dialect) (P : Arrival → Type 0) where
  own_heartbeat-Vouched :
      (f : Option String) (c b st : ℕ) (s : Snapshot) (sender : Sender) (mono epoch : Float)
      → P (record { sender = sender; message = heartbeat f c b st; mono = mono; epoch = epoch })
      → is_locked_target s.target sender ≡ true
      → Vouched dialect P s
      → Vouched dialect P (take_heartbeat dialect f c b st sender mono epoch s)
  unfolding take_heartbeat
  own_heartbeat-Vouched f c b st s sender mono epoch p own v = record {
    armed = λ x e. (_, p, ground arith, own, refl);
    landed = v.landed;
    altitude = v.altitude;
  }

  -- An unlocked snapshot says nothing, so the lock changes no voucher.
  lock-Vouched :
      (s : Snapshot) (target : Target)
      → s.target.target_locked ≡ false
      → Vouched dialect P s
      → Vouched dialect P (record s { target = target })
  lock-Vouched s target unlocked v = record {
    armed = λ b e.
        let (a, _, _, own, _) = v.armed b e in
        absurd (cc (own, not_locked s.target a.sender unlocked));
    landed = λ label e.
        let (a, _, _, own, _) = v.landed label e in
        absurd (cc (own, not_locked s.target a.sender unlocked));
    altitude = λ x e.
        let (a, _, _, own) = v.altitude x e in
        absurd (cc (own, not_locked s.target a.sender unlocked));
  }

  heartbeat-Vouched :
      (f : Option String) (c b st : ℕ) (s : Snapshot) (sender : Sender) (mono epoch : Float)
      → P (record { sender = sender; message = heartbeat f c b st; mono = mono; epoch = epoch })
      → Vouched dialect P s
      → Vouched dialect P (on_heartbeat dialect f c b st sender mono epoch s)
  unfolding on_heartbeat
  heartbeat-Vouched f c b st s sender mono epoch p v =
      heed_cases
        (λ r. Vouched dialect P (
          if r.1
          then take_heartbeat dialect f c b st sender mono epoch (record s { target = r.0 })
          else s))
        dialect.autopilot sender s.target v
        (λ own. own_heartbeat-Vouched f c b st s sender mono epoch p own v)
        (λ unlocked.
          let target : Target = record {
            target_system = sender.system;
            target_component = sender.component;
            target_locked = true;
          } in
          own_heartbeat-Vouched f c b st (record s { target = target }) sender mono epoch p
            (self_locked sender) (lock-Vouched s target unlocked v))

  message-Vouched :
      (m : MavMessage) (s : Snapshot) (sender : Sender) (mono epoch : Float)
      → P (record { sender = sender; message = m; mono = mono; epoch = epoch })
      → Vouched dialect P s
      → Vouched dialect P (
          handle_message dialect
            (record { sender = sender; message = m; mono = mono; epoch = epoch })
            s)
  unfolding handle_message
  message-Vouched (heartbeat f c b st) s sender mono epoch p v =
      heartbeat-Vouched f c b st s sender mono epoch p v
  message-Vouched m s sender mono epoch p v =
      guard_message-Vouched dialect P
        (record { sender = sender; message = m; mono = mono; epoch = epoch }) s p v

  pub run-Vouched :
      (arrivals : List Arrival) (s : Snapshot)
      → All P arrivals
      → Vouched dialect P s
      → Vouched dialect P (handle_all dialect arrivals s)
  unfolding handle_all
  run-Vouched [] s ps v = v
  run-Vouched (a ∷ rest) s (p, ps) v =
      run-Vouched rest (handle_message dialect a s) ps
        (message-Vouched a.message s a.sender a.mono a.epoch p v)
