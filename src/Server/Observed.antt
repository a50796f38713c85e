-- ===== src/Server/Observed.antt =====
-- What an observer records is what it saw.
use mavctl.Prelude.{
  ℕ, ◌≡◌, ◌≢◌, ◌⊎◌, refl, inl, inr, not, Bool, true, false, Option, none, some, if_cases,
  option_cases, arith,
}
use mavctl.Models.State.{VehicleState}
use mavctl.Models.Operation.{OperationState, waiting, reached, link_lost, uncertain, is_waiting}
use mavctl.Operations.Registry.{Registry}
use mavctl.Operations.Traces.{here}
use mavctl.Server.World.{Poll, Goal, meets}
use mavctl.Server.Observe.{
  Round, sleeps, over, key_error, behind, fail_observation, write, decide, lose_link,
  poll_operation, expire, decide_last, end_observation,
}
use mavctl.Operations.Writes.{
  Wrote, Watches, Writes, reached-Writes, link_lost-Writes, uncertain-Writes, timed_out-Writes,
}

-- The link was read and is alive, and the goal was read as `met`.
abbrev pub Live : Goal → Poll → Option Bool → Type 0
Live goal poll met =
    (linked : VehicleState) × (poll.link ≡ some linked)
    × (linked.connected ≡ true)
    × (meets goal poll ≡ met)

-- The link was read, and is down or up.
abbrev pub Linked : Option VehicleState → Bool → Type 0
Linked link up = (linked : VehicleState) × (link ≡ some linked) × (linked.connected ≡ up)

-- The evidence of a round for each state of its operation.
abbrev pub Evidence : Goal → Poll → OperationState → Type 0
Evidence goal poll reached = Live goal poll (some true)
Evidence goal poll waiting = Live goal poll (some false)
Evidence goal poll link_lost = Linked poll.link false
Evidence goal poll uncertain = (poll.link ≡ none) ⊎ Live goal poll none
Evidence goal poll _ = ⊥

-- The evidence after the deadline, where the link is read again unless the goal is met.
abbrev pub LastEvidence : Goal → Poll → Option VehicleState → OperationState → Type 0
LastEvidence goal poll relink reached = Live goal poll (some true)
LastEvidence goal poll relink waiting =
    (Linked poll.link false ⊎ Live goal poll (some false)) × Linked relink true
LastEvidence goal poll relink link_lost =
    (Linked poll.link false ⊎ Live goal poll (some false)) × Linked relink false
LastEvidence goal poll relink uncertain =
    (poll.link ≡ none)
    ⊎ Live goal poll none
    ⊎ ((Linked poll.link false ⊎ Live goal poll (some false)) × (relink ≡ none))
LastEvidence goal poll relink _ = ⊥

-- The round is over, or the observer sleeps and its operation is still waiting.
abbrev pub Continues : OperationState → Round → Type 0
Continues state (sleeps s) = state ≡ waiting
Continues state (over s) = state ≢ waiting
Continues state key_error = ⊥

-- A round records what the evidence says, and changes no other operation.
abbrev pub Records :
    (OperationState → Type 0) → (OperationState → Round → Type 0) → Registry → ℕ → Round → Type 0
Records evidence ends r a round =
    (s : Registry) × (state : OperationState) × (behind round ≡ some s)
    × Wrote r a state s
    × evidence state
    × ends state round

module _ (r : Registry) (a : ℕ) (evidence : OperationState → Type 0)
    (ends : OperationState → Round → Type 0) (h : Watches r a) where
  fail_observation-Records :
      evidence uncertain
      → ((s : Registry) → ends uncertain (over s))
      → Records evidence ends r a (fail_observation (r.heap a) r)
  unfolding fail_observation behind
  fail_observation-Records seen e =
      let (s, m, wrote) = uncertain-Writes "operation_observation_failed" r a h in
      (s, uncertain, rw m, wrote, seen, rw m (e s))

  write-Records :
      (state : OperationState) (m : Option (Registry × Bool))
      → Writes r a state m
      → evidence state
      → ((s : Registry) → ends state (over s))
      → Records evidence ends r a (write (r.heap a) r m)
  unfolding write behind
  write-Records state m (s, same, wrote) seen e = rw same (s, state, refl, wrote, seen, e s)

  lose_link-Records :
      evidence link_lost
      → ((s : Registry) → ends link_lost (over s))
      → Records evidence ends r a (lose_link (r.heap a) r)
  unfolding lose_link
  lose_link-Records seen e = write-Records link_lost _ (link_lost-Writes r a h) seen e

module _ (goal : Goal) (poll : Poll) (r : Registry) (a : ℕ) (h : Watches r a) where
  stays : Wrote r a waiting r
  stays = record { valid = h.valid; run = here; now = h.waits; others = λ _ _. refl }

  decide-Records :
      (met : Option Bool)
      → Linked poll.link true
      → meets goal poll ≡ met
      → Records (Evidence goal poll) Continues r a (decide (r.heap a) r met)
  unfolding decide behind
  decide-Records none (l, e, up) m =
      fail_observation-Records r a (Evidence goal poll) Continues h (inr (l, e, up, m))
        (λ _ d. cc d)
  decide-Records (some true) (l, e, up) m =
      write-Records r a (Evidence goal poll) Continues h reached _ (reached-Writes r a h)
        (l, e, up, m) (λ _ d. cc d)
  decide-Records (some false) (l, e, up) m = (r, waiting, refl, stays, (l, e, up, m), refl)

  -- A round of an observer whose operation is waiting in a valid registry records reached exactly
  -- on a live link with the goal met, the link's loss on a link that is down, uncertain when a
  -- reading fails, and goes on otherwise; no other operation changes, and the registry stays valid.
  pub poll_operation-Records :
      Records (Evidence goal poll) Continues r a (poll_operation goal poll a r)
  unfolding poll_operation is_waiting
  poll_operation-Records =
      rw (h.waits, poll_operation)
        (option_cases (Records (Evidence goal poll) Continues r a) poll.link
          (λ cut.
            fail_observation-Records r a (Evidence goal poll) Continues h (inl cut) (λ _ d. cc d))
          (λ linked e.
            if_cases (Records (Evidence goal poll) Continues r a) (not linked.connected)
              (λ down.
                lose_link-Records r a (Evidence goal poll) Continues h (linked, e, ground arith)
                  (λ _ d. cc d))
              (λ up. decide-Records (meets goal poll) (linked, e, ground arith) refl)))

-- The observer returns.
abbrev pub Returns : OperationState → Round → Type 0
Returns state (over s) = Unit {0}
Returns state _ = ⊥

module _ (goal : Goal) (poll : Poll) (relink : Option VehicleState) (r : Registry) (a : ℕ)
    (h : Watches r a) where
  abbrev Ends : Round → Type 0
  Ends = Records (LastEvidence goal poll relink) Returns r a

  expire-Records :
      (Linked poll.link false ⊎ Live goal poll (some false)) → Ends (expire (r.heap a) r relink)
  unfolding expire
  expire-Records seen =
      option_cases Ends relink
        (λ cut.
          fail_observation-Records r a (LastEvidence goal poll relink) Returns h
            (inr (inr (seen, cut))) (λ _. tt))
        (λ linked e.
          if_cases Ends (not linked.connected)
            (λ down.
              lose_link-Records r a (LastEvidence goal poll relink) Returns h
                (seen, (linked, e, ground arith)) (λ _. tt))
            (λ up.
              write-Records r a (LastEvidence goal poll relink) Returns h waiting _
                (timed_out-Writes r a h) (seen, (linked, e, ground arith)) (λ _. tt)))

  decide_last-Records :
      (met : Option Bool)
      → Linked poll.link true
      → meets goal poll ≡ met
      → Ends (decide_last (r.heap a) r relink met)
  unfolding decide_last
  decide_last-Records none (l, e, up) m =
      fail_observation-Records r a (LastEvidence goal poll relink) Returns h
        (inr (inl (l, e, up, m))) (λ _. tt)
  decide_last-Records (some true) (l, e, up) m =
      write-Records r a (LastEvidence goal poll relink) Returns h reached _ (reached-Writes r a h)
        (l, e, up, m) (λ _. tt)
  decide_last-Records (some false) (l, e, up) m = expire-Records (inr (l, e, up, m))

  -- At the client's deadline the observer returns. It records reached exactly on a live link with
  -- the goal met, uncertain when a reading fails, the link's loss when the second reading finds the
  -- link down, and otherwise leaves the operation waiting: a deadline cancels nothing. No other
  -- operation changes, and the registry stays valid.
  pub end_observation-Records :
      Records (LastEvidence goal poll relink) Returns r a (end_observation goal poll relink a r)
  unfolding end_observation is_waiting
  end_observation-Records =
      rw (h.waits, end_observation)
        (option_cases Ends poll.link
          (λ cut.
            fail_observation-Records r a (LastEvidence goal poll relink) Returns h (inl cut)
              (λ _. tt))
          (λ linked e.
            if_cases Ends (not linked.connected)
              (λ down. expire-Records (inl (linked, e, ground arith)))
              (λ up. decide_last-Records (meets goal poll) (linked, e, ground arith) refl)))
