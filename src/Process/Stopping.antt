-- ===== src/Process/Stopping.antt =====
-- What `stop` leaves behind.
use mavctl.Prelude.{
  ℤ, ◌≡◌, ◌⊎◌, refl, sym, ap, ◌∙◌, inl, inr, true, false, Option, Bool, none, some, List, [], ◌∷◌,
  Float, float_lt, if_cases, not, arith,
}
use mavctl.Process.Files.{
  absent, RuntimeDir, Kill, no_process, not_permitted, overflow, delivered, read_pid, clear_pid,
  cleanup_socket, pid_alive,
}
use mavctl.Process.Lifecycle.{
  Sent, sigterm, sigkill, Waiting, outlives, Stopped, clean_up, raise, after_kill, Signalling,
  wait_and_kill, terminate, stop,
}

-- Before the deadline a probe got this answer, behind others that found the process alive.
pub data Seen (answer : Kill) (deadline : Float) : List Waiting → Type 0 where
  here :
      {t : Waiting} {turns : List Waiting}
      → float_lt t.now deadline ≡ true
      → t.probe ≡ answer
      → Seen answer deadline (t ∷ turns)
  later :
      {t : Waiting} {turns : List Waiting}
      → float_lt t.now deadline ≡ true
      → pid_alive t.probe ≡ some true
      → Seen answer deadline turns
      → Seen answer deadline (t ∷ turns)

-- What the loop has seen, if it ends so.
abbrev Saw : Float → List Waiting → Option Bool → Type 0
Saw deadline turns none = Seen overflow deadline turns
Saw deadline turns (some false) = Seen no_process deadline turns
Saw deadline turns (some true) =
    (¬ Seen no_process deadline turns) × (¬ Seen overflow deadline turns)

nothing-Seen : (answer : Kill) (deadline : Float) → ¬ Seen answer deadline []
nothing-Seen answer deadline h = elim h [ ]

not_late :
    (answer : Kill) (deadline : Float) (t : Waiting) (turns : List Waiting)
    → float_lt t.now deadline ≡ false
    → ¬ Seen answer deadline (t ∷ turns)
not_late answer deadline t turns over (here before e) = cc (over, before)
not_late answer deadline t turns over (later before alive rest) = cc (over, before)

passed :
    (answer : Kill) (deadline : Float) (t : Waiting) (turns : List Waiting)
    → pid_alive t.probe ≡ some true
    → ¬ (pid_alive answer ≡ some true)
    → ¬ Seen answer deadline turns
    → ¬ Seen answer deadline (t ∷ turns)
passed answer deadline t turns alive dead none_later (here before e) =
    dead (ap pid_alive (sym e) ∙ alive)
passed answer deadline t turns alive dead none_later (later before a rest) = none_later rest

-- A turn that finds the process alive adds nothing.
waited-Saw :
    (deadline : Float) (t : Waiting) (turns : List Waiting) (o : Option Bool)
    → float_lt t.now deadline ≡ true
    → pid_alive t.probe ≡ some true
    → Saw deadline turns o
    → Saw deadline (t ∷ turns) o
unfolding pid_alive
waited-Saw deadline t turns none before alive saw = later before alive saw
waited-Saw deadline t turns (some false) before alive saw = later before alive saw
waited-Saw deadline t turns (some true) before alive (no_death, no_error) = (
  passed no_process deadline t turns alive (λ e. cc e) no_death,
  passed overflow deadline t turns alive (λ e. cc e) no_error,
)

probed-Saw :
    (deadline : Float) (t : Waiting) (turns : List Waiting) (rest : Option Bool) (k : Kill)
    → float_lt t.now deadline ≡ true
    → t.probe ≡ k
    → Saw deadline turns rest
    → Saw deadline
        (t ∷ turns)
        (elim (pid_alive k) [ none ↦ none | some false ↦ some false | some true ↦ rest ])
unfolding pid_alive
probed-Saw deadline t turns rest no_process before e saw = here before e
probed-Saw deadline t turns rest overflow before e saw = here before e
probed-Saw deadline t turns rest not_permitted before e saw =
    waited-Saw deadline t turns rest before (ap pid_alive e) saw
probed-Saw deadline t turns rest delivered before e saw =
    waited-Saw deadline t turns rest before (ap pid_alive e) saw

outlives-Saw :
    (deadline : Float) (turns : List Waiting) → Saw deadline turns (outlives deadline turns)
unfolding outlives
outlives-Saw deadline [] = (nothing-Seen no_process deadline, nothing-Seen overflow deadline)
outlives-Saw deadline (t ∷ turns) =
    if_cases (Saw deadline (t ∷ turns)) (not (float_lt t.now deadline))
      (λ over. (
        not_late no_process deadline t turns (ground arith),
        not_late overflow deadline t turns (ground arith),
      ))
      (λ before.
        probed-Saw deadline t turns (outlives deadline turns) t.probe (ground arith) refl
          (outlives-Saw deadline turns))

module _ (system : Signalling) (deadline : Float) (turns : List Waiting) (d : RuntimeDir) where
  -- The signal cannot be delivered, and the process may be there.
  abbrev IsDenied : Kill → Type 0
  IsDenied k = (k ≡ not_permitted) ⊎ (k ≡ overflow)

  -- The recorded process was alive and got `SIGTERM`.
  abbrev IsTermed : ℤ → Type 0
  IsTermed pid =
      (read_pid d ≡ some (some pid))
      × (pid_alive (system.probe pid) ≡ some true)
      × (system.term pid ≡ delivered)

  -- It was neither seen to be gone nor impossible to look at, until the deadline.
  abbrev Outlived : Type 0
  Outlived = (¬ Seen no_process deadline turns) × (¬ Seen overflow deadline turns)

  -- No daemon: no pid is recorded, or its process is gone.
  abbrev IsAbsent : Type 0
  IsAbsent =
      (read_pid d ≡ some none)
      ⊎ ((pid : ℤ) × (read_pid d ≡ some (some pid))
          × ((system.probe pid ≡ no_process) ⊎ (system.term pid ≡ no_process)))

  -- The process has ended by itself, or got the second signal.
  abbrev IsEnded : ℤ → List Sent → Type 0
  IsEnded pid signals =
      ((signals ≡ sigterm pid ∷ []) × Seen no_process deadline turns)
      ⊎ (Outlived
          × (((signals ≡ sigterm pid ∷ []) × (system.kill pid ≡ no_process))
              ⊎ ((signals ≡ sigterm pid ∷ sigkill pid ∷ []) × (system.kill pid ≡ delivered))))

  -- Why an exception is raised: before the first signal, or behind it.
  abbrev IsRaised : List Sent → Type 0
  IsRaised signals =
      ((signals ≡ [])
        × ((read_pid d ≡ none)
            ⊎ ((pid : ℤ) × (read_pid d ≡ some (some pid))
                × ((system.probe pid ≡ overflow) ⊎ IsDenied (system.term pid)))))
      ⊎ ((pid : ℤ) × (signals ≡ sigterm pid ∷ [])
          × IsTermed pid
          × (Seen overflow deadline turns ⊎ (Outlived × IsDenied (system.kill pid))))

  -- Neither file is there.
  abbrev IsClean : RuntimeDir → Type 0
  IsClean files = (files.pid_file ≡ absent) × (files.socket ≡ false)

  -- How `stop` ends, for what it returns.
  abbrev Ends : Option Bool → List Sent → RuntimeDir → Type 0
  Ends none signals files = (files ≡ d) × IsRaised signals
  Ends (some false) signals files = IsClean files × (signals ≡ []) × IsAbsent
  Ends (some true) signals files = IsClean files × ((pid : ℤ) × IsTermed pid × IsEnded pid signals)

  abbrev pub Leaves : Stopped → Type 0
  Leaves result = Ends result.stopped result.signals result.files

  killed-Leaves :
      (pid : ℤ) (k : Kill)
      → IsTermed pid
      → Outlived
      → system.kill pid ≡ k
      → Leaves (after_kill pid d k)
  unfolding after_kill clean_up raise clear_pid cleanup_socket
  killed-Leaves pid no_process t o e = ((refl, refl), (pid, t, inr (o, inl (refl, e))))
  killed-Leaves pid not_permitted t o e = (refl, inr (pid, refl, t, inr (o, inl e)))
  killed-Leaves pid overflow t o e = (refl, inr (pid, refl, t, inr (o, inr e)))
  killed-Leaves pid delivered t o e = ((refl, refl), (pid, t, inr (o, inr (refl, e))))

  waited-Leaves :
      (pid : ℤ) (o : Option Bool)
      → IsTermed pid
      → Saw deadline turns o
      → Leaves (elim o [
        | none ↦ raise (sigterm pid ∷ []) d
        | some false ↦ clean_up true (sigterm pid ∷ []) d
        | some true ↦ after_kill pid d (system.kill pid)
      ])
  unfolding clean_up raise clear_pid cleanup_socket
  waited-Leaves pid none t saw = (refl, inr (pid, refl, t, inl saw))
  waited-Leaves pid (some false) t saw = ((refl, refl), (pid, t, inl (refl, saw)))
  waited-Leaves pid (some true) t saw = killed-Leaves pid (system.kill pid) t saw refl

  termed-Leaves :
      (pid : ℤ) (k : Kill)
      → read_pid d ≡ some (some pid)
      → pid_alive (system.probe pid) ≡ some true
      → system.term pid ≡ k
      → Leaves (terminate system deadline turns pid d k)
  unfolding terminate wait_and_kill clean_up raise clear_pid cleanup_socket
  termed-Leaves pid no_process r alive e = ((refl, refl), refl, inr (pid, r, inr e))
  termed-Leaves pid not_permitted r alive e = (refl, inl (refl, inr (pid, r, inr (inl e))))
  termed-Leaves pid overflow r alive e = (refl, inl (refl, inr (pid, r, inr (inr e))))
  termed-Leaves pid delivered r alive e =
      waited-Leaves pid (outlives deadline turns) (r, alive, e) (outlives-Saw deadline turns)

  probed-Leaves :
      (pid : ℤ) (k : Kill)
      → read_pid d ≡ some (some pid)
      → system.probe pid ≡ k
      → Leaves (elim (pid_alive k) [
        | none ↦ raise [] d
        | some false ↦ clean_up false [] d
        | some true ↦ terminate system deadline turns pid d (system.term pid)
      ])
  unfolding pid_alive clean_up raise clear_pid cleanup_socket
  probed-Leaves pid no_process r e = ((refl, refl), refl, inr (pid, r, inl e))
  probed-Leaves pid overflow r e = (refl, inl (refl, inr (pid, r, inl e)))
  probed-Leaves pid not_permitted r e = termed-Leaves pid (system.term pid) r (ap pid_alive e) refl
  probed-Leaves pid delivered r e = termed-Leaves pid (system.term pid) r (ap pid_alive e) refl

  read-Leaves :
      (o : Option (Option ℤ))
      → read_pid d ≡ o
      → Leaves (elim o [
        | none ↦ raise [] d
        | some none ↦ clean_up false [] d
        | some (some pid) ↦ elim (pid_alive (system.probe pid)) [
          | none ↦ raise [] d
          | some false ↦ clean_up false [] d
          | some true ↦ terminate system deadline turns pid d (system.term pid)
        ]
      ])
  unfolding clean_up raise clear_pid cleanup_socket
  read-Leaves none r = (refl, inl (refl, inl r))
  read-Leaves (some none) r = ((refl, refl), refl, inl r)
  read-Leaves (some (some pid)) r = probed-Leaves pid (system.probe pid) r refl

  -- `stop`, in a runtime directory whose files can be removed, ends in one of three ways. It
  -- returns false, without a signal, only if no pid is recorded or its process is gone. It returns
  -- true only if the recorded process was alive and got `SIGTERM`, and either was seen to be gone
  -- before the deadline, or got `SIGKILL` after it or was gone by then. In both cases it
  -- leaves neither the pid file nor the socket. It raises an exception, and leaves both files as
  -- they are, only if the pid file cannot be read, its integer is no pid, or `SIGTERM` or, after
  -- the deadline, `SIGKILL` is not permitted; then at most `SIGTERM` was delivered.
  pub stop-Leaves : Leaves (stop system deadline turns d)
  unfolding stop
  stop-Leaves = read-Leaves (read_pid d) refl
