-- ===== src/Adapter/DownloadRuns.antt =====
-- Whole downloads: an answer is the vehicle's, and there is one in the end.
use mathlib.Core.Path.{subst}
use mavctl.Prelude.{
  ℕ, suc, ◌-◌, ◌≡◌, ◌≤◌, ◌<◌, ◌⊎◌, refl, ap, inl, inr, true, Option, none, List, [], ◌∷◌, ltb, leb,
  All, if_cases, arith,
}
use mavctl.Models.State.{HomePosition}
use mavctl.Models.Mission.{MissionV1}
use mavctl.Missions.Schema.{mission_max_items, validate_downloaded}
use mavctl.Adapter.Inbox.{
  WireItem, Message, mission_item_int, mission_count, Event, silent, received, mission_type_mission,
}
use mavctl.Adapter.Count.{
  Answer, counted, unanswered, denied, Question, Asking, waiting, answered, accept_count_or_ack,
  count_step, on_answer, on_unanswered, ask,
}
use mavctl.Adapter.Download.{
  Ending, downloaded, timed_out, crashed, refused, too_many, unsupported, Download, Downloading,
  counting, fetching, ended, accept_item, finish_mission, on_item_silence, on_item, on_message,
  on_count, after_question, download_step, download_run,
}
use mavctl.Adapter.DownloadExact.{
  Ready, Faithful, next_items-Faithful, item-Faithful, silence-Faithful,
}

-- `H n item` and `C n` say that an item and a count were received.
module _ (H : ℕ → WireItem → Type 0) (C : ℕ → Type 0) where
  -- What a message of the mission type tells.
  abbrev pub Fed : Message → Type 0
  Fed (mission_item_int n w mission_type) = mission_type ≡ mission_type_mission → H n w
  Fed (mission_count n mission_type) = mission_type ≡ mission_type_mission → C n
  Fed _ = Unit {0}

  abbrev pub Feeds : Event → Type 0
  Feeds (silent started now) = Unit {0}
  Feeds (received m now after) = Fed m

module _ (home : Option HomePosition) (H : ℕ → WireItem → Type 0) (C : ℕ → Type 0) where
  -- What an ending rests on.
  abbrev pub Grounded : Ending → Type 0
  Grounded (downloaded mission) =
      (n : ℕ) × C n
      × (n ≤ suc mission_max_items)
      × (mission.version ≡ 1)
      × (validate_downloaded mission ≡ true)
      × (((n ≤ 1) × (mission.items ≡ [])) ⊎ ((2 ≤ n) × Ready home H n mission.items))
  Grounded (too_many n) = C n × (suc mission_max_items < n)
  Grounded (unsupported n command frame) = Faithful home H 0 (ended (unsupported n command frame))
  Grounded e = Unit {0}

  abbrev pub Sound : Downloading → Type 0
  Sound (counting q) = Unit {0}
  Sound (fetching d) =
      (n : ℕ) × C n × (2 ≤ n) × (n ≤ suc mission_max_items) × Faithful home H n (fetching d)
  Sound (ended e) = Grounded e

  Faithful-Sound :
      (n : ℕ) (s : Downloading)
      → C n
      → 2 ≤ n
      → n ≤ suc mission_max_items
      → Faithful home H n s
      → Sound s
  Faithful-Sound n (counting q) c lo hi h = tt
  Faithful-Sound n (fetching d) c lo hi h = (n, c, lo, hi, h)
  Faithful-Sound n (ended (downloaded mission)) c lo hi (v, ok, r) = (n, c, hi, v, ok, inr (lo, r))
  Faithful-Sound n (ended (unsupported k command frame)) c lo hi h = h
  Faithful-Sound n (ended (too_many k)) c lo hi h = absurd h
  Faithful-Sound n (ended (refused r)) c lo hi h = tt
  Faithful-Sound n (ended timed_out) c lo hi h = tt
  Faithful-Sound n (ended crashed) c lo hi h = tt

  empty-Sound : (n : ℕ) → C n → n ≤ 1 → Sound (finish_mission [])
  unfolding finish_mission
  empty-Sound n c lo =
      let none_stored : MissionV1 = record { version = 1; items = [] } in
      if_cases Sound {x = ended (downloaded none_stored)} {y = ended crashed}
        (validate_downloaded none_stored) (λ e. (n, c, omega arith, refl, e, inl (lo, refl)))
        (λ _. tt)

  count-Sound : (a : Answer) → ((n : ℕ) → a ≡ counted n → C n) → Sound (on_count home a)
  unfolding on_count
  count-Sound (counted n) c =
      if_cases Sound (ltb mission_max_items (n - 1)) (λ e. (c n refl, ground arith))
        (λ e.
          if_cases Sound (leb n 1) (λ l. empty-Sound n (c n refl) (ground arith))
            (λ l. Faithful-Sound n _ (c n refl) (ground arith) (ground arith) (
              next_items-Faithful home H n n 0 (λ _. none) [] [] (omega arith) (λ m w f. cc f)
                refl)))
  count-Sound unanswered c = tt
  count-Sound (denied result) c = tt

  asked-Sound :
      (p : Asking)
      → ((q : Question) (n : ℕ) → p ≡ answered q (counted n) → C n)
      → Sound (after_question home p)
  unfolding after_question
  asked-Sound (waiting q) c = tt
  asked-Sound (answered q a) c = count-Sound a (λ n e. c q n (ap (answered q) e))

  count_heard :
      (overall : ℕ) (q t : Question) (n : ℕ) (event : Event)
      → Feeds H C event
      → count_step accept_count_or_ack overall q event ≡ answered t (counted n)
      → C n
  unfolding count_step on_answer on_unanswered ask accept_count_or_ack
  count_heard overall q t n (silent started now) f e = absurd (ground arith)
  count_heard overall q t n (received (mission_count k mission_type) now after) f e =
      subst C (ground arith) (f (ground arith))
  count_heard overall q t n (received m now after) f e = absurd (ground arith)

  message-Sound :
      (m : Message) (d : Download) → Fed H C m → Sound (fetching d) → Sound (on_message home m d)
  unfolding on_message accept_item
  message-Sound (mission_item_int k w mission_type) d f (n, c, lo, hi, h) =
      if_cases Sound (accept_item (mission_item_int k w mission_type))
        (λ e.
          Faithful-Sound n (on_item home k w d) c lo hi
            (item-Faithful home H n k w d (f (ground arith)) h))
        (λ _. (n, c, lo, hi, h))
  message-Sound m d f h = h

  step-Sound :
      (overall : ℕ) (s : Downloading) (event : Event)
      → Feeds H C event
      → Sound s
      → Sound (download_step home overall s event)
  unfolding download_step
  step-Sound overall (counting q) event f h =
      asked-Sound (count_step accept_count_or_ack overall q event)
        (λ t n e. count_heard overall q t n event f e)
  step-Sound overall (fetching d) (silent started now) f (n, c, lo, hi, h) =
      Faithful-Sound n (on_item_silence overall d now) c lo hi
        (silence-Faithful home H n overall now d h)
  step-Sound overall (fetching d) (received m now after) f (n, c, lo, hi, h) =
      message-Sound m d f (n, c, lo, hi, h)
  step-Sound overall (ended e) event f h = h

  pub run-Sound :
      (overall : ℕ) (s : Downloading) (events : List Event)
      → All (Feeds H C) events
      → Sound s
      → Sound (download_run home overall s events)
  unfolding download_run
  run-Sound overall s [] f h = h
  run-Sound overall s (event ∷ events) (f, fs) h =
      run-Sound overall (download_step home overall s event) events fs
        (step-Sound overall s event f h)
