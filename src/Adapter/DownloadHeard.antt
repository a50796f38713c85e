-- ===== src/Adapter/DownloadHeard.antt =====
-- Whole downloads: an answer is the vehicle's, and there is one in the end.
use mavctl.Prelude.{ℕ, ◌≡◌, ◌≤◌, ap, inl, Option, List, [], ◌∷◌, ◌++◌, All, arith}
use mavctl.Models.State.{HomePosition}
use mavctl.Adapter.Inbox.{
  WireItem, mission_item_int, mission_count, Event, silent, received, mission_type_mission,
}
use mavctl.Adapter.CountRuns.{Heard, Heard-later}
use mavctl.Adapter.Count.{first_question, count_step, on_unanswered}
use mavctl.Adapter.Download.{
  Downloading, counting, fetching, ended, after_question, on_count, on_item_silence, download_step,
  download_run, download_begin,
}
use mavctl.Adapter.DownloadRuns.{Feeds, Sound, run-Sound}

-- An item, or a count, that an accepted message of the history gave.
abbrev pub HeardItem : List Event → ℕ → WireItem → Type 0
HeardItem events n w = Heard (λ m. m ≡ mission_item_int n w mission_type_mission) events

abbrev pub HeardCount : List Event → ℕ → Type 0
HeardCount events n = Heard (λ m. m ≡ mission_count n mission_type_mission) events

Feeds-more :
    (event : Event) (events : List Event) (e : Event)
    → Feeds (HeardItem events) (HeardCount events) e
    → Feeds (HeardItem (event ∷ events)) (HeardCount (event ∷ events)) e
Feeds-more event events (silent started now) f = tt
Feeds-more event events (received (mission_item_int k w t) now after) f =
    λ e. Heard-later _ event events (f e)
Feeds-more event events (received (mission_count k t) now after) f =
    λ e. Heard-later _ event events (f e)
Feeds-more event events (received m now after) f = tt

Feeds-first :
    (event : Event) (events : List Event)
    → Feeds (HeardItem (event ∷ events)) (HeardCount (event ∷ events)) event
Feeds-first (silent started now) events = tt
Feeds-first (received (mission_item_int k w t) now after) events =
    λ e. inl (ap (mission_item_int k w) e)
Feeds-first (received (mission_count k t) now after) events = λ e. inl (ap (mission_count k) e)
Feeds-first (received m now after) events = tt

All-feed_more :
    (event : Event) (all events : List Event)
    → All (Feeds (HeardItem events) (HeardCount events)) all
    → All (Feeds (HeardItem (event ∷ events)) (HeardCount (event ∷ events))) all
All-feed_more event [] events f = tt
All-feed_more event (e ∷ all) events (f, fs) =
    (Feeds-more event events e f, All-feed_more event all events fs)

All-feed : (events : List Event) → All (Feeds (HeardItem events) (HeardCount events)) events
All-feed [] = tt
All-feed (event ∷ events) =
    (Feeds-first event events, All-feed_more event events events (All-feed events))

-- A download never makes up a mission. One that succeeds rests on an accepted count; with more than
-- the home slot, the item of sequence 0 was received and is verified as the home, each item of the
-- mission is the exact reading of an item received under its own sequence number, in order, with
-- none left out, and the mission passes the schema. An unsupported item was received as reported,
-- and a count that is too large was received.
pub download_run-Sound :
    (home : Option HomePosition) (overall : ℕ) (events : List Event)
    → Sound home
        (HeardItem events)
        (HeardCount events)
        (download_run home overall download_begin events)
unfolding download_begin
download_run-Sound home overall events =
    run-Sound home (HeardItem events) (HeardCount events) overall (counting first_question) events
      (All-feed events) tt

abbrev pub IsOver : Downloading → Type 0
IsOver (ended e) = Unit {0}
IsOver _ = ⊥

IsOver-stays :
    (home : Option HomePosition) (overall : ℕ) (s : Downloading) (events : List Event)
    → IsOver s
    → IsOver (download_run home overall s events)
unfolding download_run download_step
IsOver-stays home overall s [] h = h
IsOver-stays home overall (ended e) (event ∷ events) h =
    IsOver-stays home overall (ended e) events h
IsOver-stays home overall (counting q) (event ∷ events) h = absurd h
IsOver-stays home overall (fetching d) (event ∷ events) h = absurd h

late-IsOver :
    (home : Option HomePosition) (overall started now : ℕ) (s : Downloading)
    → overall ≤ now
    → IsOver (download_step home overall s (silent started now))
unfolding download_step count_step on_unanswered after_question on_count on_item_silence
late-IsOver home overall started now (counting q) h = ground arith
late-IsOver home overall started now (fetching d) h = ground arith
late-IsOver home overall started now (ended e) h = tt

-- A download ends with the first time-out at or after its deadline, whatever came before.
pub download_run-IsOver :
    (home : Option HomePosition) (overall started now : ℕ) (s : Downloading)
    (before after : List Event)
    → overall ≤ now
    → IsOver (download_run home overall s (before ++ silent started now ∷ after))
unfolding download_run
download_run-IsOver home overall started now s [] after h =
    IsOver-stays home overall (download_step home overall s (silent started now)) after
      (late-IsOver home overall started now s h)
download_run-IsOver home overall started now s (event ∷ before) after h =
    download_run-IsOver home overall started now (download_step home overall s event) before after h
