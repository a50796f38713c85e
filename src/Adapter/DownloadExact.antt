-- ===== src/Adapter/DownloadExact.antt =====
-- What a finished download holds: every item was heard under its own number, in order, and the
-- home slot was verified.
use mathlib.Core.Path.{subst}
use mavctl.Prelude.{
  ℕ, zero, suc, ◌+◌, ◌≡◌, ◌⊎◌, refl, sym, ap, ◌∙◌, inl, inr, Bool, true, false, Option, none, some,
  List, [], ◌∷◌, ◌++◌, ltb, leb, ◌==◌, length, if_cases, option_cases, arith,
}
use mavctl.Models.State.{HomePosition}
use mavctl.Models.Mission.{MissionItem}
use mavctl.Missions.Wire.{mission_item_from_remote}
use mavctl.Missions.Schema.{validate_downloaded}
use mavctl.Adapter.Inbox.{WireItem, mission_retries}
use mavctl.Adapter.Download.{
  downloaded, refused, too_many, unsupported, Download, Downloading, counting, fetching, ended,
  keep, request_item, check_home_slot_item, reject_item, judge_home, convert_remote_item, take_item,
  finish_mission, next_items, on_item_silence, buffer_item, on_item,
}

length-snoc :
    (items : List MissionItem) (item : MissionItem)
    → length (items ++ item ∷ []) ≡ suc (length items)
length-snoc [] item = refl
length-snoc (first ∷ items) item = ap suc (length-snoc items item)

-- `H n item` says that the item was received under the number `n`.
module _ (home : Option HomePosition) (H : ℕ → WireItem → Type 0) where
  -- A received item of this number is this mission item.
  abbrev pub Source : ℕ → MissionItem → Type 0
  Source n item = (w : WireItem) × H n w × (mission_item_from_remote w.fields ≡ some item)

  -- The items are those of the numbers from `start` on.
  abbrev pub Sources : ℕ → List MissionItem → Type 0
  Sources start [] = Unit {0}
  Sources start (item ∷ items) = Source start item × Sources (suc start) items

  abbrev pub HomeVerified : Type 0
  HomeVerified = (w : WireItem) × H 0 w × (check_home_slot_item home w ≡ some true)

  -- What is there when the item `seq` is next.
  abbrev pub Ready : ℕ → List MissionItem → Type 0
  Ready zero items = items ≡ []
  Ready (suc n) items = HomeVerified × Sources 1 items × (length items ≡ n)

  Sources-snoc :
      (start : ℕ) (items : List MissionItem) (item : MissionItem)
      → Sources start items
      → Source (start + length items) item
      → Sources start (items ++ item ∷ [])
  Sources-snoc start [] item s last = (subst (λ n. Source n item) (omega arith) last, tt)
  Sources-snoc start (first ∷ items) item (f, s) last =
      (f, Sources-snoc (suc start) items item s (subst (λ n. Source n item) (omega arith) last))

  -- Every buffered item was received.
  abbrev pub Buffered : (ℕ → Option WireItem) → Type 0
  Buffered buffer = (n : ℕ) (w : WireItem) → buffer n ≡ some w → H n w

  kept :
      (n : ℕ) (w : WireItem) (buffer : ℕ → Option WireItem)
      → H n w
      → Buffered buffer
      → Buffered (keep n w buffer)
  kept n w buffer h b m v =
      if_cases (λ o. o ≡ some v → H m v) (m == n)
        (λ e f.
          let here : n ≡ m = ground arith in
          let same : w ≡ v = ground arith in subst (H m) same (subst (λ k. H k w) here h))
        (λ _ f. b m v f)

  -- How a download may end, and what holds on the way.
  abbrev pub Faithful : ℕ → Downloading → Type 0
  Faithful count (counting q) = Unit {0}
  Faithful count (fetching d) =
      (d.count ≡ count)
      × (suc (d.seq + d.later) ≡ count)
      × Buffered d.buffer
      × Ready d.seq d.converted
  Faithful count (ended (downloaded mission)) =
      (mission.version ≡ 1) × (validate_downloaded mission ≡ true) × Ready count mission.items
  Faithful count (ended (unsupported n command frame)) =
      (w : WireItem) × H n w
      × (w.fields.command ≡ command)
      × (w.fields.frame ≡ frame)
      × (((n ≡ 0) × (check_home_slot_item home w ≡ some false))
          ⊎ (mission_item_from_remote w.fields ≡ none))
  Faithful count (ended (too_many n)) = ⊥
  Faithful count (ended (refused result)) = ⊥
  Faithful count (ended e) = Unit {0}

  judge_home-Faithful :
      (count : ℕ) (w : WireItem) (o : Option Bool) (next : Downloading)
      → H 0 w
      → check_home_slot_item home w ≡ o
      → (HomeVerified → Faithful count next)
      → Faithful count (judge_home w o next)
  unfolding judge_home reject_item
  judge_home-Faithful count w none next h e k = tt
  judge_home-Faithful count w (some false) next h e k = (w, h, refl, refl, inl (refl, e))
  judge_home-Faithful count w (some true) next h e k = k (w, h, e)

  convert-Faithful :
      (count n : ℕ) (w : WireItem) (items : List MissionItem)
      (next : List MissionItem → Downloading)
      → H (suc n) w
      → Ready (suc n) items
      → ((more : List MissionItem) → Ready (suc (suc n)) more → Faithful count (next more))
      → Faithful count (convert_remote_item (suc n) w items next)
  unfolding convert_remote_item reject_item
  convert-Faithful count n w items next h (verified, s, l) k =
      option_cases (Faithful count) (mission_item_from_remote w.fields)
        (λ e. (w, h, refl, refl, inr e))
        (λ item e. k (items ++ item ∷ []) (
          verified,
          Sources-snoc 1 items item s (subst (λ m. Source m item) (omega arith) (w, h, e)),
          length-snoc items item ∙ ap suc l,
        ))

  take-Faithful :
      (count seq : ℕ) (w : WireItem) (items : List MissionItem)
      (next : List MissionItem → Downloading)
      → H seq w
      → Ready seq items
      → ((more : List MissionItem) → Ready (suc seq) more → Faithful count (next more))
      → Faithful count (take_item home seq w items next)
  unfolding take_item
  take-Faithful count zero w items next h r k =
      judge_home-Faithful count w (check_home_slot_item home w) (next items) h refl
        (λ verified. k items (verified, subst (Sources 1) (sym r) tt, ap length r))
  take-Faithful count (suc n) w items next h r k =
      if_cases (Faithful count) (suc n == 0) (λ e. absurd (ground arith))
        (λ _. convert-Faithful count n w items next h r k)

  pub finish-Faithful :
      (count : ℕ) (items : List MissionItem)
      → Ready count items
      → Faithful count (finish_mission items)
  unfolding finish_mission
  finish-Faithful count items r =
      if_cases (Faithful count) (validate_downloaded (record { version = 1; items = items }))
        (λ e. (refl, e, r)) (λ _. tt)

  request-Faithful :
      (count : ℕ) (d : Download)
      → Faithful count (fetching d)
      → Faithful count (fetching (request_item d))
  unfolding request_item
  request-Faithful count d h =
      if_cases (λ d. Faithful count (fetching d)) d.request_outstanding (λ _. h) (λ _. h)

  pub next_items-Faithful :
      (count left seq : ℕ) (buffer : ℕ → Option WireItem) (requested : List ℕ)
      (items : List MissionItem)
      → seq + left ≡ count
      → Buffered buffer
      → Ready seq items
      → Faithful count (next_items home count left seq buffer requested items)
  unfolding next_items
  next_items-Faithful count zero seq buffer requested items e b r =
      finish-Faithful count items (subst (λ n. Ready n items) (omega arith) r)
  next_items-Faithful count (suc later) seq buffer requested items e b r =
      let awaited : Download = record {
        count = count;
        seq = seq;
        later = later;
        buffer = buffer;
        converted = items;
        resends = 0;
        request_outstanding = false;
        requested = requested;
      } in
      option_cases (Faithful count) (buffer seq)
        (λ _. request-Faithful count awaited (refl, omega arith, b, r))
        (λ w f. take-Faithful count seq w items _ (b seq w f) r (λ more ready.
          next_items-Faithful count later (suc seq) buffer requested more (omega arith) b ready))

  buffer-Faithful :
      (count iseq : ℕ) (w : WireItem) (d : Download)
      → H iseq w
      → Faithful count (fetching d)
      → Faithful count (fetching (buffer_item iseq w d))
  unfolding buffer_item
  buffer-Faithful count iseq w d h (c, l, b, r) =
      if_cases (λ d. Faithful count (fetching d)) (ltb iseq d.count)
        (λ _.
          option_cases (λ d. Faithful count (fetching d)) (d.buffer iseq)
            (λ _. (c, l, kept iseq w d.buffer h b, r)) (λ _ _. (c, l, b, r)))
        (λ _. (c, l, b, r))

  pub item-Faithful :
      (count iseq : ℕ) (w : WireItem) (d : Download)
      → H iseq w
      → Faithful count (fetching d)
      → Faithful count (on_item home iseq w d)
  unfolding on_item
  item-Faithful count iseq w d h (c, l, b, r) =
      if_cases (Faithful count) (iseq == d.seq)
        (λ e.
          let mine : H d.seq w = subst (λ n. H n w) (ground arith) h in
          let next : ℕ → List MissionItem → Downloading = λ n more.
            next_items home n d.later (suc d.seq) (keep d.seq w d.buffer) d.requested more in
          take-Faithful count d.seq w d.converted (next d.count) mine r (λ more ready.
            subst (λ n. Faithful count (next n more)) (sym c)
              (next_items-Faithful count d.later (suc d.seq) (keep d.seq w d.buffer) d.requested
                more (omega arith) (kept d.seq w d.buffer mine b) ready)))
        (λ _. buffer-Faithful count iseq w d h (c, l, b, r))

  pub silence-Faithful :
      (count overall now : ℕ) (d : Download)
      → Faithful count (fetching d)
      → Faithful count (on_item_silence overall d now)
  unfolding on_item_silence
  silence-Faithful count overall now d h =
      if_cases (Faithful count) (leb overall now) (λ _. tt)
        (λ _.
          if_cases (Faithful count) (ltb mission_retries (d.resends + 1)) (λ _. tt)
            (λ _.
              request-Faithful count
                (record d { resends = d.resends + 1; request_outstanding = false }) h))
