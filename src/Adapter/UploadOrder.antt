-- ===== src/Adapter/UploadOrder.antt =====
-- What an upload has sent at each point, and what each ending says of it.
use mavctl.Prelude.{
  ℕ, zero, suc, ◌+◌, ◌≡◌, ◌≢◌, ◌≤◌, ◌<◌, refl, sym, inl, inr, Option, none, some, List, [], ◌∷◌,
  ◌++◌, length, get_elem?, arith, Bool-cases, ltb, ◌==◌,
}
use mathlib.Core.Path.{subst}
use mavctl.Missions.Wire.{MissionItemIntFields}
use mavctl.Adapter.Upload.{
  Outgoing, count, item, Ending, accepted, rejected, uncertain, sequence_gap, index_error, Upload,
  Progress, running, ended, send_item, set_at, on_silence, on_early_ack, on_request,
  on_late_silence, on_late_ack, on_late_request,
}

-- The output announces the whole mission and sends its items in strict order: each new item is
-- the one after the last, and what is sent again was sent before.
pub data InOrder (wire : List MissionItemIntFields) : ℕ → List Outgoing → Type 0 where
  nothing : InOrder wire 0 []
  announced :
      {n : ℕ} {out : List Outgoing}
      → InOrder wire n out
      → InOrder wire n (out ++ count (length wire) ∷ [])
  next :
      {n : ℕ} {out : List Outgoing} (fields : MissionItemIntFields)
      → InOrder wire n out
      → get_elem? wire n ≡ some fields
      → InOrder wire (suc n) (out ++ item n fields ∷ [])
  again :
      {n : ℕ} {out : List Outgoing} (seq : ℕ) (fields : MissionItemIntFields)
      → InOrder wire n out
      → seq < n
      → get_elem? wire seq ≡ some fields
      → InOrder wire n (out ++ item seq fields ∷ [])

-- The last of the first `n` sequence numbers.
abbrev pub last_of : ℕ → Option ℕ
last_of zero = none
last_of (suc n) = some n

-- The variables agree with what was sent.
pub record IsSound (wire : List MissionItemIntFields) (s : Upload) : Type 0 where
  pub order : InOrder wire s.expected_next_seq s.sent
  pub bounded : s.expected_next_seq ≤ length wire
  pub counted : s.items_sent ≡ s.expected_next_seq
  pub reported : s.sent_upto ≡ last_of s.expected_next_seq
  pub fresh : s.expected_next_seq ≡ 0 → s.last_sent_seq ≡ none

-- What each ending means.
abbrev pub Means : List MissionItemIntFields → Upload → Ending → Type 0
Means wire s (accepted item_count sent_upto) =
    (s.expected_next_seq ≡ length wire)
    × (suc item_count ≡ length wire)
    × (suc sent_upto ≡ length wire)
Means wire s (rejected result) = (s.expected_next_seq ≡ 0) × (result ≢ 0)
Means wire s (uncertain sent_upto) = sent_upto ≡ last_of s.expected_next_seq
Means wire s (sequence_gap expected requested sent_upto) =
    (expected ≡ s.expected_next_seq)
    × (expected < requested)
    × (sent_upto ≡ last_of s.expected_next_seq)
Means wire s index_error = ⊥

abbrev pub Holds : List MissionItemIntFields → Progress → Type 0
Holds wire (running s) = IsSound wire s
Holds wire (ended s e) = IsSound wire s × Means wire s e

elem_at : {A : Type 0} (xs : List A) (n : ℕ) → n < length xs → (x : A) × (get_elem? xs n ≡ some x)
elem_at [] n h = absurd (omega arith)
elem_at (x ∷ xs) zero h = (x, refl)
elem_at (x ∷ xs) (suc n) h = elem_at xs n (omega arith)

pub on_silence-Holds :
    (wire : List MissionItemIntFields) (overall : ℕ) (s : Upload) (now : ℕ)
    → IsSound wire s
    → Holds wire (on_silence wire overall s now)
unfolding on_silence
on_silence-Holds wire overall s now v =
    let again : InOrder wire s.expected_next_seq (s.sent ++ count (length wire) ∷ []) =
      announced v.order in
    ground arith

pub on_early_ack-Holds :
    (wire : List MissionItemIntFields) (s : Upload) (result : ℕ)
    → IsSound wire s
    → Holds wire (on_early_ack s result)
unfolding on_early_ack
on_early_ack-Holds wire s result v = ground arith

pub on_late_silence-Holds :
    (wire : List MissionItemIntFields) (overall : ℕ) (s : Upload) (now : ℕ)
    → IsSound wire s
    → 0 < length wire
    → s.expected_next_seq ≡ length wire
    → Holds wire (on_late_silence wire overall s now)
unfolding on_late_silence
on_late_silence-Holds wire overall s now v h e = ground arith

pub on_late_ack-Holds :
    (wire : List MissionItemIntFields) (s : Upload) (result : ℕ)
    → IsSound wire s
    → 0 < length wire
    → s.expected_next_seq ≡ length wire
    → Holds wire (on_late_ack wire s result)
unfolding on_late_ack
on_late_ack-Holds wire s result v h e = ground arith

-- An item below the end is sent, so what follows the sending decides.
pub sent_item :
    (P : Progress → Type 0) (wire : List MissionItemIntFields) (seq : ℕ) (s : Upload)
    (go_on : Upload → Progress)
    → seq < length wire
    → ((fields : MissionItemIntFields)
        → get_elem? wire seq ≡ some fields
        → P (go_on (record s { sent = s.sent ++ item seq fields ∷ [] })))
    → P (send_item wire seq s go_on)
unfolding send_item
sent_item P wire seq s go_on h k =
    let (fields, e) = elem_at wire seq h in rw (e, send_item) (k fields e)

repeated :
    (wire : List MissionItemIntFields) (s : Upload) (seq : ℕ) (fields : MissionItemIntFields)
    → IsSound wire s
    → seq < s.expected_next_seq
    → get_elem? wire seq ≡ some fields
    → IsSound wire (record s { sent = s.sent ++ item seq fields ∷ [] })
repeated wire s seq fields v h e = record {
  order = again seq fields v.order h e;
  bounded = v.bounded;
  counted = v.counted;
  reported = v.reported;
  fresh = v.fresh;
}

pub on_late_request-Holds :
    (wire : List MissionItemIntFields) (s : Upload) (seq : ℕ)
    → IsSound wire s
    → s.expected_next_seq ≡ length wire
    → Holds wire (on_late_request wire s seq)
unfolding on_late_request
on_late_request-Holds wire s seq v e = elim (Bool-cases (ltb seq (length wire))) [
  | inr past ↦ rw (past, on_late_request) v
  | inl below ↦
      rw (below, on_late_request)
        (sent_item (Holds wire) wire seq s running (ground arith)
          (λ fields found. repeated wire s seq fields v (ground arith) found))
]

new_item :
    (wire : List MissionItemIntFields) (s : Upload) (after : ℕ)
    → IsSound wire s
    → s.expected_next_seq < length wire
    → Holds wire (
        send_item wire s.expected_next_seq s (λ t. running (record t {
          last_sent_at = set_at t.last_sent_at s.expected_next_seq after;
          last_sent_seq = some s.expected_next_seq;
          items_sent = t.items_sent + 1;
          sent_upto = some s.expected_next_seq;
          expected_next_seq = suc s.expected_next_seq;
          resends = 0;
        })))
new_item wire s after v h = sent_item (Holds wire) wire s.expected_next_seq s _ h (λ fields found.
    record {
      order = next fields v.order found;
      bounded = omega arith;
      counted = omega (arith, v.counted);
      reported = refl;
      fresh = λ e. absurd (omega arith);
    })

old_item :
    (wire : List MissionItemIntFields) (s : Upload) (seq after : ℕ)
    → IsSound wire s
    → seq < s.expected_next_seq
    → Holds wire (
        send_item wire seq s (λ t. running (record t {
          last_sent_at = set_at t.last_sent_at seq after;
          last_sent_seq = some seq;
          resends = 0;
        })))
old_item wire s seq after v h =
    sent_item (Holds wire) wire seq s _ (omega (arith, v.bounded)) (λ fields found. record {
      order = again seq fields v.order h found;
      bounded = v.bounded;
      counted = v.counted;
      reported = v.reported;
      fresh = λ e. absurd (omega arith);
    })

pub on_request-Holds :
    (wire : List MissionItemIntFields) (s : Upload) (seq now after : ℕ)
    → IsSound wire s
    → s.expected_next_seq < length wire
    → Holds wire (on_request wire s seq now after)
unfolding on_request
on_request-Holds wire s seq now after v h = elim (Bool-cases (seq == s.expected_next_seq)) [
  | inl same ↦
      let e : seq ≡ s.expected_next_seq = ground arith in
      subst (λ n. Holds wire (on_request wire s n now after)) (sym e)
        (ground (arith, new_item wire s after v h))
  | inr other ↦ ground (arith, old_item wire s seq after v)
]
