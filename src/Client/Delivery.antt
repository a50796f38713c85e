-- ===== src/Client/Delivery.antt =====
-- A frame arrives whole, however the stream cuts it.
use mavctl.Prelude.{
  ◌≡◌, ◌≢◌, sym, ap, ◌∙◌, true, false, some, List, [], ◌∷◌, ◌++◌, map, All, arith, Bool-cases, inl,
  inr,
}
use mavctl.Client.Wire.{Bytes, newline, has_newline}
use mavctl.Client.Socket.{Recv, chunk, read_frame}

-- The bytes of pieces, one behind the other, as `b"".join` makes them.
abbrev pub joined : List Bytes → Bytes
joined [] = []
joined (piece ∷ pieces) = piece ++ joined pieces

abbrev pub IsFilled : Bytes → Type 0
IsFilled [] = ⊥
IsFilled (c ∷ cs) = Unit {0}

-- A piece without a newline is less than the frame, and the rest is the frame's rest.
before_newline :
    (piece rest body : Bytes)
    → has_newline body ≡ false
    → has_newline piece ≡ false
    → piece ++ rest ≡ body ++ newline ∷ []
    → (body' : Bytes) × (has_newline body' ≡ false) × (rest ≡ body' ++ newline ∷ [])
unfolding has_newline
before_newline [] rest body h k e = (body, h, e)
before_newline (c ∷ cs) rest [] h k e = ground arith
before_newline (c ∷ cs) rest (d ∷ ds) h k e =
    before_newline cs rest ds (ground arith) (ground arith) (ground arith)

-- A piece with the newline ends the frame.
at_newline :
    (piece rest body : Bytes)
    → has_newline body ≡ false
    → has_newline piece ≡ true
    → piece ++ rest ≡ body ++ newline ∷ []
    → piece ≡ body ++ newline ∷ []
unfolding has_newline
at_newline [] rest body h k e = cc k
at_newline (c ∷ []) rest [] h k e = ground arith
at_newline (c ∷ (d ∷ ds)) rest [] h k e = ground arith
at_newline (c ∷ cs) rest (d ∷ ds) h k e =
    ground (arith, at_newline cs rest ds (ground arith) (ground arith) (ground arith))

pub frame-ne-nil : (body : Bytes) → [] ≢ body ++ newline ∷ []
frame-ne-nil [] e = cc e
frame-ne-nil (c ∷ cs) e = cc e

-- `_read_frame` reads up to the newline that ends the frame.
pub read_frame-joined :
    (pieces : List Bytes) (body : Bytes) (later : List Recv)
    → has_newline body ≡ false
    → All IsFilled pieces
    → joined pieces ≡ body ++ newline ∷ []
    → read_frame (map chunk pieces ++ later) ≡ some (body ++ newline ∷ [])
unfolding read_frame
read_frame-joined [] body later h f e = absurd (frame-ne-nil body e)
read_frame-joined ([] ∷ pieces) body later h f e = absurd f.0
read_frame-joined ((c ∷ cs) ∷ pieces) body later h f e = elim (Bool-cases (has_newline (c ∷ cs))) [
  | inl found ↦ rw found (ap some (at_newline (c ∷ cs) (joined pieces) body h found e))
  | inr more ↦
      let (body', h', e') = before_newline (c ∷ cs) (joined pieces) body h more e in
      rw (more, read_frame-joined pieces body' later h' f.1 e')
        (ap some (sym (ap (λ bytes. (c ∷ cs) ++ bytes) e') ∙ e))
]
