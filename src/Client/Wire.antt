-- ===== src/Client/Wire.antt =====
-- Frames (src/mavctl/daemon/wire.py): a JSON object on a line of its own, as bytes.
use mavctl.Prelude.{ℕ, ◌≡◌, Bool, false, ◌||◌, Option, some, List, [], ◌∷◌, ◌++◌, ◌==◌}

abbrev pub Bytes : Type 0
Bytes = List ℕ

abbrev pub newline : ℕ
newline = b'\n'

-- `b"\n" in chunk`
unfoldable pub has_newline : Bytes → Bool
has_newline [] = false
has_newline (c ∷ cs) = c == newline || has_newline cs

-- What `json`, UTF-8 and pydantic do with a type of messages: a text without line breaks, and the
-- message in a text, `none` for their `ValueError`s.
pub record Codec (A : Type 0) : Type 0 where
  pub dumps : A → Bytes
  pub loads : Bytes → Option A

-- A message that survives the wire: `json.dumps` escapes its control characters, and `json.loads`
-- and pydantic read it back, with white space behind it.
pub record Survives {A : Type 0} (c : Codec A) (a : A) : Type 0 where
  pub one_line : has_newline (c.dumps a) ≡ false
  pub loads-dumps : c.loads (c.dumps a ++ newline ∷ []) ≡ some a

-- `encode`
unfoldable pub encode : {A : Type 0} → Codec A → A → Bytes
encode c payload = c.dumps payload ++ newline ∷ []

-- `decode`
unfoldable pub decode : {A : Type 0} → Codec A → Bytes → Option A
decode c line = c.loads line
