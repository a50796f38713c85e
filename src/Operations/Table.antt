-- ===== src/Operations/Table.antt =====
-- Runs of consecutive operations: how the dictionary and the queue of a registry look, and what
-- eviction does to them.
use native.Mathlib.Nat.{add-zero, add-suc, suc-add}
use text.Mathlib.TextEquality.{eq_iff}
use mavctl.Prelude.{
  ℕ, zero, suc, ◌+◌, ◌≤◌, ◌<◌, ◌≡◌, ◌≢◌, refl, ap, Option, some, List, [], ◌∷◌, ◌++◌, String, ltb,
  if◌then◌else◌, length, arith,
}
use mavctl.Operations.Registry.{
  Operation, lookup, insert, delete, drop_entry, evict, max_retained_terminal_operations,
}

-- The texts of the ids of `k` operations from address `a` on.
abbrev pub ids : (ℕ → Operation) → ℕ → ℕ → List String
ids heap a zero = []
ids heap a (suc k) = (heap a).operation_id ∷ ids heap (suc a) k

-- Their dictionary entries.
abbrev pub entries : (ℕ → Operation) → ℕ → ℕ → List (String × ℕ)
entries heap a zero = []
entries heap a (suc k) = ((heap a).operation_id, a) ∷ entries heap (suc a) k

-- No two operations below `n` have the same id.
abbrev pub Distinct : (ℕ → Operation) → ℕ → Type 0
Distinct heap n = (a b : ℕ) → a < n → b < n → (heap a).operation_id ≡ (heap b).operation_id → a ≡ b

-- Two heaps agree on ids.
abbrev pub SameIds : (ℕ → Operation) → (ℕ → Operation) → ℕ → Type 0
SameIds heap heap' n = (a : ℕ) → a < n → (heap' a).operation_id ≡ (heap a).operation_id

pub length-ids : (heap : ℕ → Operation) (a k : ℕ) → length (ids heap a k) ≡ k
length-ids heap a zero = refl
length-ids heap a (suc k) = ap suc (length-ids heap (suc a) k)

pub length-entries : (heap : ℕ → Operation) (a k : ℕ) → length (entries heap a k) ≡ k
length-entries heap a zero = refl
length-entries heap a (suc k) = ap suc (length-entries heap (suc a) k)

pub ids-SameIds :
    (heap heap' : ℕ → Operation) (n a k : ℕ)
    → SameIds heap heap' n
    → a + k ≤ n
    → ids heap' a k ≡ ids heap a k
ids-SameIds heap heap' n a zero same h = refl
ids-SameIds heap heap' n a (suc k) same h =
    cc (same a (omega arith), ids-SameIds heap heap' n (suc a) k same (omega arith))

pub entries-SameIds :
    (heap heap' : ℕ → Operation) (n a k : ℕ)
    → SameIds heap heap' n
    → a + k ≤ n
    → entries heap' a k ≡ entries heap a k
entries-SameIds heap heap' n a zero same h = refl
entries-SameIds heap heap' n a (suc k) same h =
    cc (same a (omega arith), entries-SameIds heap heap' n (suc a) k same (omega arith))

pub ids-suc :
    (heap : ℕ → Operation) (a k : ℕ)
    → ids heap a k ++ (heap (a + k)).operation_id ∷ [] ≡ ids heap a (suc k)
ids-suc heap a zero = rw (add-zero a)
ids-suc heap a (suc k) =
    rw (add-suc a k, ← suc-add a k) (ap (◌∷◌ (heap a).operation_id) (ids-suc heap (suc a) k))

pub entries-suc :
    (heap : ℕ → Operation) (a k : ℕ)
    → entries heap a k ++ ((heap (a + k)).operation_id, a + k) ∷ [] ≡ entries heap a (suc k)
entries-suc heap a zero = rw (add-zero a)
entries-suc heap a (suc k) =
    rw (add-suc a k, ← suc-add a k)
      (ap (◌∷◌ ((heap a).operation_id, a)) (entries-suc heap (suc a) k))

pub insert-entries :
    (heap : ℕ → Operation) (n a k : ℕ) (id : String)
    → a + k ≤ n
    → ((b : ℕ) → b < n → (heap b).operation_id ≢ id)
    → insert id n (entries heap a k) ≡ entries heap a k ++ (id, n) ∷ []
unfolding insert
insert-entries heap n a zero id h fresh = refl
insert-entries heap n a (suc k) id h fresh =
    ground (arith, eq_iff (heap a).operation_id id, fresh a, insert-entries heap n (suc a) k id)

pub lookup-entries :
    (heap : ℕ → Operation) (n a k b : ℕ)
    → Distinct heap n
    → a + k ≤ n
    → a ≤ b
    → b < a + k
    → lookup (heap b).operation_id (entries heap a k) ≡ some b
unfolding lookup
lookup-entries heap n a zero b d h lo hi = absurd (omega arith)
lookup-entries heap n a (suc k) b d h lo hi = ground (
  arith,
  eq_iff (heap a).operation_id (heap b).operation_id,
  d a b,
  lookup-entries heap n (suc a) k b d,
)

-- The oldest entry is the one that `delete` finds first.
pub delete-entries :
    (heap : ℕ → Operation) (a k : ℕ)
    → delete (heap a).operation_id (entries heap a (suc k)) ≡ entries heap (suc a) k
unfolding delete
delete-entries heap a k = ground (arith, eq_iff (heap a).operation_id (heap a).operation_id)

-- How many entries are left after eviction, and from which address on.
abbrev pub first_kept : ℕ → ℕ → ℕ
first_kept a m = if ltb max_retained_terminal_operations m then suc a else a

abbrev pub kept : ℕ → ℕ
kept m = if ltb max_retained_terminal_operations m then max_retained_terminal_operations else m

evict_stops :
    (active : Option ℕ) (id : String) (order : List String) (operations : List (String × ℕ))
    → length order ≤ max_retained_terminal_operations
    → evict active id order operations ≡ (order, operations)
unfolding evict
evict_stops active id [] operations h = refl
evict_stops active id (oldest ∷ order) operations h = ground arith

-- With the active operation newest, the loop keeps the last 256 ids, in the queue and in the
-- dictionary alike.
pub evict-entries :
    (heap : ℕ → Operation) (n a m : ℕ)
    → Distinct heap n
    → a + suc m ≡ n
    → m ≤ max_retained_terminal_operations
    → evict (some (a + m)) (heap (a + m)).operation_id (ids heap a (suc m)) (entries heap a (suc m))
      ≡ (
        ids heap (first_kept a (suc m)) (kept (suc m)),
        entries heap (first_kept a (suc m)) (kept (suc m)),
      )
unfolding evict drop_entry
evict-entries heap n a m d e h = ground (
  arith,
  eq_iff (heap a).operation_id (heap a).operation_id,
  eq_iff (heap a).operation_id (heap (a + m)).operation_id,
  d a (a + m),
  length-ids heap (suc a) m,
  evict_stops (some (a + m)) (heap (a + m)).operation_id (ids heap (suc a) m)
      (entries heap (suc a) m),
)
