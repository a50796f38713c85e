-- ===== src/Operations/Registry.antt =====
-- `Operation` and `OperationRegistry` of src/mavctl/daemon/operations.py. Operations are objects
-- that the registry and the observers share, so they live on a heap and are named by addresses;
-- `none` is a `KeyError`. The text of a new id and the clock readings are arguments.
use mathlib.Core.Option
use mavctl.Prelude.{
  ℕ, suc, ◌+◌, Bool, true, false, not, ◌&&◌, Option, none, some, List, [], ◌∷◌, ◌++◌, String,
  str_eq, Float, round_thousandths, float_sub, ltb, ◌==◌, if◌then◌else◌, length,
}
use mavctl.Models.Operation.{
  OperationKind, OperationState, waiting, reached, link_lost, superseded, uncertain, is_terminal,
  is_waiting, OperationSnapshot,
}

-- `MAX_RETAINED_TERMINAL_OPERATIONS`
abbrev pub max_retained_terminal_operations : ℕ
max_retained_terminal_operations = 256

pub record Operation : Type 0 where
  pub operation_id : String
  pub epoch : ℕ
  pub kind : OperationKind
  pub created_monotonic : Float
  pub effect_sent_monotonic : Option Float
  pub ack_monotonic : Option Float
  pub state : OperationState
  pub superseded_by_operation_id : Option String
  pub terminal_reason : Option String

-- `next` is the address of the next object.
pub record Registry : Type 0 where
  pub heap : ℕ → Operation
  pub next : ℕ
  pub active : Option ℕ
  pub operations : List (String × ℕ)
  pub last_epoch : ℕ
  pub terminal_order : List String

-- The dictionary `_operations`, in insertion order.
unfoldable pub lookup : String → List (String × ℕ) → Option ℕ
lookup key [] = none
lookup key ((k, a) ∷ rest) = if str_eq k key then some a else lookup key rest

unfoldable pub insert : String → ℕ → List (String × ℕ) → List (String × ℕ)
insert key a [] = (key, a) ∷ []
insert key a ((k, b) ∷ rest) = if str_eq k key then (k, a) ∷ rest else (k, b) ∷ insert key a rest

unfoldable pub delete : String → List (String × ℕ) → List (String × ℕ)
delete key [] = []
delete key ((k, a) ∷ rest) = if str_eq k key then rest else (k, a) ∷ delete key rest

-- An assignment to a field of the object at `a`.
unfoldable pub update : (ℕ → Operation) → ℕ → Operation → ℕ → Operation
update heap a operation b = if b == a then operation else heap b

-- `other is not self._active`
abbrev pub is_not : ℕ → Option ℕ → Bool
is_not a none = true
is_not a (some b) = not (a == b)

-- The removal of an evicted id from the dictionary, unless it is the active operation's.
unfoldable pub drop_entry : Option ℕ → String → Option ℕ → List (String × ℕ) → List (String × ℕ)
unfolding delete
drop_entry active oldest none operations = operations
drop_entry active oldest (some a) operations =
    if is_not a active then delete oldest operations else operations

-- The `while` loop of `_mark_terminal`, over the queue of terminal ids.
unfoldable pub evict :
    Option ℕ → String → List String → List (String × ℕ) → List String × List (String × ℕ)
unfolding drop_entry lookup
evict active id [] operations = ([], operations)
evict active id (oldest ∷ order) operations =
    let rest =
      evict active id order (drop_entry active oldest (lookup oldest operations) operations) in
    if ltb max_retained_terminal_operations (length (oldest ∷ order))
    then (if str_eq oldest id then (order, operations) else rest)
    else (oldest ∷ order, operations)

-- `_mark_terminal`
unfoldable pub mark_terminal : ℕ → Registry → Registry
unfolding evict
mark_terminal a r =
    let id = (r.heap a).operation_id in
    let (order, operations) = evict r.active id (r.terminal_order ++ id ∷ []) r.operations in
    record r { operations = operations; terminal_order = order }

-- The change that `activate` makes to the previous owner.
unfoldable pub supersede : Option ℕ → String → Registry → Registry
unfolding update mark_terminal
supersede none id r = r
supersede (some a) id r =
    if is_terminal (r.heap a).state
    then r
    else mark_terminal a (record r {
      heap = update r.heap a (record (r.heap a) {
        state = superseded;
        superseded_by_operation_id = some id;
        terminal_reason = some "superseded by a newer accepted command";
      });
    })

-- `activate`: the new registry and the address of the new operation. `id` is the fresh
-- `op-<uuid>` text.
unfoldable pub activate : OperationKind → Float → Float → Float → String → Registry → Registry × ℕ
unfolding supersede update insert
activate kind effect_sent ack now id r =
    let operation : Operation = record {
      operation_id = id;
      epoch = r.last_epoch + 1;
      kind = kind;
      created_monotonic = now;
      effect_sent_monotonic = some effect_sent;
      ack_monotonic = some ack;
      state = waiting;
      superseded_by_operation_id = none;
      terminal_reason = none;
    } in
    let s = supersede r.active id r in
    (
      record s {
        heap = update s.heap s.next operation;
        next = suc s.next;
        active = some s.next;
        operations = insert id s.next s.operations;
        last_epoch = operation.epoch;
      },
      s.next,
    )

-- `is_active`, at the active owner
unfoldable pub owns : Option ℕ → (ℕ → Operation) → String → ℕ → Bool
owns none heap id epoch = false
owns (some a) heap id epoch = str_eq (heap a).operation_id id && (heap a).epoch == epoch

unfoldable pub is_active : String → ℕ → Registry → Bool
unfolding owns
is_active id epoch r = owns r.active r.heap id epoch

-- The terminal write of an observer to the object at `a`, if it is still waiting.
unfoldable pub settle : OperationState → String → Option ℕ → Registry → Option (Registry × Bool)
unfolding update mark_terminal
settle state reason none r = none
settle state reason (some a) r =
    if is_waiting (r.heap a).state
    then some (
      mark_terminal a (record r {
        heap = update r.heap a (record (r.heap a) { state = state; terminal_reason = some reason });
      }),
      true,
    )
    else some (r, false)

-- The fence that the three terminal writes share.
unfoldable pub fenced_settle :
    OperationState → String → String → ℕ → Registry → Option (Registry × Bool)
unfolding is_active settle
fenced_settle state reason id epoch r =
    if not (is_active id epoch r)
    then some (r, false)
    else settle state reason (lookup id r.operations) r

-- `record_reached`
unfoldable pub record_reached : String → ℕ → Registry → Option (Registry × Bool)
unfolding fenced_settle
record_reached = fenced_settle reached "milestone reached"

-- `record_link_lost`
unfoldable pub record_link_lost : String → ℕ → Registry → Option (Registry × Bool)
unfolding fenced_settle
record_link_lost = fenced_settle link_lost "heartbeat lost during wait"

-- `record_uncertain`
unfoldable pub record_uncertain : String → String → ℕ → Registry → Option (Registry × Bool)
unfolding fenced_settle
record_uncertain reason = fenced_settle uncertain reason

-- The write of `record_timed_out`: the reason alone.
unfoldable pub note_deadline : Option ℕ → Registry → Option (Registry × Bool)
unfolding update
note_deadline none r = none
note_deadline (some a) r =
    if is_waiting (r.heap a).state
    then some (
      record r {
        heap = update r.heap a (record (r.heap a) {
          terminal_reason = some "client wait deadline elapsed; observation continues";
        });
      },
      true,
    )
    else some (r, false)

-- `record_timed_out`
unfoldable pub record_timed_out : String → ℕ → Registry → Option (Registry × Bool)
unfolding is_active note_deadline
record_timed_out id epoch r =
    if not (is_active id epoch r) then some (r, false) else note_deadline (lookup id r.operations) r

-- `release_active`
unfoldable pub release_active : Registry → Registry
release_active r = record r { active = none }

-- `get`
unfoldable pub get : String → Registry → Option ℕ
get id r = lookup id r.operations

-- `_age` of `Operation.snapshot`
unfoldable pub age : Float → Option Float → Option Float
unfolding round_thousandths float_sub
age now none = none
age now (some mono) = some (round_thousandths (float_sub now mono))

-- `Operation.snapshot`
unfoldable pub view : Float → Operation → OperationSnapshot
unfolding age
view now operation = record {
  id = operation.operation_id;
  kind = operation.kind;
  state = operation.state;
  created_age_s = age now (some operation.created_monotonic);
  effect_sent_age_s = age now operation.effect_sent_monotonic;
  ack_age_s = age now operation.ack_monotonic;
  superseded_by_operation_id = operation.superseded_by_operation_id;
  terminal_reason = operation.terminal_reason;
}

-- `snapshot`
unfoldable pub snapshot : String → Float → Registry → Option OperationSnapshot
unfolding get view
snapshot id now r = Option.map (λ a. view now (r.heap a)) (get id r)
