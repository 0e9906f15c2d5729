-- ===== src/Execution/Keys.antt =====
-- The idempotency key of an operation: `_extract_idempotency_key` and
-- `_logical_and_wire_idempotency_key` of `Payment402Client` (ln_church_agent/client.py).
--
-- Key texts and origins are only compared, so they are numbers; `derive` is the SHA-256 text of a
-- logical key and an origin, and `is_blank` is `not key.strip()`.
use Prim.Native.Nat.{ℕ}
use ln_church_agent.Common.{Bool, List, Option, ◌∷◌, some, [], if◌then◌else◌, none, not, ◌==◌}
use ln_church_agent.Common.Outcome.{Outcome, done, raised}
use ln_church_agent.Common.Dict.{Dict, get, put}
use ln_church_agent.Common.Lists.{all}

-- a header, by whether it is an idempotency key in any case and whether its value is a text that is
-- neither empty nor padded
pub record Header : Type 0 where
  pub is_key : Bool
  pub is_canonical_text : Bool
  pub value : ℕ

pub data KeyError : Type 0 where
  not_canonical conflicting empty_key : KeyError

abbrev pub key_values : List Header → List Header
key_values [] = []
key_values (h ∷ rest) = if h.is_key then h ∷ key_values rest else key_values rest

-- what the values of the headers say
unfoldable pub extract_values : List Header → Outcome KeyError (Option ℕ)
extract_values [] = done none
extract_values (h ∷ rest) =
    if not (all (λ x. x.is_canonical_text) (h ∷ rest))
    then raised KeyError.not_canonical
    else if not (all (λ x. x.value == h.value) rest)
    then raised KeyError.conflicting
    else done (some h.value)

-- `_extract_idempotency_key`; a key that is present is the one that is returned
unfoldable pub extract_idempotency_key : List Header → Outcome KeyError (Option ℕ)
unfolding extract_values
extract_idempotency_key headers = extract_values (key_values headers)

-- the fields of the context: `_logical_operation_id`, `_idempotency_key` and
-- `_origin_idempotency_keys`
pub record KeyTable : Type 0 where
  pub logical_operation_id : Option ℕ
  pub idempotency_key : Option ℕ
  pub origin_keys : Dict ℕ

-- `supplied_key or context._idempotency_key or str(uuid.uuid4())`
abbrev pub first_key : Option ℕ → Option ℕ → ℕ → ℕ
first_key (some k) _ _ = k
first_key none (some k) _ = k
first_key none none fresh = fresh

abbrev pub begun : ℕ → ℕ → Dict ℕ → KeyTable
begun key origin keys = record {
  logical_operation_id = some key;
  idempotency_key = some key;
  origin_keys = put origin key keys;
}

-- the table once the logical key is known
abbrev pub with_logical : ℕ → Option ℕ → ℕ → KeyTable → KeyTable
with_logical origin supplied fresh t = elim t.logical_operation_id [
  | none ↦ begun (first_key supplied t.idempotency_key fresh) origin t.origin_keys
  | some _ ↦ t
]

-- the logical key and the key for the origin, which is derived where there is none yet
abbrev pub wire_key : (ℕ → ℕ → ℕ) → ℕ → ℕ → Option ℕ → KeyTable → (ℕ × ℕ) × KeyTable
wire_key derive logical origin (some wire) t = ((logical, wire), t)
wire_key derive logical origin none t =
    let w = derive logical origin in
    ((logical, w), record t { origin_keys = put origin w t.origin_keys })

abbrev pub or_zero : Option ℕ → ℕ
or_zero none = 0
or_zero (some n) = n

unfoldable pub look_up_keys : (ℕ → ℕ → ℕ) → ℕ → KeyTable → (ℕ × ℕ) × KeyTable
look_up_keys derive origin t =
    wire_key derive (or_zero t.logical_operation_id) origin (get origin t.origin_keys) t

-- `_logical_and_wire_idempotency_key(context, url, supplied_key)`, which does not initialize
unfoldable pub logical_and_wire : (ℕ → ℕ → ℕ) → ℕ → Option ℕ → ℕ → KeyTable → (ℕ × ℕ) × KeyTable
unfolding look_up_keys
logical_and_wire derive origin supplied fresh t =
    look_up_keys derive origin (with_logical origin supplied fresh t)

-- the same with `initialize=True`, by which a caller's key begins an operation
unfoldable pub initialize_keys :
    (ℕ → ℕ → ℕ) → (ℕ → Bool) → ℕ → Option ℕ → KeyTable → Outcome KeyError (ℕ × ℕ) × KeyTable
unfolding look_up_keys
initialize_keys derive is_blank origin none t = (raised KeyError.empty_key, t)
initialize_keys derive is_blank origin (some key) t =
    if is_blank key
    then (raised KeyError.empty_key, t)
    else let (keys, t') = look_up_keys derive origin (begun key origin []) in (done keys, t')

-- The later calls of an operation, each with its origin, the key that its headers supply, and a
-- fresh identifier; what each of them sends.
unfoldable pub later_keys : (ℕ → ℕ → ℕ) → List (ℕ × Option ℕ × ℕ) → KeyTable → List (ℕ × ℕ)
unfolding logical_and_wire
later_keys derive [] t = []
later_keys derive ((origin, supplied, fresh) ∷ rest) t =
    let (keys, t') = logical_and_wire derive origin supplied fresh t in
    keys ∷ later_keys derive rest t'
