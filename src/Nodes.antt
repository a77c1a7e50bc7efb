-- ===== src/Nodes.antt =====
-- src/buildstream/node.pyx: YAML nodes, and the composition of one mapping onto another. A key or a
-- scalar is a number; nodes are values, so that what two trees share is not modelled, and neither is
-- where a node comes from.
use buildstream.Common.{
  ℕ, zero, suc, ◌+◌, Bool, true, false, not, ◌&&◌, ◌||◌, ◌==◌, List, [], ◌∷◌, ◌++◌, any, map,
  if◌then◌else◌, Option, none, some, Outcome, ok, raise, load_error, type_error, ◌>>=◌,
}
pub mod Layering
pub mod Composing

-- A sequence and the fields of a mapping are data types of their own.
mutual
  pub data Node : Type 0 where
    scalar : ℕ → Node
    sequence : Items → Node
    mapping : Fields → Node

  pub data Items : Type 0 where
    no_items : Items
    item : Node → Items → Items

  pub data Fields : Type 0 where
    no_fields : Fields
    field : ℕ → Node → Fields → Fields

abbrev pub join : Items → Items → Items
join no_items ys = ys
join (item x xs) ys = item x (join xs ys)

abbrev pub get : ℕ → Fields → Option Node
get key no_fields = none
get key (field k n fs) = if k == key then some n else get key fs

-- target.value[key] = node
abbrev pub assign : ℕ → Node → Fields → Fields
assign key n no_fields = field key n no_fields
assign key n (field k m fs) = if k == key then field k n fs else field k m (assign key n fs)

-- The keys `(=)`, `(<)`, `(>)` and `(?)`.
abbrev pub clobber_key : ℕ
clobber_key = 0

abbrev pub prefix_key : ℕ
prefix_key = 1

abbrev pub suffix_key : ℕ
suffix_key = 2

abbrev pub condition_key : ℕ
condition_key = 3

abbrev pub is_directive : ℕ → Bool
is_directive key = key == clobber_key || key == prefix_key || key == suffix_key

abbrev pub has_directives : Fields → Bool
has_directives no_fields = false
has_directives (field k n fs) = is_directive k || has_directives fs

abbrev pub has_keys : Fields → Bool
has_keys no_fields = false
has_keys (field k n fs) = not (is_directive k) || has_keys fs

-- _is_composite_list(), of a mapping and of any node
unfoldable pub is_composite_dict : Fields → Outcome Bool
is_composite_dict fs =
    if has_keys fs && has_directives fs then raise load_error else ok (has_directives fs)

unfoldable pub is_composite_list : Node → Outcome Bool
unfolding is_composite_dict
is_composite_list (mapping fs) = is_composite_dict fs
is_composite_list _ = ok false

-- The sequence under a directive; any other node there does not have the type of a sequence.
abbrev pub as_sequence : Option Node → Outcome (Option Items)
as_sequence none = ok none
as_sequence (some (sequence xs)) = ok (some xs)
as_sequence (some _) = raise type_error

-- The directives of a composite dict. The source casts those of a target to a sequence without a
-- check, where the model reads them and raises.
pub record Directives : Type 0 where
  pub clobber : Option Items
  pub prefix : Option Items
  pub suffix : Option Items

unfoldable pub read_directives : Fields → Outcome Directives
read_directives fs = do
  clobber ← as_sequence (get clobber_key fs)
  prefix ← as_sequence (get prefix_key fs)
  suffix ← as_sequence (get suffix_key fs)
  ok (record { clobber = clobber; prefix = prefix; suffix = suffix })

abbrev pub or_empty : Option Items → Items
or_empty none = no_items
or_empty (some xs) = xs

abbrev pub or_items : Option Items → Items → Items
or_items none ys = ys
or_items (some xs) ys = xs

-- _compose_on_list
unfoldable pub compose_on_list : Directives → Items → Items
compose_on_list d target =
    join (or_empty d.prefix) (join (or_items d.clobber target) (or_empty d.suffix))

-- `elif key in target.value: target.value[key].value.clear()`
abbrev pub cleared : Option Items → Option Items → Option Items
cleared (some xs) old = some xs
cleared none (some ys) = some no_items
cleared none none = none

abbrev pub prefixed : Option Items → Option Items → Option Items
prefixed none old = old
prefixed (some xs) none = some xs
prefixed (some xs) (some ys) = some (join xs ys)

abbrev pub suffixed : Option Items → Option Items → Option Items
suffixed none old = old
suffixed (some xs) none = some xs
suffixed (some xs) (some ys) = some (join ys xs)

-- _compose_on_composite_dict, on the directives of the target
unfoldable pub compose_on_composite_dict : Directives → Directives → Directives
compose_on_composite_dict d target = elim d.clobber [
  | none ↦ record {
    clobber = target.clobber;
    prefix = prefixed d.prefix target.prefix;
    suffix = suffixed d.suffix target.suffix;
  }
  | some xs ↦ record {
    clobber = some xs;
    prefix = cleared d.prefix target.prefix;
    suffix = cleared d.suffix target.suffix;
  }
]

abbrev write_one : ℕ → Option Items → Fields → Fields
write_one key none fs = fs
write_one key (some xs) fs = assign key (sequence xs) fs

-- The target's fields with these directives.
unfoldable pub write_directives : Directives → Fields → Fields
write_directives d fs =
    write_one suffix_key d.suffix
      (write_one prefix_key d.prefix (write_one clobber_key d.clobber fs))

-- ScalarNode._compose_on and SequenceNode._compose_on
unfoldable pub compose_scalar : ℕ → Option Node → Outcome Node
compose_scalar t none = ok (scalar t)
compose_scalar t (some (scalar _)) = ok (scalar t)
compose_scalar t (some _) = raise load_error

-- `key` tells a list of conditional statements.
unfoldable pub compose_sequence : ℕ → Items → Option Node → Outcome Node
unfolding is_composite_dict
compose_sequence key xs none = ok (sequence xs)
compose_sequence key xs (some (scalar _)) = raise load_error
compose_sequence key xs (some (sequence ys)) =
    ok (sequence (if key == condition_key then join ys xs else xs))
compose_sequence key xs (some (mapping fs)) = do
  composite ← is_composite_dict fs
  if composite then ok (sequence xs) else raise load_error

-- MappingNode._compose_on, of a composite dict
unfoldable pub compose_directives : Fields → Option Node → Outcome Node
unfolding read_directives compose_on_list compose_on_composite_dict write_directives
    is_composite_dict
compose_directives fs none = ok (mapping fs)
compose_directives fs (some (scalar _)) = raise load_error
compose_directives fs (some (sequence ys)) = do
  d ← read_directives fs
  ok (sequence (compose_on_list d ys))
compose_directives fs (some (mapping gs)) = do
  composite ← is_composite_dict gs
  let merged = read_directives fs >>= λ d.
      read_directives gs >>= λ e. ok (mapping (write_directives (compose_on_composite_dict d e) gs))
  if composite then merged else raise load_error

-- The mapping into which a mapping is composed: a fresh one where there is none.
abbrev pub as_mapping : Option Node → Outcome Fields
as_mapping none = ok no_fields
as_mapping (some (mapping gs)) = ok gs
as_mapping (some _) = raise type_error

-- _compose_on and __composite
unfoldable mutual
  unfolding compose_scalar compose_sequence compose_directives is_composite_dict

  pub compose_on : ℕ → Node → Option Node → Outcome Node
  compose_on key (scalar t) target = compose_scalar t target
  compose_on key (sequence xs) target = compose_sequence key xs target
  compose_on key (mapping fs) target = do
    composite ← is_composite_dict fs
    let merged = as_mapping target >>= λ gs. composite_fields fs gs >>= λ hs. ok (mapping hs)
    if composite then compose_directives fs target else merged

  pub composite_fields : Fields → Fields → Outcome Fields
  composite_fields no_fields target = ok target
  composite_fields (field k n fs) target =
      compose_on k n (get k target) >>= λ m. composite_fields fs (assign k m target)
