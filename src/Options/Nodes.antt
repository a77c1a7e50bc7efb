-- ===== src/Options/Nodes.antt =====
-- The YAML nodes that src/buildstream/_options reads, with what its getters return.
use buildstream.Common.{
  Bool, true, false, List, [], ◌∷◌, if◌then◌else◌, Option, none, some, all, Outcome, ok, raise,
  load_error, ◌>>=◌,
}
use buildstream.Options.Texts.{Text, codes, same_text, text_in}

-- MappingNode is its fields in order; a sequence is of scalars, or it is `mixed`.
pub data Node : Type 0 where
  scalar : Text → Node
  sequence : List Text → Node
  mixed : Node

abbrev pub Mapping : Type 0
Mapping = List (Text × Node)

unfoldable pub find_node : Text → Mapping → Option Node
find_node key [] = none
find_node key ((k, n) ∷ m) = if same_text k key then some n else find_node key m

abbrev pub as_str : Option Node → Outcome Text
as_str (some (scalar t)) = ok t
as_str _ = raise load_error

-- as_str_list(), with the default for a key that is not there
abbrev pub as_str_list : Outcome (List Text) → Option Node → Outcome (List Text)
as_str_list default none = default
as_str_list default (some (sequence ts)) = ok ts
as_str_list default _ = raise load_error

abbrev pub as_bool : Text → Outcome Bool
as_bool t =
    if text_in (codes "True" ∷ codes "true" ∷ codes "1" ∷ []) t
    then ok true
    else if text_in (codes "False" ∷ codes "false" ∷ codes "0" ∷ []) t
    then ok false
    else raise load_error

unfoldable pub get_str : Text → Mapping → Outcome Text
unfolding find_node
get_str key m = as_str (find_node key m)

-- get_str(key, default=None)
abbrev pub optional_str : Option Node → Outcome (Option Text)
optional_str none = ok none
optional_str (some n) = as_str (some n) >>= λ t. ok (some t)

-- validate_keys
abbrev pub has_only : List Text → Mapping → Bool
has_only keys m = all (λ f. text_in keys f.0) m
