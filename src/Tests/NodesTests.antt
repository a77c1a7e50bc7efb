-- ===== src/Tests/NodesTests.antt =====
-- Nodes at concrete inputs. Keys 0 to 2 are the directives, other keys and scalars are any numbers.
use buildstream.Common.{ℕ, ◌≡◌, refl, none, some, ok, Ensures}
use buildstream.Nodes.{
  scalar, sequence, mapping, Items, no_items, item, Fields, no_fields, field, get, Directives,
  compose_scalar, compose_sequence, compose_directives, is_composite_dict, read_directives,
  write_directives, compose_on_list, compose_on_composite_dict, compose_on, composite_fields,
}
use buildstream.Nodes.Layering.{compose_on_list-compose_on_composite_dict}
use buildstream.Nodes.Composing.{Holds, composite_fields-Holds}

abbrev one : ℕ → Items
one n = item (scalar n) no_items

abbrev upper : Directives
upper = record { clobber = none; prefix = some (one 11); suffix = some (one 12) }

abbrev lower : Directives
lower = record { clobber = some (one 13); prefix = none; suffix = some (one 14) }

compose_on_list-compose_on_composite_dict_example :
    compose_on_list (compose_on_composite_dict upper lower) (one 15)
    ≡ compose_on_list upper (compose_on_list lower (one 15))
compose_on_list-compose_on_composite_dict_example =
    compose_on_list-compose_on_composite_dict upper lower (one 15)

-- A list that is extended, a scalar that is replaced.
abbrev element_fields : Fields
element_fields =
    field 5 (mapping (field 1 (sequence (one 11)) no_fields)) (field 6 (scalar 12) no_fields)

abbrev defaults : Fields
defaults = field 5 (sequence (one 13)) (field 6 (scalar 14) (field 7 (scalar 15) no_fields))

defaults-composed :
    composite_fields element_fields defaults
    ≡ ok (
        field 5
          (sequence (item (scalar 11) (one 13)))
          (field 6 (scalar 12) (field 7 (scalar 15) no_fields)))
unfolding composite_fields compose_on compose_scalar compose_sequence compose_directives
    is_composite_dict read_directives write_directives compose_on_list compose_on_composite_dict
defaults-composed = refl

composite_fields-Holds_example :
    Ensures
      (λ result. (key : ℕ) → Holds key (get key element_fields) (get key defaults) (get key result))
      (composite_fields element_fields defaults)
composite_fields-Holds_example = composite_fields-Holds element_fields defaults (refl, (refl, tt))
