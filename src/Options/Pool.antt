-- ===== src/Options/Pool.antt =====
-- src/buildstream/_options/optionpool.py: the options of a project. `_options` is an association
-- list in the order of the definitions. Conditionals in nodes, which need jinja2, are left out.
use buildstream.Common.{
  Bool, false, List, [], ◌∷◌, map, if◌then◌else◌, Option, none, some, Outcome, ok, raise,
  load_error, ◌>>=◌, ◌>>◌,
}
use buildstream.Options.Texts.{Text, codes, same_text, sorted, is_symbol}
use buildstream.Options.Nodes.{Mapping, get_str}
use buildstream.Options.Kinds.{
  OptionType, option_bool, option_enum, option_flags, option_element_mask, option_arch, option_os,
  OptionValue, ProjectOption, HostFacts, require, load_option, load_value, set_value, value_text,
  check_host_value,
}

abbrev pub Options : Type 0
Options = List (Text × ProjectOption)

-- Dictionaries whose keys are texts.
module _ {ℓ} {V : Type ℓ} where
  abbrev pub find : Text → List (Text × V) → Option V
  find key [] = none
  find key ((k, v) ∷ m) = if same_text k key then some v else find key m

  abbrev pub put : Text → V → List (Text × V) → List (Text × V)
  put key v [] = (key, v) ∷ []
  put key v ((k, w) ∷ m) = if same_text k key then (k, v) ∷ m else (k, w) ∷ put key v m

abbrev pub type_names : List (Text × OptionType)
type_names =
    (codes "bool", option_bool)
    ∷ (codes "enum", option_enum)
    ∷ (codes "flags", option_flags)
    ∷ (codes "element-mask", option_element_mask)
    ∷ (codes "arch", option_arch)
    ∷ (codes "os", option_os)
    ∷ []

abbrev pub known_type : Option OptionType → Outcome OptionType
known_type none = raise load_error
known_type (some t) = ok t

unfoldable pub load_one : HostFacts → Text → Mapping → Outcome ProjectOption
load_one facts name definition = do
  require (is_symbol false name)
  type_name ← get_str (codes "type") definition
  type ← known_type (find type_name type_names)
  load_option facts type name definition

unfoldable pub load : HostFacts → List (Text × Mapping) → Options → Outcome Options
unfolding load_one
load facts [] options = ok options
load facts ((name, definition) ∷ ds) options = do
  option ← load_one facts name definition
  load facts ds (put name option options)

-- The loop of load_yaml_values over the keys of `node`, and over the whole of it.
unfoldable pub load_each : Mapping → Mapping → Options → Outcome Options
load_each node [] options = ok options
load_each node ((name, _) ∷ rest) options = elim (find name options) [
  | none ↦ raise load_error
  | some option ↦ load_value option node >>= λ o. load_each node rest (put name o options)
]

unfoldable pub load_yaml_values : Mapping → Options → Outcome Options
unfolding load_each
load_yaml_values node options = load_each node node options

unfoldable pub load_cli_values : Bool → List (Text × Text) → Options → Outcome Options
load_cli_values ignore_unknown [] options = ok options
load_cli_values ignore_unknown ((name, value) ∷ rest) options =
    let skipped = load_cli_values ignore_unknown rest options in
    elim (find name options) [
      | none ↦ if ignore_unknown then skipped else raise load_error
      | some option ↦
          set_value option value >>= λ o. load_cli_values ignore_unknown rest (put name o options)
    ]

-- `_variables`, once every option has resolved.
unfoldable pub resolve : Options → Outcome (List (Text × OptionValue))
resolve [] = ok []
resolve ((name, o) ∷ rest) = do
  check_host_value o.type o.values o.value
  variables ← resolve rest
  ok ((name, o.value) ∷ variables)

abbrev export_one : Option Text → Text → List (Text × Text) → List (Text × Text)
export_one none value variables = variables
export_one (some []) value variables = variables
export_one (some (c ∷ cs)) value variables = put (c ∷ cs) value variables

unfoldable pub export_variables : Options → List (Text × Text) → List (Text × Text)
export_variables [] variables = variables
export_variables ((_, o) ∷ rest) variables =
    export_variables rest (export_one o.variable (value_text o.value) variables)

abbrev print_one : Option ProjectOption → Text → List (Text × Text) → List (Text × Text)
print_one none key variables = variables
print_one (some o) key variables = put key (value_text o.value) variables

unfoldable pub print_each : List Text → Options → List (Text × Text) → List (Text × Text)
print_each [] options variables = variables
print_each (key ∷ keys) options variables =
    print_each keys options (print_one (find key options) key variables)

unfoldable pub printable_variables : Options → List (Text × Text) → List (Text × Text)
unfolding print_each
printable_variables options variables =
    print_each (sorted (map (λ o. o.0) options)) options variables

-- The pool of a project that is configured: by its definitions, by configuration, by command line.
unfoldable pub configure :
    HostFacts
    → List (Text × Mapping)
    → Mapping
    → Bool
    → List (Text × Text)
    → Outcome (Options × List (Text × OptionValue))
configure facts definitions node ignore_unknown cli = do
  loaded ← load facts definitions []
  configured ← load_yaml_values node loaded
  overridden ← load_cli_values ignore_unknown cli configured
  variables ← resolve overridden
  ok (overridden, variables)
