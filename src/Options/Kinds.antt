-- ===== src/Options/Kinds.antt =====
-- src/buildstream/_options/option*.py: the classes of options. A subclass of `Option` is its
-- `OptionType`; what it reads of the host is `HostFacts`.
use buildstream.Common.{
  Bool, true, false, List, [], ◌∷◌, ◌++◌, if◌then◌else◌, Option, none, some, all, select, Outcome,
  ok, raise, load_error, ◌>>=◌, ◌>>◌,
}
use buildstream.Options.Texts.{
  Text, codes, same_text, text_in, sorted, without_space, split_commas, join_commas, is_symbol,
}
use buildstream.Options.Nodes.{
  Mapping, find_node, as_str_list, as_bool, get_str, optional_str, has_only,
}
use buildstream.Options.Arch.{Uname, canonicalize_arch, get_host_arch}

pub data OptionType : Type 0 where
  option_bool option_enum option_flags option_element_mask option_arch option_os : OptionType

pub data OptionValue : Type 0 where
  bool_value : Bool → OptionValue
  str_value : Text → OptionValue
  list_value : List Text → OptionValue

pub record ProjectOption : Type 0 where
  pub name : Text
  pub type : OptionType
  pub variable : Option Text
  pub values : List Text
  pub value : OptionValue

-- The names of the host, and the files under the element path.
pub record HostFacts : Type 0 where
  pub uname : Uname
  pub element_files : List Text
  pub is_bst_file : Text → Bool

-- if not condition: raise LoadError
abbrev pub require : Bool → Outcome (Unit {0})
require true = ok tt
require false = raise load_error

-- Option.load(): the description has to be there, and the variable is its result.
unfoldable pub load_common : Mapping → Outcome (Option Text)
load_common node = do
  description ← get_str (codes "description") node
  variable ← optional_str (find_node (codes "variable") node)
  require (all (is_symbol true) (elim variable [ none ↦ [] | some v ↦ v ∷ [] ]))
  ok variable

abbrev pub option_symbols : List Text
option_symbols = codes "type" ∷ codes "description" ∷ codes "variable" ∷ []

abbrev pub is_nonempty_list : List Text → Bool
is_nonempty_list [] = false
is_nonempty_list (_ ∷ _) = true

-- OptionEnum.validate and OptionFlags.validate
abbrev pub validate_enum : List Text → Text → Outcome (Unit {0})
validate_enum values value = require (text_in values value)

abbrev pub validate_flags : List Text → List Text → Outcome (Unit {0})
validate_flags values value = require (all (text_in values) value)

-- OptionArch.load_default_value: every value is made canonical, and the first of the host is taken.
unfoldable pub default_arch : Text → List Text → Outcome (Option Text)
default_arch arch [] = ok none
default_arch arch (v ∷ vs) = do
  c ← canonicalize_arch v
  rest ← default_arch arch vs
  ok (if same_text c arch then some v else rest)

abbrev or_host : Text → Option Text → Text
or_host arch none = arch
or_host arch (some v) = v

unfoldable pub load_default : HostFacts → OptionType → List Text → Mapping → Outcome Text
unfolding default_arch
load_default facts option_arch values node = do
  arch ← get_host_arch facts.uname
  found ← default_arch arch values
  ok (or_host arch found)
load_default facts option_os values node = ok facts.uname.system
load_default facts _ values node = do
  value ← get_str (codes "default") node
  validate_enum values value
  ok value

-- OptionEnum.load_special
unfoldable pub load_enum :
    HostFacts → OptionType → List Text → Text → Mapping → Outcome ProjectOption
unfolding load_common load_default
load_enum facts type extra name node = do
  variable ← load_common node
  require (has_only (option_symbols ++ codes "values" ∷ extra) node)
  values ← as_str_list (ok []) (find_node (codes "values") node)
  require (is_nonempty_list values)
  value ← load_default facts type values node
  ok (record {
    name = name;
    type = type;
    variable = variable;
    values = values;
    value = str_value value;
  })

unfoldable pub load_valid_values : HostFacts → OptionType → Mapping → Outcome (List Text)
load_valid_values facts option_element_mask node = ok (select facts.is_bst_file facts.element_files)
load_valid_values facts _ node = as_str_list (ok []) (find_node (codes "values") node)

-- OptionFlags.load_special
unfoldable pub load_flags :
    HostFacts → OptionType → List Text → Text → Mapping → Outcome ProjectOption
unfolding load_common load_valid_values
load_flags facts type extra name node = do
  variable ← load_common node
  require (has_only (option_symbols ++ codes "default" ∷ extra) node)
  values ← load_valid_values facts type node
  require (is_nonempty_list values)
  value ← as_str_list (ok []) (find_node (codes "default") node)
  validate_flags values value
  ok (record {
    name = name;
    type = type;
    variable = variable;
    values = values;
    value = list_value value;
  })

-- OptionBool.load
unfoldable pub load_bool : Text → Mapping → Outcome ProjectOption
unfolding load_common
load_bool name node = do
  variable ← load_common node
  require (has_only (option_symbols ++ codes "default" ∷ []) node)
  default ← get_str (codes "default") node
  value ← as_bool default
  ok (record {
    name = name;
    type = option_bool;
    variable = variable;
    values = [];
    value = bool_value value;
  })

unfoldable pub load_option : HostFacts → OptionType → Text → Mapping → Outcome ProjectOption
unfolding load_enum load_flags load_bool
load_option facts option_bool name node = load_bool name node
load_option facts option_enum name node =
    load_enum facts option_enum (codes "default" ∷ []) name node
load_option facts option_arch name node = load_enum facts option_arch [] name node
load_option facts option_os name node = load_enum facts option_os [] name node
load_option facts option_flags name node =
    load_flags facts option_flags (codes "values" ∷ []) name node
load_option facts option_element_mask name node = load_flags facts option_element_mask [] name node

-- How a subclass reads, checks and orders its values.
pub data Family : Type 0 where
  one_bool one_text many_texts : Family

abbrev pub family : OptionType → Family
family option_bool = one_bool
family option_enum = one_text
family option_arch = one_text
family option_os = one_text
family option_flags = many_texts
family option_element_mask = many_texts

abbrev with_value : ProjectOption → OptionValue → ProjectOption
with_value o v = record o { value = v }

unfoldable pub load_value_as : Family → ProjectOption → Mapping → Outcome ProjectOption
load_value_as one_bool o node = do
  t ← get_str o.name node
  b ← as_bool t
  ok (with_value o (bool_value b))
load_value_as one_text o node = do
  t ← get_str o.name node
  validate_enum o.values t
  ok (with_value o (str_value t))
load_value_as many_texts o node = do
  ts ← as_str_list (raise load_error) (find_node o.name node)
  validate_flags o.values (sorted ts)
  ok (with_value o (list_value (sorted ts)))

-- load_value(node)
unfoldable pub load_value : ProjectOption → Mapping → Outcome ProjectOption
unfolding load_value_as
load_value o node = load_value_as (family o.type) o node

unfoldable pub set_value_as : Family → ProjectOption → Text → Outcome ProjectOption
set_value_as one_bool o t =
    if text_in (codes "True" ∷ codes "true" ∷ []) t
    then ok (with_value o (bool_value true))
    else if text_in (codes "False" ∷ codes "false" ∷ []) t
    then ok (with_value o (bool_value false))
    else raise load_error
set_value_as one_text o t = do validate_enum o.values t; ok (with_value o (str_value t))
set_value_as many_texts o t = do
  validate_flags o.values (split_commas (without_space t))
  ok (with_value o (list_value (sorted (split_commas (without_space t)))))

-- set_value(value), from the command line
unfoldable pub set_value : ProjectOption → Text → Outcome ProjectOption
unfolding set_value_as
set_value o t = set_value_as (family o.type) o t

abbrev pub value_text : OptionValue → Text
value_text (bool_value true) = codes "1"
value_text (bool_value false) = codes "0"
value_text (str_value t) = t
value_text (list_value ts) = join_commas ts

-- resolve(), which only the options of the host's names override
unfoldable pub check_host_value : OptionType → List Text → OptionValue → Outcome (Unit {0})
check_host_value option_arch values (str_value t) = validate_enum values t
check_host_value option_os values (str_value t) = validate_enum values t
check_host_value _ values _ = ok tt
