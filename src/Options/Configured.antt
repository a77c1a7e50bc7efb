-- ===== src/Options/Configured.antt =====
-- src/buildstream/_options: the options of a project that is configured are valid.
use buildstream.Common.{
  ◌≡◌, refl, arith, Returns, Bool, true, false, List, [], ◌∷◌, ◌++◌, if◌then◌else◌, Option, none,
  some, all, All, Outcome, ok, raise, load_error, ◌>>=◌, Ensures, Ensures-bind, Ensures-any,
  Ensures-if,
}
use buildstream.Options.Texts.{Text, codes, same_text, text_in, is_symbol}
use buildstream.Options.Nodes.{Mapping, find_node, as_str_list, as_bool, get_str, has_only}
use buildstream.Options.Arch.{get_host_arch}
use buildstream.Options.Kinds.{
  OptionType, option_bool, option_enum, option_flags, option_element_mask, option_arch, option_os,
  str_value, ProjectOption, HostFacts, require, load_common, default_arch, load_default, load_enum,
  load_valid_values, load_flags, load_bool, load_option, load_value, set_value, check_host_value,
  option_symbols, is_nonempty_list, family,
}
use buildstream.Options.Pool.{
  Options, find, put, load_one, load, load_each, load_yaml_values, load_cli_values, resolve,
  configure, known_type, type_names,
}
use buildstream.Options.Validity.{
  is_valid, is_loaded, IsLoaded, Ensures-require, valid-loaded, set_value-valid, load_value-valid,
  check_host_value-valid,
}

-- A call whose result is of no concern.
after :
    {A B : Type 0} (P : B → Type 0) (m : Outcome A) (f : A → Outcome B)
    → ((a : A) → Ensures P (f a))
    → Ensures P (m >>= f)
after P m f h = Ensures-bind (λ _. Unit {0}) P m f (Ensures-any _ m (λ _. tt)) (λ a _. h a)

module _ (facts : HostFacts) where
  load_enum-IsLoaded :
      (type : OptionType) (extra : List Text) (name : Text) (node : Mapping)
      → ((values : List Text)
          → Ensures
              (λ v. is_loaded type values (str_value v) ≡ true)
              (load_default facts type values node))
      → Ensures IsLoaded (load_enum facts type extra name node)
  unfolding load_enum
  load_enum-IsLoaded type extra name node h = after _ (load_common node) _ λ variable.
      Ensures-require _ (has_only (option_symbols ++ codes "values" ∷ extra) node) _ λ _.
        after _ (as_str_list (ok []) (find_node (codes "values") node)) _ λ values.
          Ensures-require _ (is_nonempty_list values) _ λ _.
            Ensures-bind (λ v. is_loaded type values (str_value v) ≡ true) _
              (load_default facts type values node) _ (h values) λ v l. l

  default_enum-loaded :
      (node : Mapping) (values : List Text)
      → Ensures
          (λ v. is_loaded option_enum values (str_value v) ≡ true)
          (load_default facts option_enum values node)
  unfolding load_default
  default_enum-loaded node values =
      after _ (get_str (codes "default") node) _
        λ v. Ensures-require _ (text_in values v) _ (λ h. h)

  load_flags-IsLoaded :
      (type : OptionType) (extra : List Text) (name : Text) (node : Mapping)
      → family type ≡ family option_flags
      → Ensures IsLoaded (load_flags facts type extra name node)
  unfolding load_flags
  load_flags-IsLoaded type extra name node f = after _ (load_common node) _ λ variable.
      Ensures-require _ (has_only (option_symbols ++ codes "default" ∷ extra) node) _ λ _.
        after _ (load_valid_values facts type node) _ λ values.
          Ensures-require _ (is_nonempty_list values) _ λ _.
            after _ (as_str_list (ok []) (find_node (codes "default") node)) _ λ value.
              Ensures-require _ (all (text_in values) value) _
                λ h. valid-loaded type values _ (rw (f, h))

  load_option-IsLoaded :
      (type : OptionType) (name : Text) (node : Mapping)
      → Ensures IsLoaded (load_option facts type name node)
  unfolding load_option load_bool load_default
  load_option-IsLoaded option_bool name node = after _ (load_common node) _ λ variable.
      Ensures-require _ (has_only (option_symbols ++ codes "default" ∷ []) node) _ λ _.
        after _ (get_str (codes "default") node) _
          λ default. after _ (as_bool default) _ λ value. refl
  load_option-IsLoaded option_enum name node =
      load_enum-IsLoaded option_enum (codes "default" ∷ []) name node (default_enum-loaded node)
  load_option-IsLoaded option_arch name node =
      load_enum-IsLoaded option_arch [] name node (λ values.
        after _ (get_host_arch facts.uname) _
          λ arch. after _ (default_arch arch values) _ λ found. refl)
  load_option-IsLoaded option_os name node =
      load_enum-IsLoaded option_os [] name node (λ values. refl)
  load_option-IsLoaded option_flags name node =
      load_flags-IsLoaded option_flags (codes "values" ∷ []) name node refl
  load_option-IsLoaded option_element_mask name node =
      load_flags-IsLoaded option_element_mask [] name node refl

  load_one-IsLoaded :
      (name : Text) (definition : Mapping) → Ensures IsLoaded (load_one facts name definition)
  unfolding load_one
  load_one-IsLoaded name definition = Ensures-require _ (is_symbol false name) _ λ _.
      after _ (get_str (codes "type") definition) _ λ type_name.
        after _ (known_type (find type_name type_names)) _
          λ type. load_option-IsLoaded type name definition

-- Every option of the pool.
abbrev pub Each : (ProjectOption → Type 0) → Options → Type 0
Each P options = All (λ x. P x.1) options

put-Each :
    (P : ProjectOption → Type 0) (name : Text) (o : ProjectOption) (options : Options)
    → P o
    → Each P options
    → Each P (put name o options)
put-Each P name o [] p h = (p, tt)
put-Each P name o ((k, w) ∷ m) p h = by_key (same_text k name) (put-Each P name o m p h.1)
  where
    by_key :
        (b : Bool)
        → Each P (put name o m)
        → Each P (if b then (k, o) ∷ m else (k, w) ∷ put name o m)
    by_key true later = (p, h.1)
    by_key false later = (h.0, later)

load-IsLoaded :
    (facts : HostFacts) (definitions : List (Text × Mapping)) (options : Options)
    → Each IsLoaded options
    → Ensures (Each IsLoaded) (load facts definitions options)
unfolding load
load-IsLoaded facts [] options h = h
load-IsLoaded facts ((name, definition) ∷ ds) options h =
    Ensures-bind IsLoaded _ (load_one facts name definition) _
      (load_one-IsLoaded facts name definition)
      (λ o l. load-IsLoaded facts ds (put name o options) (put-Each IsLoaded name o options l h))

is_valid-IsLoaded : (o : ProjectOption) → is_valid o ≡ true → IsLoaded o
is_valid-IsLoaded o h = valid-loaded o.type o.values o.value h

load_each-IsLoaded :
    (node rest : Mapping) (options : Options)
    → Each IsLoaded options
    → Ensures (Each IsLoaded) (load_each node rest options)
unfolding load_each
load_each-IsLoaded node [] options h = h
load_each-IsLoaded node ((name, x) ∷ rest) options h =
    by_option (find name options) (load_each-IsLoaded node rest)
  where
    by_option :
        (found : Option ProjectOption)
        → ((os : Options) → Each IsLoaded os → Ensures (Each IsLoaded) (load_each node rest os))
        → Ensures (Each IsLoaded) (elim found [
          | none ↦ raise load_error
          | some o ↦ load_value o node >>= λ o'. load_each node rest (put name o' options)
        ])
    by_option none later = tt
    by_option (some o) later =
        Ensures-bind (λ o'. is_valid o' ≡ true) _ (load_value o node) _ (load_value-valid o node)
          (λ o' v.
            later (put name o' options)
              (put-Each IsLoaded name o' options (is_valid-IsLoaded o' v) h))

load_cli_values-IsLoaded :
    (ignore_unknown : Bool) (cli : List (Text × Text)) (options : Options)
    → Each IsLoaded options
    → Ensures (Each IsLoaded) (load_cli_values ignore_unknown cli options)
unfolding load_cli_values
load_cli_values-IsLoaded ignore_unknown [] options h = h
load_cli_values-IsLoaded ignore_unknown ((name, value) ∷ rest) options h =
    by_option (find name options) (load_cli_values-IsLoaded ignore_unknown rest)
  where
    by_option :
        (found : Option ProjectOption)
        → ((os : Options)
            → Each IsLoaded os
            → Ensures (Each IsLoaded) (load_cli_values ignore_unknown rest os))
        → Ensures (Each IsLoaded) (elim found [
          | none ↦
              if ignore_unknown
              then load_cli_values ignore_unknown rest options
              else raise load_error
          | some o ↦
              set_value o value >>= λ o'. load_cli_values ignore_unknown rest (put name o' options)
        ])
    by_option none later =
        Ensures-if _ ignore_unknown (load_cli_values ignore_unknown rest options) (raise load_error)
          (later options h) tt
    by_option (some o) later =
        Ensures-bind (λ o'. is_valid o' ≡ true) _ (set_value o value) _ (set_value-valid o value)
          (λ o' v.
            later (put name o' options)
              (put-Each IsLoaded name o' options (is_valid-IsLoaded o' v) h))

resolve-valid :
    (options : Options)
    → Each IsLoaded options
    → Ensures (λ _. Each (λ o. is_valid o ≡ true) options) (resolve options)
unfolding resolve
resolve-valid [] h = tt
resolve-valid ((name, o) ∷ rest) h =
    Ensures-bind (λ _. is_valid o ≡ true) _ (check_host_value o.type o.values o.value) _
      (check_host_value-valid o.type o.values o.value h.0)
      (λ _ v.
        Ensures-bind (λ _. Each (λ o. is_valid o ≡ true) rest) _ (resolve rest) _
          (resolve-valid rest h.1) (λ _ vs. (v, vs)))

-- When the options of a project are configured without an error, by definitions, configuration
-- and command line, the value of every option is one that its definition allows.
pub configure-valid :
    (facts : HostFacts) (definitions : List (Text × Mapping)) (node : Mapping)
    (ignore_unknown : Bool) (cli : List (Text × Text))
    → Ensures
        (λ r. Each (λ o. is_valid o ≡ true) r.0)
        (configure facts definitions node ignore_unknown cli)
unfolding configure load_yaml_values
configure-valid facts definitions node ignore_unknown cli =
    Ensures-bind (Each IsLoaded) _ (load facts definitions []) _
      (load-IsLoaded facts definitions [] tt)
      λ loaded l.
        Ensures-bind (Each IsLoaded) _ (load_each node node loaded) _
          (load_each-IsLoaded node node loaded l)
          λ configured c.
            Ensures-bind (Each IsLoaded) _ (load_cli_values ignore_unknown cli configured) _
              (load_cli_values-IsLoaded ignore_unknown cli configured c)
              λ overridden v.
                Ensures-bind (λ _. Each (λ o. is_valid o ≡ true) overridden) _ (resolve overridden)
                  _ (resolve-valid overridden v) λ _ r. r

require-Returns : (b : Bool) → b ≡ true → Returns (λ _. Unit {0}) (require b)
require-Returns true h = tt
require-Returns false h = ground arith
