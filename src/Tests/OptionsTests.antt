-- ===== src/Tests/OptionsTests.antt =====
-- Options at concrete inputs: a flag option and an architecture.
use buildstream.Common.{
  ◌≡◌, refl, true, false, List, [], ◌∷◌, none, ok, raise, load_error, Ensures, Returns,
}
use buildstream.Options.Texts.{Text, codes}
use buildstream.Options.Nodes.{Mapping, scalar, sequence, find_node, get_str}
use buildstream.Options.Arch.{
  normalise, canonicalize_arch, get_host_arch, canonicalize_arch-canonicalize_arch,
}
use buildstream.Options.Kinds.{
  HostFacts, option_arch, str_value, list_value, load_common, default_arch, load_default, load_enum,
  load_valid_values, load_flags, load_option, set_value_as, set_value, check_host_value,
}
use buildstream.Options.Pool.{
  Options, load_one, load, load_each, load_yaml_values, load_cli_values, resolve, configure,
}
use buildstream.Options.Validity.{is_valid}
use buildstream.Options.Configured.{Each, configure-valid}

abbrev facts : HostFacts
facts = record {
  uname = record { system = codes "Linux"; machine = codes "x86_64"; processor = codes "" };
  element_files = [];
  is_bst_file = λ t. true;
}

abbrev arch_definition : Mapping
arch_definition =
    (codes "type", scalar (codes "arch"))
    ∷ (codes "description", scalar (codes "The machine"))
    ∷ (codes "values", sequence (codes "aarch64" ∷ codes "amd64" ∷ []))
    ∷ []

abbrev flags_definition : Mapping
flags_definition =
    (codes "type", scalar (codes "flags"))
    ∷ (codes "description", scalar (codes "The features"))
    ∷ (codes "values", sequence (codes "x11" ∷ codes "audio" ∷ []))
    ∷ []

abbrev definitions : List (Text × Mapping)
definitions = (codes "machine", arch_definition) ∷ (codes "features", flags_definition) ∷ []

abbrev cli : List (Text × Text)
cli = (codes "features", codes "x11, audio") ∷ []

configure_runs :
    Returns
      (λ r.
        r.1
        ≡ (codes "machine", str_value (codes "amd64"))
          ∷ (codes "features", list_value (codes "audio" ∷ codes "x11" ∷ []))
          ∷ [])
      (configure facts definitions [] false cli)
unfolding configure load load_one load_option load_enum load_flags load_common load_default
    default_arch load_valid_values load_yaml_values load_each load_cli_values set_value set_value_as
    resolve check_host_value get_str find_node get_host_arch canonicalize_arch normalise
configure_runs = refl

configure_unknown :
    configure facts definitions [] false ((codes "colour", codes "red") ∷ []) ≡ raise load_error
unfolding configure load load_one load_option load_enum load_flags load_common load_default
    default_arch load_valid_values load_yaml_values load_each load_cli_values set_value set_value_as
    resolve check_host_value get_str find_node get_host_arch canonicalize_arch normalise
configure_unknown = refl

configure-valid_example :
    Ensures (λ r. Each (λ o. is_valid o ≡ true) r.0) (configure facts definitions [] false cli)
configure-valid_example = configure-valid facts definitions [] false cli

canonicalize_arch-canonicalize_arch_example :
    Ensures (λ c. canonicalize_arch c ≡ ok c) (canonicalize_arch (codes "ARMV8L"))
canonicalize_arch-canonicalize_arch_example = canonicalize_arch-canonicalize_arch (codes "ARMV8L")

abbrev pool : Options
pool =
    (
      codes "machine",
      record {
        name = codes "machine";
        type = option_arch;
        variable = none;
        values = codes "arm" ∷ [];
        value = str_value (codes "arm");
      },
    )
    ∷ []
