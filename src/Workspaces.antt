-- ===== src/Workspaces.antt =====
-- src/buildstream/_workspaces.py: the table of workspaces and its file. The file is the dictionary
-- that is dumped to it and loaded from it. A path or a key that is None is none.
use buildstream.Common.{
  ℕ, Bool, true, false, not, ◌&&◌, ◌||◌, List, [], ◌∷◌, all, leb, ltb, if◌then◌else◌, Option, none,
  some, Outcome, ok, raise, load_error, type_error, assertion, key_error, ◌>>=◌, ◌>>◌, assert,
}
use buildstream.Options.Texts.{Text, codes, same_text}
use buildstream.Options.Pool.{find, put}
pub mod Files

pub record Workspace : Type 0 where
  pub path : Option Text
  pub last_build : Option Text

abbrev pub Workspaces : Type 0
Workspaces = List (Text × Workspace)

abbrev pub Dictionary : Type 0
Dictionary = List (Text × Option Text)

abbrev pub path_key : Text
path_key = codes "path"

abbrev pub last_build_key : Text
last_build_key = codes "last_build"

abbrev pub to_dict : Workspace → Dictionary
to_dict w =
    (path_key, w.path)
    ∷ elim w.last_build [ none ↦ [] | some key ↦ (last_build_key, some key) ∷ [] ]

-- The value under a key, or the default None.
abbrev pub or_none : Option (Option Text) → Option Text
or_none none = none
or_none (some value) = value

abbrev pub is_keyword : Text × Option Text → Bool
is_keyword (key, value) = same_text key path_key || same_text key last_build_key

-- The dictionary as keyword arguments of Workspace.
unfoldable pub from_dict : Dictionary → Outcome Workspace
from_dict d =
    if all is_keyword d
    then ok
        (record { path = or_none (find path_key d); last_build = or_none (find last_build_key d) })
    else raise type_error

abbrev pub same_value : Option Text → Option Text → Bool
same_value none none = true
same_value none (some b) = false
same_value (some a) none = false
same_value (some a) (some b) = same_text a b

-- Equality of what to_dict returns: both have the path, and the last build where there is one.
abbrev pub differs : Workspace → Workspace → Bool
differs w v = not (same_value w.path v.path && same_value w.last_build v.last_build)

abbrev pub get_workspace : Text → Workspaces → Option Workspace
get_workspace name table = find name table

unfoldable pub update_workspace : Text → Dictionary → Workspaces → Outcome (Bool × Workspaces)
unfolding from_dict
update_workspace name d table = elim (find name table) [
  | none ↦ raise assertion
  | some old ↦ from_dict d >>= λ new.
      ok (if differs old new then (true, put name new table) else (false, table))
]

pub data FormatVersion : Type 0 where
  missing : FormatVersion
  version : ℕ → FormatVersion
  not_integer : FormatVersion

pub record Config : Type 0 where
  pub format_version : FormatVersion
  pub workspaces : Option (List (Text × Dictionary))

abbrev pub max_format_version : ℕ
max_format_version = 4

abbrev pub dicts_of : Workspaces → List (Text × Dictionary)
dicts_of [] = []
dicts_of ((name, w) ∷ table) = (name, to_dict w) ∷ dicts_of table

-- What save_config dumps.
abbrev pub config_of : Workspaces → Config
config_of table = record {
  format_version = version max_format_version;
  workspaces = some (dicts_of table);
}

-- node.get_str("path")
abbrev pub required : Option (Option Text) → Outcome (Option Text)
required none = raise load_error
required (some value) = ok value

unfoldable pub load_workspace : Dictionary → Outcome Workspace
unfolding from_dict
load_workspace node = do
  path ← required (find path_key node)
  from_dict ((path_key, path) ∷ (last_build_key, or_none (find last_build_key node)) ∷ [])

unfoldable pub load_workspaces : List (Text × Dictionary) → Outcome Workspaces
unfolding load_workspace
load_workspaces [] = ok []
load_workspaces ((name, node) ∷ nodes) = do
  w ← load_workspace node
  table ← load_workspaces nodes
  ok ((name, w) ∷ table)

abbrev pub version_of : FormatVersion → Outcome ℕ
version_of missing = ok 0
version_of (version n) = ok n
version_of not_integer = raise load_error

abbrev pub or_empty_mapping : Option (List (Text × Dictionary)) → List (Text × Dictionary)
or_empty_mapping none = []
or_empty_mapping (some nodes) = nodes

unfoldable pub parse_workspace_config : Config → Outcome Workspaces
unfolding load_workspaces
parse_workspace_config config = do
  n ← version_of config.format_version
  let parsed = load_workspaces (or_empty_mapping config.workspaces)
  if ltb n 4
      then raise load_error
      else if leb n max_format_version
      then parsed
      else raise load_error
