-- ===== src/Tests/WorkspacesTests.antt =====
-- Workspaces at concrete inputs.
use buildstream.Common.{
  Bool, false, ◌↔◌, ◌↔◌, false, ◌≡◌, refl, [], ◌∷◌, none, some, ok, raise, load_error,
}
use buildstream.Options.Texts.{codes}
use buildstream.Workspaces.{
  Workspace, Workspaces, version, to_dict, from_dict, get_workspace, update_workspace, config_of,
  load_workspace, load_workspaces, parse_workspace_config,
}
use buildstream.Workspaces.Files.{parse_workspace_config-config_of, update_workspace-get_workspace}

abbrev opened : Workspace
opened = record { path = some (codes "work/hello"); last_build = none }

abbrev built : Workspace
built = record { path = some (codes "work/hello"); last_build = some (codes "key") }

abbrev table : Workspaces
table = (codes "base.bst", built) ∷ (codes "hello.bst", opened) ∷ []

old-refused :
    parse_workspace_config (record { format_version = version 3; workspaces = none })
    ≡ raise load_error
unfolding parse_workspace_config load_workspaces load_workspace from_dict
old-refused = refl

parse_workspace_config-config_of_example : parse_workspace_config (config_of table) ≡ ok table
parse_workspace_config-config_of_example = parse_workspace_config-config_of table

update_workspace-get_workspace_example :
    (changed : Bool) × (later : Workspaces) × (update_workspace
        (codes "hello.bst")
        (to_dict built)
        table
      ≡ ok (changed, later))
    × (changed ≡ false ↔ opened ≡ built)
    × (get_workspace (codes "hello.bst") later ≡ some built)
update_workspace-get_workspace_example =
    update_workspace-get_workspace (codes "hello.bst") opened built table refl
