-- ===== src/Workspaces/Files.antt =====
-- src/buildstream/_workspaces.py: what is saved is loaded again, what is updated is found.
use buildstream.Common.{
  ◌↔◌, subst, ◌≡◌, refl, ap, ◌∙◌, Bool, true, false, [], ◌∷◌, if◌then◌else◌, either, Option, none,
  some, Outcome, ok, raise, assertion, ◌>>=◌, arith,
}
use buildstream.Options.Texts.{Text}
use buildstream.Options.Pool.{put}
use buildstream.Options.Tables.{same_text-eq, same_text_refl, find-put_same}
use buildstream.Workspaces.{
  Workspace, Workspaces, to_dict, from_dict, same_value, differs, get_workspace, update_workspace,
  dicts_of, config_of, load_workspace, load_workspaces, parse_workspace_config,
}

from_dict-fields :
    (path last_build : Option Text)
    → let w : Workspace = record { path = path; last_build = last_build } in
      from_dict (to_dict w) ≡ ok w
unfolding from_dict
from_dict-fields path none = refl
from_dict-fields path (some key) = refl

from_dict-to_dict : (w : Workspace) → from_dict (to_dict w) ≡ ok w
from_dict-to_dict w = from_dict-fields w.path w.last_build

load_workspace-fields :
    (path last_build : Option Text)
    → let w : Workspace = record { path = path; last_build = last_build } in
      load_workspace (to_dict w) ≡ ok w
unfolding load_workspace from_dict
load_workspace-fields path none = refl
load_workspace-fields path (some key) = refl

load_workspace-to_dict : (w : Workspace) → load_workspace (to_dict w) ≡ ok w
load_workspace-to_dict w = load_workspace-fields w.path w.last_build

load_workspaces-dicts_of : (table : Workspaces) → load_workspaces (dicts_of table) ≡ ok table
unfolding load_workspaces
load_workspaces-dicts_of [] = refl
load_workspaces-dicts_of ((name, w) ∷ table) =
    ap (λ m. m >>= λ v. load_workspaces (dicts_of table) >>= λ t. ok ((name, v) ∷ t))
      (load_workspace-to_dict w)
    ∙ ap (λ m. m >>= λ t. ok ((name, w) ∷ t)) (load_workspaces-dicts_of table)

-- A saved table is loaded as it was.
pub parse_workspace_config-config_of :
    (table : Workspaces) → parse_workspace_config (config_of table) ≡ ok table
unfolding parse_workspace_config
parse_workspace_config-config_of table = load_workspaces-dicts_of table

same_value-eq : (a b : Option Text) → same_value a b ≡ true → a ≡ b
same_value-eq none none h = refl
same_value-eq none (some b) h = absurd (ground (arith, h))
same_value-eq (some a) none h = absurd (ground (arith, h))
same_value-eq (some a) (some b) h = ap some (same_text-eq a b h)

same_value_refl : (a : Option Text) → same_value a a ≡ true
same_value_refl none = refl
same_value_refl (some a) = same_text_refl a

differs-eq :
    (p l q k : Option Text)
    → let v : Workspace = record { path = p; last_build = l } in
      let w : Workspace = record { path = q; last_build = k } in differs v w ≡ false → v ≡ w
differs-eq p l q k h = ground (arith, h, same_value-eq p q, same_value-eq l k)

pair-if :
    {A : Type 0} (b : Bool) (x y : A)
    → ◌≡◌ {A = Bool × A} (if b then (true, x) else (false, y)) (b, if b then x else y)
pair-if true x y = refl
pair-if false x y = refl

differs_self : (w : Workspace) → differs w w ≡ false
differs_self w = ground (arith, same_value_refl w.path, same_value_refl w.last_build)

-- An update of a workspace that exists reports no change exactly when the workspace was the one that
-- is given already, and afterwards it is the one that was given.
pub update_workspace-get_workspace :
    (name : Text) (old w : Workspace) (table : Workspaces)
    → get_workspace name table ≡ some old
    → (changed : Bool) × (later : Workspaces) × (update_workspace name (to_dict w) table
        ≡ ok (changed, later))
      × (changed ≡ false ↔ old ≡ w)
      × (get_workspace name later ≡ some w)
unfolding update_workspace
update_workspace-get_workspace name old w table h =
    let next : Option Workspace → Outcome (Bool × Workspaces) = λ o. elim o [
      | none ↦ raise assertion
      | some v ↦ from_dict (to_dict w) >>= λ new.
          ok (if differs v new then (true, put name new table) else (false, table))
    ] in
    let with_new : Outcome Workspace → Outcome (Bool × Workspaces) = λ m.
      m >>= λ new. ok (if differs old new then (true, put name new table) else (false, table)) in
    (
      differs old w,
      if differs old w then put name w table else table,
      ap next h
          ∙ ap with_new (from_dict-to_dict w)
          ∙ ap ok (pair-if (differs old w) (put name w table) table),
      (
        differs-eq old.path old.last_build w.path w.last_build,
        λ same. subst (λ v. differs old v ≡ false) same (differs_self old),
      ),
      either (λ t. get_workspace name t ≡ some w) (differs old w) _ _
          (λ changed. find-put_same name w table)
          (λ same. h ∙ ap some (differs-eq old.path old.last_build w.path w.last_build same)),
    )
