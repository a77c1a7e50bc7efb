-- ===== src/Pipeline/Selection.antt =====
-- src/buildstream/_pipeline.py: `get_selection`, `except_elements` and the assertions on elements.
use buildstream.Common.{
  ℕ, zero, suc, Bool, true, false, not, ◌&&◌, ◌||◌, List, [], ◌∷◌, ◌++◌, if◌then◌else◌, contains,
  select, Option, none, some, Outcome, ok, raise, diverged, ◌>>=◌,
}
use buildstream.Pipeline.Planner.{plan}
use buildstream.Pipeline.Dependencies.{
  Scope, all_deps, build_deps, run_deps, dependencies, direct_dependencies, direct,
}
pub mod Traversing
pub mod Intersecting
pub mod Excepting
pub mod Asserting

-- _PipelineSelection
pub data PipelineSelection : Type 0 where
  only all build run redirect : PipelineSelection

-- redirect_and_log(), where `source_of` is `_get_source_element`: one of each
unfoldable pub redirect_each : (ℕ → ℕ) → List ℕ → List ℕ → List ℕ
redirect_each source_of elements [] = elements
redirect_each source_of elements (t ∷ ts) =
    redirect_each source_of
      (if contains elements (source_of t) then elements else elements ++ source_of t ∷ []) ts

module _ (build_of run_of : ℕ → List ℕ) (source_of : ℕ → ℕ) (fuel : ℕ) where
  -- A selection, and the depths that were set.
  abbrev Selected : Type 0
  Selected = Outcome (List ℕ × List (ℕ × ℕ))

  planned : List ℕ → Selected
  planned targets =
      plan (direct build_of run_of run_deps) (direct build_of run_of build_deps) fuel targets

  listed : Scope → List ℕ → Selected
  listed scope targets =
      dependencies build_of run_of scope fuel targets >>= λ (elements, _). ok (elements, [])

  unfoldable pub get_selection : PipelineSelection → Bool → List ℕ → Selected
  unfolding planned listed redirect_each
  get_selection redirect depth_sort targets = ok (redirect_each source_of [] targets, [])
  get_selection only true targets = planned targets
  get_selection all true targets = planned targets
  get_selection run true targets = planned targets
  get_selection build true targets =
      planned (direct_dependencies build_of run_of build_deps targets)
  get_selection only false targets = ok (targets, [])
  get_selection all false targets = listed all_deps targets
  get_selection run false targets = listed run_deps targets
  get_selection build false targets = listed build_deps targets

-- find_intersection, where `visited` is shared by all the calls
unfoldable pub find_each :
    (ℕ → List ℕ → Outcome (List ℕ × List ℕ)) → List ℕ → List ℕ → Outcome (List ℕ × List ℕ)
find_each find [] visited = ok ([], visited)
find_each find (d ∷ ds) visited =
    find d visited >>= λ (ys, v1). find_each find ds v1 >>= λ (zs, v2). ok (ys ++ zs, v2)

unfoldable pub find_intersection :
    (ℕ → List ℕ) → List ℕ → ℕ → ℕ → List ℕ → Outcome (List ℕ × List ℕ)
unfolding find_each
find_intersection deps targeted zero e visited = raise diverged
find_intersection deps targeted (suc fuel) e visited =
    let deeper = find_each (find_intersection deps targeted fuel) (deps e) (e ∷ visited) in
    if contains visited e
    then ok ([], visited)
    else if contains targeted e
    then ok (e ∷ [], e ∷ visited)
    else deeper

-- queue.extend(elements), with the end of the queue, which `pop` takes, at the head
abbrev pub extend : List ℕ → List ℕ → List ℕ
extend [] queue = queue
extend (d ∷ ds) queue = extend ds (d ∷ queue)

-- while queue: …
unfoldable pub traverse : (ℕ → List ℕ) → List ℕ → ℕ → List ℕ → List ℕ → Outcome (List ℕ)
traverse deps intersection zero queue visited = raise diverged
traverse deps intersection (suc fuel) [] visited = ok visited
traverse deps intersection (suc fuel) (e ∷ queue) visited =
    let passed = contains visited e || contains intersection e in
    traverse deps intersection fuel (if passed then queue else extend (deps e) queue)
      (if passed then visited else e ∷ visited)

-- `targeted` is list(dependencies(targets, ALL)).
unfoldable pub except_from : (ℕ → List ℕ) → ℕ → List ℕ → List ℕ → List ℕ → List ℕ → Outcome (List ℕ)
unfolding find_each
except_from deps fuel targeted targets elements except_targets = do
  (intersection, _) ← find_each (find_intersection deps targeted fuel) except_targets []
  visited ← traverse deps intersection fuel (extend targets []) []
  ok (select (contains visited) elements)

unfoldable pub except_elements :
    (ℕ → List ℕ) → (ℕ → List ℕ) → ℕ → List ℕ → List ℕ → List ℕ → Outcome (List ℕ)
unfolding except_from
except_elements build_of run_of fuel targets elements [] = ok elements
except_elements build_of run_of fuel targets elements (x ∷ xs) =
    dependencies build_of run_of all_deps fuel targets >>= λ (targeted, _).
    except_from (direct build_of run_of all_deps) fuel targeted targets elements (x ∷ xs)

-- An element, as the assertions see it.
pub record Checked : Type 0 where
  pub id : ℕ
  pub has_all_sources_resolved : Bool
  pub has_workspace : Bool
  pub fetch_needed : Bool

-- The reasons of the `PipelineError`s that are raised, with the elements that their details name.
pub data Complaint : Type 0 where
  inconsistent_pipeline inconsistent_workspaced uncached_sources : List Checked → Complaint

abbrev pub is_inconsistent : Checked → Bool
is_inconsistent e = not e.has_all_sources_resolved && not e.has_workspace

abbrev pub is_workspaced : Checked → Bool
is_workspaced e = not e.has_all_sources_resolved && e.has_workspace

-- An error if the list has something to complain of, and what follows otherwise.
unfoldable pub complain :
    (List Checked → Complaint) → List Checked → Option Complaint → Option Complaint
complain reason [] rest = rest
complain reason (e ∷ es) rest = some (reason (e ∷ es))

unfoldable pub assert_consistent : List Checked → Option Complaint
unfolding complain
assert_consistent elements =
    complain inconsistent_pipeline (select is_inconsistent elements)
      (complain inconsistent_workspaced (select is_workspaced elements) none)

unfoldable pub assert_sources_cached : List Checked → Option Complaint
unfolding complain
assert_sources_cached elements =
    complain uncached_sources (select (λ e. e.fetch_needed) elements) none
