-- ===== src/Pipeline/Planner.antt =====
-- src/buildstream/_pipeline.py, class _Planner. `run_deps` and `build_deps` are what an element's
-- `_dependencies` yields for the scopes RUN and BUILD with `recurse=False`.
use buildstream.Common.{
  ℕ, zero, suc, ◌+◌, Bool, true, false, Option, none, some, List, [], ◌∷◌, ◌++◌, map, leb, ltb,
  ◌==◌, if◌then◌else◌, contains, lookup, insert, Outcome, ok, raise, diverged, ◌>>=◌,
}
pub mod Depths
pub mod Order

-- depth_map, an OrderedDict
abbrev pub DepthMap : Type 0
DepthMap = List (ℕ × ℕ)

-- prev_depth is not None and prev_depth >= depth
abbrev pub is_planned : Option ℕ → ℕ → Bool
is_planned none depth = false
is_planned (some prev_depth) depth = leb depth prev_depth

module _ (run_deps build_deps : ℕ → List ℕ) where
  -- `for dep in …: self.plan_element(dep, depth)`, given that call
  unfoldable pub plan_each :
      (ℕ → DepthMap → Outcome DepthMap) → List ℕ → DepthMap → Outcome DepthMap
  plan_each plan_dep [] m = ok m
  plan_each plan_dep (d ∷ ds) m = plan_dep d m >>= plan_each plan_dep ds

  -- Each call adds its element to `visiting_elements` for the calls that it makes.
  unfoldable pub plan_element : ℕ → List ℕ → ℕ → ℕ → DepthMap → Outcome DepthMap
  plan_element zero visiting depth e m = raise diverged
  plan_element (suc fuel) visiting depth e m =
      let planned = plan_each (plan_element fuel (e ∷ visiting) depth) (run_deps e) m >>= λ m1.
      plan_each (plan_element fuel (e ∷ visiting) (depth + 1)) (build_deps e) m1 >>= λ m2.
      ok (insert e depth m2) in
      if contains visiting e then ok m else if is_planned (lookup e m) depth then ok m else planned

  unfoldable pub plan_roots : ℕ → List ℕ → DepthMap → Outcome DepthMap
  unfolding plan_each
  plan_roots fuel roots m = plan_each (plan_element fuel [] 0) roots m

-- sorted(items, key=itemgetter(1), reverse=True): stable, the greatest depth first
unfoldable pub insert_sorted : ℕ × ℕ → List (ℕ × ℕ) → List (ℕ × ℕ)
insert_sorted x [] = x ∷ []
insert_sorted (e, d) ((f, c) ∷ xs) =
    if leb c d then (e, d) ∷ (f, c) ∷ xs else (f, c) ∷ insert_sorted (e, d) xs

unfoldable pub depth_sorted : List (ℕ × ℕ) → List (ℕ × ℕ)
unfolding insert_sorted
depth_sorted [] = []
depth_sorted (x ∷ xs) = insert_sorted x (depth_sorted xs)

-- element._set_depth(index), for each in the order of the plan
unfoldable pub set_depths : ℕ → List (ℕ × ℕ) → List (ℕ × ℕ)
set_depths index [] = []
set_depths index ((e, _) ∷ xs) = (e, index) ∷ set_depths (index + 1) xs

-- The plan, and the depths that its elements are given.
unfoldable pub plan : (ℕ → List ℕ) → (ℕ → List ℕ) → ℕ → List ℕ → Outcome (List ℕ × List (ℕ × ℕ))
unfolding depth_sorted set_depths
plan run_deps build_deps fuel roots = do
  m ← plan_roots run_deps build_deps fuel roots []
  let items = depth_sorted m
  ok (map (λ x. x.0) items, set_depths 0 items)
