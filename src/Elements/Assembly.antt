-- ===== src/Elements/Assembly.antt =====
-- src/buildstream/element.py: what makes an element required, schedules its assembly and completes
-- it, and the keys that are calculated at first. `fuel` bounds each of the recursions.
use buildstream.Common.{
  ℕ, zero, suc, ◌+◌, Bool, true, false, not, ◌&&◌, ◌||◌, List, [], ◌∷◌, ◌++◌, map, if◌then◌else◌,
  contains, Option, none, some, Outcome, ok, raise, diverged, attribute_error, ◌>>=◌, ◌>>◌, assert,
}
use buildstream.Pipeline.Dependencies.{Scope, run_deps, build_deps, direct}
use buildstream.Elements.{
  Artifact, Sources, Element, Elements, Graph, Effect, workspace_saved, DependencyKey, named, keyed,
  put, has, cached_of, cached_success, after_cached_success, call_back, calculate_cache_key,
  update_cache_key_non_strict, update_ready_for_runtime_and_cached,
}
pub mod Scheduling
pub mod Closing
pub mod Requiring
pub mod Completing
pub mod Running
pub mod Specification
pub mod Keys

-- What stands before `_cached_success()` in `__should_schedule`.
abbrev pub may_schedule : Element → Bool
may_schedule x =
    not (x.assemble_scheduled || x.assemble_done || x.pull_pending) && x.required && has x.artifact

-- for dep in …: dep._set_required(), given that call
unfoldable pub require_each :
    (ℕ → Elements → Outcome Elements) → List ℕ → Elements → Outcome Elements
require_each set_required [] s = ok s
require_each set_required (d ∷ ds) s = set_required d s >>= require_each set_required ds

-- A callback is called once.
unfoldable pub call_required : ℕ → Elements → Elements
call_required e s =
    let x = s.state e in
    call_back x.required_callback e (put e (record x { required_callback = none }) s)

unfoldable pub call_can_query_cache : ℕ → Elements → Elements
call_can_query_cache e s =
    let x = s.state e in
    call_back x.can_query_cache_callback e (put e (record x { can_query_cache_callback = none }) s)

module _ (graph : Graph) (generate : ℕ → List DependencyKey → Option ℕ → ℕ) (fuel : ℕ) where
  abbrev direct_of : Scope → ℕ → List ℕ
  direct_of = direct graph.build_dependencies graph.runtime_dependencies

  unfoldable pub update_non_strict : ℕ → Elements → Outcome Elements
  update_non_strict =
      update_cache_key_non_strict graph generate
        (update_ready_for_runtime_and_cached graph generate fuel)

  -- __schedule_assembly_when_necessary(), given `_set_required`
  unfoldable pub schedule_assembly :
      (ℕ → Elements → Outcome Elements) → ℕ → Elements → Outcome Elements
  unfolding require_each update_non_strict
  schedule_assembly set_required e s =
      let x = s.state e in
      let scheduled =
        require_each set_required (direct_of build_deps e)
          (put e (record (after_cached_success x) { assemble_scheduled = true }) s)
        >>= update_non_strict e in
      if not (may_schedule x)
      then ok s
      else if cached_success x
      then ok (put e (after_cached_success x) s)
      else scheduled

  -- _set_required(scope), where `n` is left for the dependencies
  unfoldable pub set_required : ℕ → Scope → ℕ → Elements → Outcome Elements
  unfolding schedule_assembly call_required
  set_required zero scope e s = raise diverged
  set_required (suc n) scope e s =
      let requested =
        require_each (set_required n run_deps) (direct_of scope e)
          (put e (record (s.state e) { required = true }) s)
        >>= λ s1.
            schedule_assembly (set_required n run_deps) e s1 >>= λ s2. ok (call_required e s2) in
      if (s.state e).required then ok s else requested

  -- The end of `_assemble_done`: the last build of a workspace is its key.
  unfoldable pub save_workspace : ℕ → Elements → Elements
  save_workspace e s =
      let x = s.state e in
      if x.has_workspace && cached_of x.artifact
      then record s { effects = s.effects ++ workspace_saved e x.cache_key ∷ [] }
      else s

  -- `after` is the artifact after `set_cached()`, which makes it cached, or after `query_cache()`.
  abbrev pub assembled : Bool → Artifact → Element → Element
  assembled true after x = record x {
    assemble_done = true;
    artifact = some (record after { is_cached = true });
    cached_successfully = true;
  }
  assembled false after x = record x { assemble_done = true; artifact = some after }

  -- _assemble_done(successful)
  unfoldable pub assemble_done : Bool → Artifact → ℕ → Elements → Outcome Elements
  unfolding update_non_strict save_workspace
  assemble_done successful after e s = do
    assert (s.state e).assemble_scheduled
    if has (s.state e).artifact then ok tt else raise attribute_error
    s1 ← update_non_strict e (put e (assembled successful after (s.state e)) s)
    s2 ← update_ready_for_runtime_and_cached graph generate fuel e s1
    ok (save_workspace e s2)

  -- _load_artifact_done(), where `strict` is that of the context
  unfoldable pub load_artifact_done : Bool → ℕ → Elements → Outcome Elements
  unfolding update_non_strict schedule_assembly set_required call_can_query_cache
  load_artifact_done strict e s = do
    assert (has (s.state e).artifact)
    s1 ← if not strict && cached_of (s.state e).artifact then update_non_strict e s else ok s
    s2 ← update_ready_for_runtime_and_cached graph generate fuel e s1
    s3 ← schedule_assembly (set_required fuel run_deps) e s2
    ok (call_can_query_cache e s3)

-- A key that is there is not calculated again.
abbrev pub or_calculated : Option ℕ → Option ℕ → Option ℕ
or_calculated none key = key
or_calculated (some k) key = some k

-- The entries of the weak key: `strict_of` says which dependencies are encoded by their keys.
unfoldable pub weak_entries : (ℕ → Bool) → Elements → List ℕ → List DependencyKey
weak_entries strict_of s ds =
    map (λ d. if strict_of d then keyed d (s.state d).weak_cache_key else named d) ds

module _ (graph : Graph) (generate : ℕ → List DependencyKey → Option ℕ → ℕ) where
  unfoldable pub calculated_keys : Bool → (ℕ → Bool) → ℕ → Elements → Outcome Element
  unfolding weak_entries calculate_cache_key
  calculated_keys strict strict_of e s =
      let x = s.state e in
      let weak =
        or_calculated x.weak_cache_key
          (calculate_cache_key generate e (weak_entries strict_of s (graph.build_scope e)) none) in
      let key =
        calculate_cache_key generate e
          (map (λ d. keyed d (s.state d).strict_cache_key) (graph.build_scope e)) weak in
      let y : Element = record x { weak_cache_key = weak; strict_cache_key = key } in
      if not (has key)
      then ok y
      else (assert (has weak) >> ok (record y { cache_key = if strict then key else y.cache_key }))

  -- __update_cache_keys()
  unfoldable pub update_cache_keys : Bool → (ℕ → Bool) → ℕ → Elements → Outcome Elements
  unfolding calculated_keys
  update_cache_keys strict strict_of e s =
      let x = s.state e in
      let calculated = calculated_keys strict strict_of e s >>= λ y. ok (put e y s) in
      if has x.strict_cache_key
      then (assert (has x.weak_cache_key) >> ok s)
      else if not x.sources.is_resolved
      then ok s
      else calculated
