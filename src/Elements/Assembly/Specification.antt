-- ===== src/Elements/Assembly/Specification.antt =====
-- src/buildstream/element.py: what the counters and flags of an element stand for.
use buildstream.Common.{ℕ, ◌≡◌, Bool, true, false, not, ◌&&◌, all}
use buildstream.Elements.{Elements, Graph, has, cached_success, fetch_needed, buildable}
use buildstream.Elements.Counting.{readiness}

module _ (graph : Graph) where
  -- The criteria that the comment on `_update_ready_for_runtime_and_cached` names: a strong cache
  -- key, the artifact in the local cache, and the same of the runtime dependencies.
  abbrev pub meets_criteria : Elements → ℕ → Bool
  meets_criteria s i =
      has (s.state i).cache_key
      && cached_success (s.state i)
      && all (readiness s) (graph.runtime_dependencies i)

  -- What the comment on `_set_buildable_callback` names.
  abbrev pub may_be_built : Elements → ℕ → Bool
  may_be_built s i =
      (s.state i).assemble_scheduled
      && not (fetch_needed (s.state i))
      && all (readiness s) (graph.build_dependencies i)

  -- The flags and counters of an element against the criteria: it is ready for runtime and cached
  -- exactly when it meets them, once its artifact is loaded and not to be pulled, and it is buildable
  -- exactly when its assembly is scheduled, its sources need no fetching, and all of its build
  -- dependencies are ready.
  abbrev pub MeansCriteria : Elements → ℕ → Type 0
  MeansCriteria s i =
      (has (s.state i).artifact ≡ true
        → (s.state i).pull_pending ≡ false
        → readiness s i ≡ meets_criteria s i)
      × (buildable (s.state i) ≡ may_be_built s i)
