-- ===== src/Tests/ElementsTests.antt =====
-- Elements at concrete inputs: 1 is built with 0 and runs with 0.
use buildstream.Common.{
  ℕ, zero, suc, ◌+◌, ◌≡◌, refl, true, false, Bool, List, [], ◌∷◌, Option, none, some, Outcome, ok,
  raise, Returns,
}
use buildstream.Pipeline.Dependencies.{direct, distinct, run_deps}
use buildstream.Elements.{
  Elements, Artifact, Graph, DependencyKey, buildable, calculate_cache_key, strong_key,
  update_cache_key_non_strict, decrement_runtime, decrement_build, notify_runtime, call_buildable,
  notify_build, update_ready_for_runtime_and_cached,
}
use buildstream.Elements.Counting.{readiness}
use buildstream.Elements.Assembly.{
  require_each, call_required, call_can_query_cache, update_non_strict, schedule_assembly,
  set_required, save_workspace, assemble_done, load_artifact_done, update_cache_keys,
}
use buildstream.Elements.Assembly.Running.{
  pending, taken, after_loading, ElementEvent, requested, loaded, handle_event, handle_events,
  new_elements,
}
use buildstream.Elements.Assembly.Keys.{IsKeyed, update_cache_keys-IsKeyed}

abbrev needs : ℕ → List ℕ
needs (suc zero) = 0 ∷ []
needs _ = []

abbrev needed_by : ℕ → List ℕ
needed_by zero = 1 ∷ []
needed_by _ = []

abbrev graph : Graph
graph = record {
  build_dependencies = needs;
  runtime_dependencies = needs;
  reverse_build_deps = needed_by;
  reverse_runtime_deps = needed_by;
  build_scope = needs;
}

abbrev universe : List ℕ
universe = 0 ∷ 1 ∷ []

abbrev generate : ℕ → List DependencyKey → Option ℕ → ℕ
generate e entries weak = e + 100

abbrev start : Elements
start =
    new_elements graph (λ i. some (i + 10)) (λ i. some (i + 20)) (λ i. none)
      (λ i. record { is_resolved = true; cached = true; cached_original = true }) (λ i. false)

abbrev in_cache : Artifact
in_cache = record { is_cached = true; success = true; strong_key = 50; cache_key = none }

abbrev missing : Artifact
missing = record { is_cached = false; success = false; strong_key = 0; cache_key = none }

abbrev events : List ElementEvent
events =
    requested run_deps 1
    ∷ loaded 1 (taken missing)
    ∷ loaded 0 (pending none)
    ∷ loaded 0 (taken in_cache)
    ∷ []

-- Whether the element is buildable, and whether it is ready, in the state that a call leaves.
abbrev is_buildable : ℕ → Outcome Elements → Bool
is_buildable e (ok s) = buildable (s.state e)
is_buildable e (raise x) = false

abbrev is_ready : ℕ → Outcome Elements → Bool
is_ready e (ok s) = readiness s e
is_ready e (raise x) = false

-- In non-strict mode, 1 can be built once the artifact of 0 is there.
built : is_buildable 1 (handle_events graph generate 3 false events start) ≡ true
unfolding handle_events handle_event after_loading new_elements set_required schedule_assembly
    require_each call_required update_non_strict load_artifact_done assemble_done save_workspace
    call_can_query_cache update_ready_for_runtime_and_cached notify_build notify_runtime
    call_buildable decrement_build decrement_runtime update_cache_key_non_strict strong_key
    calculate_cache_key direct distinct
built = refl

dependency_ready : is_ready 0 (handle_events graph generate 3 false events start) ≡ true
unfolding handle_events handle_event after_loading new_elements set_required schedule_assembly
    require_each call_required update_non_strict load_artifact_done assemble_done save_workspace
    call_can_query_cache update_ready_for_runtime_and_cached notify_build notify_runtime
    call_buildable decrement_build decrement_runtime update_cache_key_non_strict strong_key
    calculate_cache_key direct distinct
dependency_ready = refl

update_cache_keys-IsKeyed_example :
    Returns
      (λ s'. (i : ℕ) → IsKeyed (s'.state i))
      (update_cache_keys graph generate true (λ d. true) 1 start)
update_cache_keys-IsKeyed_example =
    update_cache_keys-IsKeyed graph generate true (λ d. true) 1 start
      (λ i _. unfold new_elements in refl)
