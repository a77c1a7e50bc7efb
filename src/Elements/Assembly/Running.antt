-- ===== src/Elements/Assembly/Running.antt =====
-- src/buildstream/element.py: the elements through any sequence of requests, loadings and assemblies.
use buildstream.Common.{
  Never, ℕ, ◌+◌, ◌≡◌, refl, Bool, true, false, List, [], ◌∷◌, length, if◌then◌else◌, contains,
  arith, Option, none, some, Outcome, ok, ◌>>=◌,
}
use buildstream.Pipeline.Dependencies.{Scope, run_deps}
use buildstream.Elements.{Sources, Element, Elements, Artifact, Graph, DependencyKey, put, has}
use buildstream.Elements.Counting.{unready}
use buildstream.Elements.Assembly.{set_required, assemble_done, load_artifact_done}
use buildstream.Elements.Assembly.Completing.{IsSound}

-- What `_load_artifact` leaves: a pull is pending, perhaps with the artifact that was found; or the
-- artifact is taken.
pub data Loading : Type 0 where
  pending : Option Artifact → Loading
  taken : Artifact → Loading

-- What happens to the elements: one is requested, the artifact of one was loaded, the assembly of
-- one is done.
pub data ElementEvent : Type 0 where
  requested : Scope → ℕ → ElementEvent
  loaded : ℕ → Loading → ElementEvent
  assembly_done : ℕ → Bool → Artifact → ElementEvent

abbrev pub with_artifact : Loading → Element → Element
with_artifact (pending none) x = record x { pull_pending = true }
with_artifact (pending (some a)) x = record x { artifact = some a; pull_pending = true }
with_artifact (taken a) x = record x { artifact = some a; pull_pending = false }

module _ (graph : Graph) (generate : ℕ → List DependencyKey → Option ℕ → ℕ) (fuel : ℕ)
    (strict : Bool) where
  -- The queues call `_load_artifact_done` when no pull is pending. It is here one event with the
  -- loading, which the queues run in a thread before.
  unfoldable pub after_loading : ℕ → Loading → Elements → Outcome Elements
  after_loading e (pending a) s = ok s
  after_loading e (taken a) s = load_artifact_done graph generate fuel strict e s

  -- An artifact is loaded by its weak key, so that there is one; only what was scheduled is
  -- assembled. An event that does not apply is no event.
  unfoldable pub handle_event : ElementEvent → Elements → Outcome Elements
  unfolding after_loading
  handle_event (requested scope e) s = set_required graph generate fuel fuel scope e s
  handle_event (loaded e loading) s =
      if has (s.state e).weak_cache_key
      then after_loading e loading (put e (with_artifact loading (s.state e)) s)
      else ok s
  handle_event (assembly_done e successful after) s =
      if (s.state e).assemble_scheduled
      then assemble_done graph generate fuel successful after e s
      else ok s

  unfoldable pub handle_events : List ElementEvent → Elements → Outcome Elements
  unfolding handle_event
  handle_events [] s = ok s
  handle_events (ev ∷ evs) s = handle_event ev s >>= λ s'. handle_events evs s'

abbrev pub event_element : ElementEvent → ℕ
event_element (requested scope e) = e
event_element (loaded e loading) = e
event_element (assembly_done e successful after) = e

-- The scope of a request is RUN, as it is where elements are built or pulled.
abbrev pub IsRunRequest : ElementEvent → Type 0
IsRunRequest (requested run_deps e) = Unit
IsRunRequest (requested _ e) = Never
IsRunRequest _ = Unit

-- The event is of an element of the universe, and requests none but with its runtime dependencies.
abbrev pub IsEventOf : List ℕ → ElementEvent → Type 0
IsEventOf universe ev = (contains universe (event_element ev) ≡ true) × IsRunRequest ev

-- The elements when they are loaded: the counters are the numbers of their dependencies.
module _ (graph : Graph) (weak strict_key key : ℕ → Option ℕ) (sources : ℕ → Sources)
    (workspace : ℕ → Bool) where
  unfoldable pub new_elements : Elements
  new_elements = record {
    state = λ i. record {
      build_deps_uncached = length (graph.build_dependencies i);
      runtime_deps_uncached = length (graph.runtime_dependencies i);
      ready_for_runtime_and_cached = false;
      sources = sources i;
      weak_cache_key = weak i;
      strict_cache_key = strict_key i;
      cache_key = key i;
      assemble_scheduled = false;
      assemble_done = false;
      pull_pending = false;
      cached_successfully = false;
      required = false;
      build_result = none;
      artifact = none;
      has_workspace = workspace i;
      required_callback = none;
      can_query_cache_callback = none;
      buildable_callback = none;
    };
    effects = [];
  }

  none_ready : (ds : List ℕ) → length ds ≡ unready (λ _. false) ds + 0
  none_ready [] = refl
  none_ready (d ∷ ds) = omega (arith, none_ready ds)

  pub new_elements-IsSound : (universe : List ℕ) → IsSound graph universe new_elements
  unfolding new_elements
  new_elements-IsSound universe = record {
    accounts = λ i. record {
      runtime_count = none_ready (graph.runtime_dependencies i);
      build_count = none_ready (graph.build_dependencies i);
      ready_runtime = λ r. absurd (ground arith);
      ready_cached = λ r. r;
      ready_keyed = λ r. absurd (ground arith);
      artifact_keyed = λ r. absurd (ground arith);
      assembly_artifact = λ r. r;
    };
    settled = λ i. ground arith;
    run_closed = λ i n r. absurd (ground arith);
    build_closed = λ i n r. absurd (ground arith);
  }
