-- ===== src/Elements.antt =====
-- src/buildstream/element.py: the state of the elements of a pipeline, and what changes it. An
-- element is its unique id, and the elements are a function from ids to states.
use buildstream.Common.{
  ℕ, zero, suc, ◌+◌, ◌-◌, Bool, true, false, not, ◌&&◌, ◌||◌, ◌==◌, List, [], ◌∷◌, ◌++◌, map, all,
  contains, if◌then◌else◌, Option, none, some, Outcome, ok, raise, assertion, attribute_error,
  diverged, ◌>>=◌, ◌>>◌, assert,
}
pub mod Counting
pub mod Readiness
pub mod Notifying
pub mod Updating
pub mod Assembly
pub mod Loading

-- The `Artifact` of an element: whether it is cached, whether it is of a successful build, and the
-- strong key that its metadata has.
pub record Artifact : Type 0 where
  pub is_cached : Bool
  pub success : Bool
  pub strong_key : ℕ
  pub cache_key : Option ℕ

-- The ElementSources, as far as the state of the element depends on them.
pub record Sources : Type 0 where
  pub is_resolved : Bool
  pub cached : Bool
  pub cached_original : Bool

-- A callback to a queue is the number of the queue.
pub record Element : Type 0 where
  pub build_deps_uncached : ℕ
  pub runtime_deps_uncached : ℕ
  pub ready_for_runtime_and_cached : Bool
  pub sources : Sources
  pub weak_cache_key : Option ℕ
  pub strict_cache_key : Option ℕ
  pub cache_key : Option ℕ
  pub assemble_scheduled : Bool
  pub assemble_done : Bool
  pub pull_pending : Bool
  pub cached_successfully : Bool
  pub required : Bool
  pub build_result : Option Bool
  pub artifact : Option Artifact
  pub has_workspace : Bool
  pub required_callback : Option ℕ
  pub can_query_cache_callback : Option ℕ
  pub buildable_callback : Option ℕ

-- What the element does to the outside: a callback, or the saving of a workspace's last build.
pub data Effect : Type 0 where
  called_back : ℕ → ℕ → Effect
  workspace_saved : ℕ → Option ℕ → Effect

pub record Elements : Type 0 where
  pub state : ℕ → Element
  pub effects : List Effect

-- What does not change: the dependencies of the elements, their reverses, and what
-- `_dependencies(BUILD)` yields.
pub record Graph : Type 0 where
  pub build_dependencies : ℕ → List ℕ
  pub runtime_dependencies : ℕ → List ℕ
  pub reverse_build_deps : ℕ → List ℕ
  pub reverse_runtime_deps : ℕ → List ℕ
  pub build_scope : ℕ → List ℕ

abbrev pub has {ℓ} : {A : Type ℓ} → Option A → Bool
has none = false
has (some _) = true

abbrev pub put : ℕ → Element → Elements → Elements
put e x s = record s { state = λ i. if i == e then x else s.state i }

-- Artifact.cached(), for an element that has its artifact
abbrev pub cached_of : Option Artifact → Bool
cached_of none = false
cached_of (some a) = a.is_cached

abbrev pub success_of : Option Artifact → Bool
success_of none = false
success_of (some a) = a.success

abbrev pub result_of : Option Bool → Option Artifact → Bool
result_of none a = success_of a
result_of (some r) a = r

-- _cached_success(), which keeps what it has found out
abbrev pub cached_success : Element → Bool
cached_success x =
    x.cached_successfully || (cached_of x.artifact && result_of x.build_result x.artifact)

abbrev pub after_cached_success : Element → Element
after_cached_success x =
    if x.cached_successfully || not (cached_of x.artifact) then x else record x {
      build_result = some (result_of x.build_result x.artifact);
      cached_successfully = result_of x.build_result x.artifact;
    }

abbrev pub fetch_needed : Element → Bool
fetch_needed x = not x.sources.cached && not x.sources.cached_original

-- _buildable()
abbrev pub buildable : Element → Bool
buildable x = x.assemble_scheduled && not (fetch_needed x) && x.build_deps_uncached == 0

-- What an entry of `dependencies` in a cache key has of a dependency.
pub data DependencyKey : Type 0 where
  named : ℕ → DependencyKey
  keyed : ℕ → Option ℕ → DependencyKey

-- all(dep)
abbrev pub is_whole : DependencyKey → Bool
is_whole (named d) = true
is_whole (keyed d k) = has k

-- The keys: `generate` is `_cachekey.generate_key` on what the element has of its own, on the
-- entries and on the weak key.
unfoldable pub calculate_cache_key :
    (ℕ → List DependencyKey → Option ℕ → ℕ) → ℕ → List DependencyKey → Option ℕ → Option ℕ
calculate_cache_key generate e dependencies weak =
    if all is_whole dependencies then some (generate e dependencies weak) else none

abbrev pub call_back : Option ℕ → ℕ → Elements → Elements
call_back none e s = s
call_back (some queue) e s = record s { effects = s.effects ++ called_back queue e ∷ [] }

-- artifact._cache_key = key
abbrev pub with_artifact_key : Option ℕ → Option Artifact → Option Artifact
with_artifact_key key none = none
with_artifact_key key (some a) = some (record a { cache_key = key })

-- counter -= 1; assert not counter < 0
unfoldable pub decrement_runtime : ℕ → Elements → Outcome Elements
decrement_runtime r s =
    let x = s.state r in
    if x.runtime_deps_uncached == 0
    then raise assertion
    else ok (put r (record x { runtime_deps_uncached = x.runtime_deps_uncached - 1 }) s)

unfoldable pub decrement_build : ℕ → Elements → Outcome Elements
decrement_build r s =
    let x = s.state r in
    if x.build_deps_uncached == 0
    then raise assertion
    else ok (put r (record x { build_deps_uncached = x.build_deps_uncached - 1 }) s)

unfoldable pub notify_runtime :
    (ℕ → Elements → Outcome Elements) → List ℕ → Elements → Outcome Elements
unfolding decrement_runtime
notify_runtime update_ready [] s = ok s
notify_runtime update_ready (r ∷ rs) s = do
  s1 ← decrement_runtime r s
  s2 ← if (s1.state r).runtime_deps_uncached == 0 then update_ready r s1 else ok s1
  notify_runtime update_ready rs s2

-- The callback of an element that is buildable, which is called once.
unfoldable pub call_buildable : ℕ → Elements → Elements
call_buildable r s =
    let x = s.state r in
    call_back x.buildable_callback r (put r (record x { buildable_callback = none }) s)

-- The conditions on the element before `_cached_success()` is asked.
abbrev pub may_be_ready : Element → Bool
may_be_ready x = x.runtime_deps_uncached == 0 && has x.artifact && has x.cache_key

module _ (graph : Graph) (generate : ℕ → List DependencyKey → Option ℕ → ℕ) where
  -- What sets the strong key: a pull that is pending hides it, a cached artifact has it, and an
  -- element that is assembled calculates it.
  unfoldable pub strong_key : ℕ → Elements → Outcome (Option ℕ)
  unfolding calculate_cache_key
  strong_key e s =
      let x = s.state e in
      let calculated =
        assert (has x.weak_cache_key)
        >> ok (
            calculate_cache_key generate e
              (map (λ d. keyed d (s.state d).cache_key) (graph.build_scope e)) x.weak_cache_key) in
      if x.pull_pending then ok none else elim x.artifact [
        | none ↦ raise attribute_error
        | some a ↦
            if a.is_cached
            then ok (some a.strong_key)
            else if x.assemble_scheduled || x.assemble_done
            then calculated
            else ok none
      ]

  -- __update_cache_key_non_strict(), given `_update_ready_for_runtime_and_cached`
  unfoldable pub update_cache_key_non_strict :
      (ℕ → Elements → Outcome Elements) → ℕ → Elements → Outcome Elements
  unfolding strong_key
  update_cache_key_non_strict update_ready e s =
      let resolved = strong_key e s >>= λ key. elim key [
        | none ↦ ok s
        | some k ↦ update_ready e (put e (record (s.state e) { cache_key = some k }) s) >>= λ s'.
            ok (
              put e
                (record (s'.state e) {
                  artifact = with_artifact_key (s'.state e).cache_key (s'.state e).artifact;
                })
                s')
      ] in
      if has (s.state e).cache_key then ok s else resolved

  unfoldable pub notify_build :
      (ℕ → Elements → Outcome Elements) → List ℕ → Elements → Outcome Elements
  unfolding decrement_build update_cache_key_non_strict call_buildable
  notify_build update_ready [] s = ok s
  notify_build update_ready (r ∷ rs) s = do
    s1 ← decrement_build r s
    s2 ←
        if buildable (s1.state r)
        then (update_cache_key_non_strict update_ready r s1 >>= λ s'. ok (call_buildable r s'))
        else ok s1
    notify_build update_ready rs s2

  -- _update_ready_for_runtime_and_cached()
  unfoldable pub update_ready_for_runtime_and_cached : ℕ → ℕ → Elements → Outcome Elements
  unfolding notify_runtime notify_build
  update_ready_for_runtime_and_cached zero e s = raise diverged
  update_ready_for_runtime_and_cached (suc fuel) e s =
      let x = s.state e in
      let ready =
        notify_runtime (update_ready_for_runtime_and_cached fuel) (graph.reverse_runtime_deps e)
          (put e (record (after_cached_success x) { ready_for_runtime_and_cached = true }) s)
        >>= notify_build (update_ready_for_runtime_and_cached fuel) (graph.reverse_build_deps e) in
      if x.ready_for_runtime_and_cached || not (may_be_ready x)
      then ok s
      else if cached_success x
      then ready
      else ok (put e (after_cached_success x) s)
