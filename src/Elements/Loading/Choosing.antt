-- ===== src/Elements/Loading/Choosing.antt =====
-- src/buildstream/element.py, _load_artifact: failed builds, pending pulls.
use buildstream.Common.{
  ◌≡◌, refl, Bool, true, false, not, ◌&&◌, ◌||◌, either, Option, none, some, arith,
}
use buildstream.Elements.Loading.{
  CachedArtifact, ArtifactCache, LoadContext, KeyedElement, LoadedArtifact, same_key,
  ignore_failed_artifact, pull_when, set_pull_pending, take_strict, take_weak, or_context,
  load_artifact,
}

module _ (cache : ArtifactCache) (context : LoadContext) (element : KeyedElement) where
  -- A failed build is not taken where failed builds are retried.
  abbrev pub IsAccepted : CachedArtifact → Type 0
  IsAccepted a =
      a.cached ≡ true
      → context.build ≡ true
      → context.build_retry_failed ≡ true
      → a.build_success ≡ true

  abbrev pub AcceptedIn : Option CachedArtifact → Type 0
  AcceptedIn none = Unit
  AcceptedIn (some a) = IsAccepted a

  -- Nothing is taken only while a pull is pending, a pull is pending only if none was wanted, and
  -- what is not wanted is not pulled.
  abbrev pub IsLoaded : Bool → LoadedArtifact → Type 0
  IsLoaded wanted r =
      AcceptedIn r.loaded
      × (r.loaded ≡ none → r.pull_pending ≡ true)
      × (wanted ≡ true → r.pull_pending ≡ false)
      × (wanted ≡ false → r.pulled ≡ false)

  module _ (wanted pending got : Bool) (a : CachedArtifact)
      (later : wanted ≡ true → pending ≡ false) (idle : wanted ≡ false → got ≡ false) where
    take_strict-IsLoaded : IsLoaded wanted (take_strict cache context element pending (got, a))
    unfolding take_strict
    take_strict-IsLoaded =
        either (IsLoaded wanted)
          (a.cached && ignore_failed_artifact cache context element && not a.build_success) _ _
          (λ failed. (
            λ c b r. absurd (ground (arith, c)),
            λ n. absurd (ground (arith, n)),
            later,
            λ w. refl,
          ))
          (λ taken.
            (λ c b r. ground (arith, taken, c, b, r), λ n. absurd (ground (arith, n)), later, idle))

    take_weak-IsLoaded : IsLoaded wanted (take_weak cache context element pending (got, a))
    unfolding take_weak
    take_weak-IsLoaded =
        either (IsLoaded wanted)
          (context.build
            && a.cached
            && not a.build_success
            && (ignore_failed_artifact cache context element
                || not (same_key a.strong_key element.strict_cache_key)))
          _ _
          (λ failed. (
            λ c b r. absurd (ground (arith, c)),
            λ n. absurd (ground (arith, n)),
            later,
            λ w. refl,
          ))
          (λ taken.
            (λ c b r. ground (arith, taken, c, b, r), λ n. absurd (ground (arith, n)), later, idle))

  pull_when-idle :
      (wanted : Bool) (a : CachedArtifact)
      → wanted ≡ false
      → (pull_when cache context element wanted a).0 ≡ false
  unfolding pull_when
  pull_when-idle true a h = absurd (ground (arith, h))
  pull_when-idle false a h = refl

  set_pull_pending-wanted :
      (wanted : Bool) (a : CachedArtifact)
      → wanted ≡ true
      → set_pull_pending cache context element wanted a ≡ false
  set_pull_pending-wanted true a h = refl
  set_pull_pending-wanted false a h = absurd (ground (arith, h))

  -- Where failed builds are retried, a failed one is not taken; the element keeps its artifact only
  -- while a pull is pending, which is so only if no pull was wanted; and nothing is pulled unless
  -- wanted.
  pub load_artifact-IsLoaded :
      (wanted : Bool) (strict : Option Bool)
      → IsLoaded wanted (load_artifact cache context element wanted strict)
  unfolding load_artifact
  load_artifact-IsLoaded wanted strict =
      let first =
        cache.query element.strict_cache_key element.strict_cache_key element.weak_cache_key in
      let second = cache.query none element.strict_cache_key element.weak_cache_key in
      let result = pull_when cache context element wanted first in
      let weak = pull_when cache context element wanted second in
      let pending = set_pull_pending cache context element wanted first in
      let later = set_pull_pending-wanted wanted first in
      either (IsLoaded wanted) ((result.1).cached || or_context cache context element strict) _ _
        (λ c.
          take_strict-IsLoaded wanted pending result.0 result.1 later (pull_when-idle wanted first))
        (λ missing.
          either (IsLoaded wanted) pending _ _
            (λ p. (tt, λ n. refl, λ w. ground (arith, p, later w), λ w. refl))
            (λ p.
              take_weak-IsLoaded wanted pending weak.0 weak.1 later (pull_when-idle wanted second)))
