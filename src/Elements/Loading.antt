-- ===== src/Elements/Loading.antt =====
-- src/buildstream/element.py, _load_artifact: which artifact an element takes from the cache. What
-- an artifact (src/buildstream/_artifact.py) answers after `query_cache`, and what a pull makes of it,
-- is an interface; keys are numbers.
use buildstream.Common.{
  ℕ, ◌≡◌, refl, Bool, true, false, not, ◌&&◌, ◌||◌, ◌==◌, if◌then◌else◌, either, Option, none, some,
  arith,
}
pub mod Choosing

-- `cached_buildtree` is that the build tree is cached or that there is none.
pub record CachedArtifact : Type 0 where
  pub strong_key : Option ℕ
  pub strict_key : Option ℕ
  pub weak_key : ℕ
  pub cached : Bool
  pub cached_buildtree : Bool
  pub build_success : Bool

pub record ArtifactCache : Type 0 where
  pub query : Option ℕ → Option ℕ → ℕ → CachedArtifact
  pub pull : Bool → CachedArtifact → Bool × CachedArtifact
  pub has_fetch_remotes : Bool

pub record LoadContext : Type 0 where
  pub strict : Bool
  pub pull_buildtrees : Bool
  pub build : Bool
  pub build_retry_failed : Bool

pub record KeyedElement : Type 0 where
  pub cache_key : Option ℕ
  pub strict_cache_key : Option ℕ
  pub weak_cache_key : ℕ
  pub has_workspace : Bool

-- `loaded` is none where the element keeps the artifact that it has.
pub record LoadedArtifact : Type 0 where
  pub loaded : Option CachedArtifact
  pub pull_pending : Bool
  pub pulled : Bool

-- A new artifact of which `_cached` is set to false.
abbrev pub discarded : Option ℕ → Option ℕ → ℕ → CachedArtifact
discarded strong strict weak = record {
  strong_key = strong;
  strict_key = strict;
  weak_key = weak;
  cached = false;
  cached_buildtree = false;
  build_success = false;
}

abbrev pub is_cached : Bool → CachedArtifact → Bool
is_cached buildtree a = a.cached && (not buildtree || a.cached_buildtree)

abbrev pub same_key : Option ℕ → Option ℕ → Bool
same_key none none = true
same_key none (some k) = false
same_key (some k) none = false
same_key (some k) (some l) = k == l

module _ (cache : ArtifactCache) (context : LoadContext) (element : KeyedElement) where
  abbrev pub ignore_failed_artifact : Bool
  ignore_failed_artifact = context.build && context.build_retry_failed

  abbrev pub pull_buildtrees : Bool
  pull_buildtrees = context.pull_buildtrees && not element.has_workspace

  -- pull and artifact.pull(pull_buildtrees=pull_buildtrees)
  unfoldable pub pull_when : Bool → CachedArtifact → Bool × CachedArtifact
  pull_when wanted a = if wanted then cache.pull pull_buildtrees a else (false, a)

  abbrev pub set_pull_pending : Bool → CachedArtifact → Bool
  set_pull_pending wanted a =
      not wanted
      && not (is_cached pull_buildtrees a)
      && cache.has_fetch_remotes
      && not element.has_workspace

  unfoldable pub take_strict : Bool → Bool × CachedArtifact → LoadedArtifact
  take_strict pending (pulled, a) =
      if a.cached && ignore_failed_artifact && not a.build_success
      then record {
        loaded = some (discarded element.cache_key element.strict_cache_key element.weak_cache_key);
        pull_pending = pending;
        pulled = false;
      }
      else record { loaded = some a; pull_pending = pending; pulled = pulled }

  unfoldable pub take_weak : Bool → Bool × CachedArtifact → LoadedArtifact
  take_weak pending (pulled, a) =
      if context.build
        && a.cached
        && not a.build_success
        && (ignore_failed_artifact || not (same_key a.strong_key element.strict_cache_key))
      then record {
        loaded = some (discarded none element.strict_cache_key element.weak_cache_key);
        pull_pending = pending;
        pulled = false;
      }
      else record { loaded = some a; pull_pending = pending; pulled = pulled }

  abbrev pub or_context : Option Bool → Bool
  or_context none = context.strict
  or_context (some strict) = strict

  unfoldable pub load_artifact : Bool → Option Bool → LoadedArtifact
  unfolding pull_when take_strict take_weak
  load_artifact wanted strict =
      let strict_artifact =
        cache.query element.strict_cache_key element.strict_cache_key element.weak_cache_key in
      let pending = set_pull_pending wanted strict_artifact in
      let result = pull_when wanted strict_artifact in
      let weak_artifact = cache.query none element.strict_cache_key element.weak_cache_key in
      if (result.1).cached || or_context strict
      then take_strict pending result
      else if pending
      then record { loaded = none; pull_pending = true; pulled = false }
      else take_weak pending (pull_when wanted weak_artifact)
