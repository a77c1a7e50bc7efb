-- ===== src/Tests/LoadingTests.antt =====
-- The loading of artifacts at concrete inputs: the cache holds a failed build under the strict key.
use buildstream.Common.{ℕ, ◌≡◌, refl, Bool, true, false, Option, none, some}
use buildstream.Elements.Loading.{
  CachedArtifact, ArtifactCache, LoadContext, KeyedElement, pull_when, take_strict, take_weak,
  load_artifact,
}
use buildstream.Elements.Loading.Choosing.{IsLoaded, load_artifact-IsLoaded}

abbrev under_key : Option ℕ → Option ℕ → ℕ → CachedArtifact
under_key strong strict weak = record {
  strong_key = strong;
  strict_key = strict;
  weak_key = weak;
  cached = true;
  cached_buildtree = false;
  build_success = false;
}

abbrev cache : ArtifactCache
cache = record { query = under_key; pull = λ trees a. (true, a); has_fetch_remotes = true }

abbrev context : Bool → LoadContext
context retry = record {
  strict = true;
  pull_buildtrees = false;
  build = true;
  build_retry_failed = retry;
}

abbrev element : KeyedElement
element = record {
  cache_key = some 7;
  strict_cache_key = some 7;
  weak_cache_key = 8;
  has_workspace = false;
}

abbrev is_taken : Option CachedArtifact → Bool
is_taken none = false
is_taken (some a) = a.cached

failed-dropped : is_taken (load_artifact cache (context true) element true none).loaded ≡ false
unfolding load_artifact pull_when take_strict take_weak
failed-dropped = refl

failed-kept : is_taken (load_artifact cache (context false) element true none).loaded ≡ true
unfolding load_artifact pull_when take_strict take_weak
failed-kept = refl

load_artifact-IsLoaded_example :
    IsLoaded cache
      (context true)
      element
      true
      (load_artifact cache (context true) element true none)
load_artifact-IsLoaded_example = load_artifact-IsLoaded cache (context true) element true none
