-- ===== src/Elements/Readiness.antt =====
-- src/buildstream/element.py: when an element is ready for runtime and cached, and the counters of
-- what its dependents wait for.
use buildstream.Common.{
  ℕ, ◌+◌, ◌≤◌, ◌≡◌, refl, ◌∙◌, Bool, true, false, not, ◌&&◌, ◌||◌, if◌then◌else◌, arith,
}
use buildstream.Elements.{
  Element, has, cached_of, cached_success, after_cached_success, may_be_ready,
}

-- Of the runtime dependencies, `u` are not ready, and `p` have become ready and are yet to be
-- counted; `v` and `q` are so of the build dependencies.
pub record IsAccounted (u p v q : ℕ) (x : Element) : Type 0 where
  pub runtime_count : x.runtime_deps_uncached ≡ u + p
  pub build_count : x.build_deps_uncached ≡ v + q
  pub ready_runtime : x.ready_for_runtime_and_cached ≡ true → u ≡ 0
  pub ready_cached : x.ready_for_runtime_and_cached ≡ true → x.cached_successfully ≡ true
  pub ready_keyed : x.ready_for_runtime_and_cached ≡ true → has x.cache_key ≡ true
  pub artifact_keyed : has x.artifact ≡ true → has x.weak_cache_key ≡ true
  pub assembly_artifact : (x.assemble_scheduled || x.assemble_done) ≡ true → has x.artifact ≡ true

-- An element is marked as ready as soon as it can be, but for one that is to be pulled.
abbrev pub is_settled : Element → Bool
is_settled x =
    x.ready_for_runtime_and_cached || not (may_be_ready x && cached_success x) || x.pull_pending

-- What the handlers of readiness leave as it is.
pub record IsKept (x y : Element) : Type 0 where
  pub same_required : y.required ≡ x.required
  pub same_scheduled : y.assemble_scheduled ≡ x.assemble_scheduled
  pub same_done : y.assemble_done ≡ x.assemble_done
  pub same_artifact : has y.artifact ≡ has x.artifact

pub IsKept-refl : (x : Element) → IsKept x x
IsKept-refl x = record {
  same_required = refl;
  same_scheduled = refl;
  same_done = refl;
  same_artifact = refl;
}

pub IsKept-trans : (x y z : Element) → IsKept x y → IsKept y z → IsKept x z
IsKept-trans x y z h k = record {
  same_required = k.same_required ∙ h.same_required;
  same_scheduled = k.same_scheduled ∙ h.same_scheduled;
  same_done = k.same_done ∙ h.same_done;
  same_artifact = k.same_artifact ∙ h.same_artifact;
}

-- The pending notifications move from one count to the other.
pub IsAccounted-shift :
    (u p v q u' p' v' q' : ℕ) (x : Element)
    → u + p ≡ u' + p'
    → v + q ≡ v' + q'
    → u' ≤ u
    → IsAccounted u p v q x
    → IsAccounted u' p' v' q' x
IsAccounted-shift u p v q u' p' v' q' x h k l a = record {
  runtime_count = a.runtime_count ∙ h;
  build_count = a.build_count ∙ k;
  ready_runtime = λ r. omega (arith, a.ready_runtime r);
  ready_cached = a.ready_cached;
  ready_keyed = a.ready_keyed;
  artifact_keyed = a.artifact_keyed;
  assembly_artifact = a.assembly_artifact;
}

pub IsAccounted-marked :
    (u p v q : ℕ) (x : Element)
    → may_be_ready x ≡ true
    → cached_success x ≡ true
    → IsAccounted u p v q x
    → IsAccounted u p v q (record (after_cached_success x) { ready_for_runtime_and_cached = true })
IsAccounted-marked u p v q x m c a = record {
  runtime_count = ground (arith, a.runtime_count);
  build_count = ground (arith, a.build_count);
  ready_runtime = λ _. ground (arith, a.runtime_count);
  ready_cached = λ _. ground arith;
  ready_keyed = λ _. ground arith;
  artifact_keyed = ground (arith, a.artifact_keyed);
  assembly_artifact = ground (arith, a.assembly_artifact);
}

-- A conditional keeps what both of its branches have.
pub if_keeps :
    (P : Element → Type 0) (b : Bool) (x y : Element)
    → (b ≡ true → P x)
    → (b ≡ false → P y)
    → P (if b then x else y)
if_keeps P true x y h k = h refl
if_keeps P false x y h k = k refl

pub IsAccounted-asked :
    (u p v q : ℕ) (x : Element)
    → IsAccounted u p v q x
    → IsAccounted u p v q (after_cached_success x)
IsAccounted-asked u p v q x a =
    if_keeps (IsAccounted u p v q) (x.cached_successfully || not (cached_of x.artifact)) x _
      (λ _. a)
      (λ n. record {
        runtime_count = a.runtime_count;
        build_count = a.build_count;
        ready_runtime = a.ready_runtime;
        ready_cached = λ r. ground (arith, a.ready_cached);
        ready_keyed = a.ready_keyed;
        artifact_keyed = a.artifact_keyed;
        assembly_artifact = a.assembly_artifact;
      })

pub IsKept-asked : (x : Element) → IsKept x (after_cached_success x)
IsKept-asked x =
    if_keeps (IsKept x) (x.cached_successfully || not (cached_of x.artifact)) x _
      (λ _. IsKept-refl x)
      (λ _. record {
        same_required = refl;
        same_scheduled = refl;
        same_done = refl;
        same_artifact = refl;
      })

pub IsKept-marked :
    (x : Element)
    → IsKept x (record (after_cached_success x) { ready_for_runtime_and_cached = true })
IsKept-marked x =
    let k = IsKept-asked x in
    record {
      same_required = k.same_required;
      same_scheduled = k.same_scheduled;
      same_done = k.same_done;
      same_artifact = k.same_artifact;
    }

-- Asking again gives the same answer.
pub unsettled_asked :
    (x : Element) → cached_success x ≡ false → is_settled (after_cached_success x) ≡ true
unsettled_asked x h = ground arith

pub asked_ready :
    (x : Element)
    → (after_cached_success x).ready_for_runtime_and_cached ≡ x.ready_for_runtime_and_cached
asked_ready x =
    if_keeps (λ y. y.ready_for_runtime_and_cached ≡ x.ready_for_runtime_and_cached)
      (x.cached_successfully || not (cached_of x.artifact)) x _ (λ _. refl) (λ _. refl)

pub settled_asked : (x : Element) → is_settled x ≡ true → is_settled (after_cached_success x) ≡ true
settled_asked x h = ground arith
