-- ===== src/Scheduler/Resources/Accounting.antt =====
-- Bounds and accounting of resources.py: what reserve takes, release gives back.
use buildstream.Common.{
  any, leb, ◌&&◌, ◌∙◌, assertion, ap, ℕ, ◌+◌, ◌-◌, ◌≤◌, ◌<◌, ◌≡◌, refl, Bool, true, false, List, [],
  ◌∷◌, arith, Bool-cases, inl, inr, if◌then◌else◌, ok, raise, fun_ext, ltb, ◌⊎◌,
}
use buildstream.Scheduler.Resources.{
  ResourceType, Resources, same, member, to_set, add_use, drop_use, add_uses, can_reserve, reserve,
  release_uses, release,
}

-- How often a list names a resource.
abbrev pub uses : List ResourceType → ResourceType → ℕ
uses [] t = 0
uses (r ∷ rs) t = if same r t then uses rs t + 1 else uses rs t

-- No resource is used beyond its limit; a limit of 0 means no limit.
abbrev pub IsWithin : Resources → Type 0
IsWithin pool =
    (t : ResourceType) → 0 < pool.max_resources t → pool.used_resources t ≤ pool.max_resources t

pub add_uses_lem :
    (used : ResourceType → ℕ) (rs : List ResourceType) (t : ResourceType)
    → add_uses used rs t ≡ used t + uses rs t
add_uses_lem used [] t = omega arith
add_uses_lem used (r ∷ rs) t = ground (arith, add_uses_lem (add_use used r) rs t)

same→eq : (r t : ResourceType) → same r t ≡ true → r ≡ t
same→eq ResourceType.cache t h = ground arith
same→eq _ t h = ground arith

same_refl : (r : ResourceType) → same r r ≡ true
same_refl ResourceType.cache = refl
same_refl _ = refl

uses-to_set :
    (rs : List ResourceType) (t : ResourceType)
    → uses (to_set rs) t ≡ (if member rs t then 1 else 0)
uses-to_set [] t = refl
uses-to_set (r ∷ rs) t = elim (Bool-cases (same r t)) [
  | inl e ↦ rw (same→eq r t e) (ground (arith, uses-to_set rs t, same_refl t))
  | inr e ↦ ground (arith, uses-to_set rs t)
]

-- A list that names each resource at most once.
abbrev pub IsDistinct : List ResourceType → Type 0
IsDistinct rs = (t : ResourceType) → uses rs t ≤ 1

-- Releasing takes away as many uses as the list names, and its assertion holds exactly when
-- there are that many.
release_uses_ok :
    (used : ResourceType → ℕ) (rs : List ResourceType)
    → ((t : ResourceType) → uses rs t ≤ used t)
    → release_uses used rs ≡ ok (λ t. used t - uses rs t)
unfolding release_uses
release_uses_ok used [] h = ap ok (fun_ext (λ t. omega arith))
release_uses_ok used (r ∷ rs) h = rw (positive r (h r)) (
    release_uses_ok (drop_use used r) rs (λ t. ground (arith, h t))
    ∙ ap ok (fun_ext (λ t. ground (arith, h t))))
  where
    positive : (r : ResourceType) → uses (r ∷ rs) r ≤ used r → ltb 0 (used r) ≡ true
    positive r k = ground (arith, same_refl r)

release_uses_short :
    (used : ResourceType → ℕ) (rs : List ResourceType) (t : ResourceType)
    → used t < uses rs t
    → release_uses used rs ≡ raise assertion
unfolding release_uses
release_uses_short used [] t h = elim h [ ]
release_uses_short used (r ∷ rs) t h = elim (Bool-cases (ltb 0 (used r))) [
  | inl e ↦ rw e (
      release_uses_short (drop_use used r) rs t (elim (Bool-cases (same r t)) [
        | inl s ↦ let q = same→eq r t s in rw s (ground (arith, s, q, ap used q))
        | inr s ↦ ground arith
      ]))
  | inr e ↦ rw e
]

-- Among the resources that pass the last test of `reserve`, none is at its limit.
any-false :
    (pool : Resources) (rs : List ResourceType) (t : ResourceType)
    → any
        (λ r. ltb 0 (pool.max_resources r) && leb (pool.max_resources r) (pool.used_resources r))
        rs
      ≡ false
    → 0 < pool.max_resources t
    → pool.used_resources t + (if member rs t then 1 else 0) ≤ pool.max_resources t
      ⊎ (member rs t ≡ false)
any-false pool [] t h p = inr refl
any-false pool (r ∷ rs) t h p = elim (Bool-cases (same r t)) [
  | inl s ↦
      let q = same→eq r t s in
      inl (rw s (ground (arith, ap pool.max_resources q, ap pool.used_resources q)))
  | inr s ↦ ground (arith, any-false pool rs t)
]

to_set-uses_le : (rs : List ResourceType) (t : ResourceType) → uses (to_set rs) t ≤ uses rs t
to_set-uses_le [] t = omega arith
to_set-uses_le (r ∷ rs) t = ground (arith, to_set-uses_le rs t)

uses-member : (rs : List ResourceType) (t : ResourceType) → member rs t ≡ true → 0 < uses rs t
uses-member [] t h = cc
uses-member (r ∷ rs) t h = ground (arith, uses-member rs t)

uses-absent : (rs : List ResourceType) (t : ResourceType) → member rs t ≡ false → uses rs t ≡ 0
uses-absent [] t h = refl
uses-absent (r ∷ rs) t h = ground (arith, uses-absent rs t)

pub to_set-IsDistinct : (rs : List ResourceType) → IsDistinct rs → to_set rs ≡ rs
to_set-IsDistinct [] h = refl
to_set-IsDistinct (r ∷ rs) h = rw (fresh, to_set-IsDistinct rs (λ t. ground (arith, h t)))
  where
    fresh : member rs r ≡ false
    fresh = ground (arith, uses-member rs r, h r, same_refl r)

-- What a successful reservation changes: one more use of each resource in the set.
pub reserve-used :
    (pool : Resources) (rs ex : List ResourceType)
    → (reserve pool rs ex false).0 ≡ true
    → (reserve pool rs ex false).1
      ≡ record pool { used_resources = λ t. pool.used_resources t + uses (to_set rs) t }
unfolding reserve
reserve-used pool rs ex h = elim (Bool-cases (can_reserve pool (to_set rs) (to_set ex))) [
  | inl e ↦ rw (e, fun_ext (add_uses_lem pool.used_resources (to_set rs)))
  | inr e ↦ absurd (ground arith)
]

-- A test that `reserve` passed leaves room for every resource of the set.
can_reserve_room :
    (pool : Resources) (rs ex : List ResourceType) (t : ResourceType)
    → can_reserve pool rs ex ≡ true
    → 0 < pool.max_resources t
    → pool.used_resources t + (if member rs t then 1 else 0) ≤ pool.max_resources t
      ⊎ (member rs t ≡ false)
unfolding can_reserve
can_reserve_room pool rs ex t h p = any-false pool rs t (ground arith) p

-- Whatever is asked for, a reservation takes no resource beyond its limit.
pub reserve-IsWithin :
    (pool : Resources) (rs ex : List ResourceType) (peek : Bool)
    → IsWithin pool
    → IsWithin (reserve pool rs ex peek).1
unfolding reserve
reserve-IsWithin pool rs ex peek within =
    elim (Bool-cases (can_reserve pool (to_set rs) (to_set ex))) [
      | inl e ↦ rw e (λ t p. ground (
        arith,
        within t,
        can_reserve_room pool (to_set rs) (to_set ex) t e,
        add_uses_lem pool.used_resources (to_set rs) t,
        uses-to_set rs t,
        uses-absent (to_set rs) t,
      ))
      | inr e ↦ rw e within
    ]

-- A reservation that is refused, or that only peeks, changes nothing.
pub reserve_unchanged :
    (pool : Resources) (rs ex : List ResourceType) (peek : Bool)
    → ((reserve pool rs ex peek).0 ≡ false) ⊎ (peek ≡ true)
    → (reserve pool rs ex peek).1 ≡ pool
unfolding reserve
reserve_unchanged pool rs ex peek h = ground arith

-- `release` gives back one use for each mention of a resource when there are as many in use, and
-- fails its assertion when some resource is in use less often than the list names it.
pub release_lem :
    (pool : Resources) (rs : List ResourceType)
    → (((t : ResourceType) → uses rs t ≤ pool.used_resources t)
        → release pool rs
          ≡ ok (record pool { used_resources = λ t. pool.used_resources t - uses rs t }))
      × ((t : ResourceType) → pool.used_resources t < uses rs t → release pool rs ≡ raise assertion)
unfolding release
release_lem pool rs = (
  (λ h. rw (release_uses_ok pool.used_resources rs h)),
  (λ t h. rw (release_uses_short pool.used_resources rs t h)),
)

-- Releasing what was reserved restores the pool, for resources named once each.
pub release-reserve :
    (pool : Resources) (rs ex : List ResourceType)
    → IsDistinct rs
    → (reserve pool rs ex false).0 ≡ true
    → release (reserve pool rs ex false).1 rs ≡ ok pool
release-reserve pool rs ex d h =
    rw (reserve-used pool rs ex h, to_set-IsDistinct rs d)
      ((release_lem (record pool { used_resources = λ t. pool.used_resources t + uses rs t }) rs).0
          (λ t. omega arith)
        ∙ ap (λ u. ok (record pool { used_resources = u })) (fun_ext (λ t. omega arith)))
