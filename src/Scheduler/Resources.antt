-- ===== src/Scheduler/Resources.antt =====
-- src/buildstream/_scheduler/resources.py: the tokens that jobs reserve and release.
-- The three dictionaries have the four members of `ResourceType` as their keys from the
-- constructor on, so each is a function.
use buildstream.Common.{
  ℕ, ◌+◌, ◌-◌, Bool, true, false, not, ◌&&◌, ◌||◌, List, [], ◌∷◌, ◌==◌, ltb, leb, if◌then◌else◌,
  all, any, select, Outcome, ok, raise, assertion, ◌>>=◌, ◌>>◌, assert,
}
pub mod Accounting

pub data ResourceType : Type 0 where
  cache download process upload : ResourceType

abbrev pub same : ResourceType → ResourceType → Bool
same cache cache = true
same download download = true
same process process = true
same upload upload = true
same _ _ = false

abbrev pub member : List ResourceType → ResourceType → Bool
member [] t = false
member (r ∷ rs) t = same r t || member rs t

-- set(resources): one of each
abbrev pub to_set : List ResourceType → List ResourceType
to_set [] = []
to_set (r ∷ rs) = if member rs r then to_set rs else r ∷ to_set rs

pub record Resources : Type 0 where
  pub max_resources : ResourceType → ℕ
  pub used_resources : ResourceType → ℕ
  pub exclusive_resources : ResourceType → List ℕ

abbrev max_of : ℕ → ℕ → ℕ → ResourceType → ℕ
max_of builders fetchers pushers cache = 0
max_of builders fetchers pushers download = fetchers
max_of builders fetchers pushers process = builders
max_of builders fetchers pushers upload = pushers

unfoldable pub new_resources : ℕ → ℕ → ℕ → Resources
new_resources num_builders num_fetchers num_pushers = record {
  max_resources = max_of num_builders num_fetchers num_pushers;
  used_resources = λ _. 0;
  exclusive_resources = λ _. [];
}

-- self._used_resources[resource] += 1
abbrev pub add_use : (ResourceType → ℕ) → ResourceType → ResourceType → ℕ
add_use used r t = if same r t then used t + 1 else used t

abbrev pub drop_use : (ResourceType → ℕ) → ResourceType → ResourceType → ℕ
drop_use used r t = if same r t then used t - 1 else used t

abbrev pub add_uses : (ResourceType → ℕ) → List ResourceType → ResourceType → ℕ
add_uses used [] = used
add_uses used (r ∷ rs) = add_uses (add_use used r) rs

abbrev is_empty : List ℕ → Bool
is_empty [] = true
is_empty (_ ∷ _) = false

-- The tests of `reserve`, in its order.
unfoldable pub can_reserve : Resources → List ResourceType → List ResourceType → Bool
can_reserve pool resources exclusive =
    all (λ r. is_empty (pool.exclusive_resources r))
      (select (λ r. not (member exclusive r)) resources)
    && all (λ r. pool.used_resources r == 0) exclusive
    && not (
        any
          (λ r. ltb 0 (pool.max_resources r) && leb (pool.max_resources r) (pool.used_resources r))
          resources)

unfoldable pub reserve : Resources → List ResourceType → List ResourceType → Bool → Bool × Resources
reserve pool resources exclusive peek =
    if can_reserve pool (to_set resources) (to_set exclusive)
    then (
      true,
      if peek
          then pool
          else record pool { used_resources = add_uses pool.used_resources (to_set resources) },
    )
    else (false, pool)

-- The loop of `release` over the dictionary of uses.
release_uses : (ResourceType → ℕ) → List ResourceType → Outcome (ResourceType → ℕ)
release_uses used [] = ok used
release_uses used (r ∷ rs) = do assert (ltb 0 (used r)); release_uses (drop_use used r) rs

pub release : Resources → List ResourceType → Outcome Resources
unfolding release_uses
release pool resources = do
  used ← release_uses pool.used_resources resources
  ok (record pool { used_resources = used })
