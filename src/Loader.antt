-- ===== src/Loader.antt =====
-- src/buildstream/_loader/loader.py: the check that no element depends on itself. An element is a
-- number. Instead of a set of the elements in the sequence, the sequence is searched; no element
-- stands in it twice.
use buildstream.Common.{
  ℕ, zero, suc, List, [], ◌∷◌, ◌==◌, contains, map, get_elem?, if◌then◌else◌, Option, none, some,
}
pub mod Circles
pub mod Ending

-- A chain is what the error of a circular dependency names; `unfinished` is that the model ran out
-- of fuel.
pub data Verdict : Type 0 where
  all_validated : Verdict
  circular : List ℕ → Verdict
  unfinished : Verdict

-- `sequence` with `sequence_indices`, the last entry first, and `validated`.
pub record Search : Type 0 where
  pub sequence : List (ℕ × ℕ)
  pub validated : List ℕ

abbrev pub elements_of : List (ℕ × ℕ) → List ℕ
elements_of [] = []
elements_of ((element, index) ∷ sequence) = element ∷ elements_of sequence

-- The names from the element on, which the sequence holds, in front of `tail`.
abbrev pub chain_from : ℕ → List ℕ → List ℕ → List ℕ
chain_from element [] tail = tail
chain_from element (e ∷ es) tail =
    if e == element then e ∷ tail else chain_from element es (e ∷ tail)

pub data Step : Type 0 where
  found : List ℕ → Step
  going : Search → Step

module _ (dependencies : ℕ → List ℕ) where
  -- With a dependency of the last element of the sequence, which lies at its index.
  unfoldable pub visit : ℕ → ℕ → ℕ → List (ℕ × ℕ) → List ℕ → Step
  visit element this index rest validated =
      let advanced = (this, suc index) ∷ rest in
      if contains (this ∷ elements_of rest) element
      then found (chain_from element (this ∷ elements_of rest) (element ∷ []))
      else if contains validated element
      then going (record { sequence = advanced; validated = validated })
      else going (record { sequence = (element, 0) ∷ advanced; validated = validated })

  -- The body of the loop, on a sequence that is not empty.
  unfoldable pub look : ℕ → ℕ → List (ℕ × ℕ) → List ℕ → Step
  unfolding visit
  look this index rest validated = elim (get_elem? (dependencies this) index) [
    | some element ↦ visit element this index rest validated
    | none ↦ going (record { sequence = rest; validated = this ∷ validated })
  ]

  unfoldable pub search : ℕ → List (ℕ × ℕ) → List ℕ → Verdict
  unfolding look
  search zero sequence validated = unfinished
  search (suc fuel) [] validated = all_validated
  search (suc fuel) ((this, index) ∷ rest) validated = elim (look this index rest validated) [
    | found chain ↦ circular chain
    | going next ↦ search fuel next.sequence next.validated
  ]

  -- _check_circular_deps
  unfoldable pub check_circular_deps : ℕ → ℕ → Verdict
  unfolding search
  check_circular_deps fuel top_element = search fuel ((top_element, 0) ∷ []) []
