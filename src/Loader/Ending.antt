-- ===== src/Loader/Ending.antt =====
-- src/buildstream/_loader/loader.py: the check of circular dependencies ends, with what it finds.
use buildstream.Common.{
  ℕ, zero, suc, ◌+◌, ◌-◌, ◌<◌, ◌≤◌, ◌≡◌, refl, ◌∙◌, ap, Bool, true, false, ◌||◌, List, [], ◌∷◌,
  ◌==◌, ==→eq, ==_refl, Bool-cases, either, contains, get_elem?, length, if◌then◌else◌, Option,
  none, some, Never, inl, inr, arith,
}
use buildstream.Loader.{
  Verdict, all_validated, circular, unfinished, Search, elements_of, Step, found, going, visit,
  look, search, check_circular_deps,
}
use buildstream.Loader.Circles.{IsAcyclic, IsCircle, Judges, check_circular_deps-Judges}

get_elem?-lt : (xs : List ℕ) (i d : ℕ) → get_elem? xs i ≡ some d → i < length xs
get_elem?-lt [] i d h = absurd (ground (arith, h))
get_elem?-lt (x ∷ xs) zero d h = omega arith
get_elem?-lt (x ∷ xs) (suc i) d h = omega (arith, get_elem?-lt xs i d h)

get_elem?-le : (xs : List ℕ) (i : ℕ) → get_elem? xs i ≡ none → length xs ≤ i
get_elem?-le [] i h = omega arith
get_elem?-le (x ∷ xs) zero h = absurd (ground (arith, h))
get_elem?-le (x ∷ xs) (suc i) h = omega (arith, get_elem?-le xs i h)

module _ (dependencies : ℕ → List ℕ) where
  -- How often the loop may look at elements that were not met yet.
  abbrev pub unmet : (ℕ → Bool) → List ℕ → ℕ
  unmet met [] = 0
  unmet met (n ∷ ns) = (if met n then 0 else suc (length (dependencies n))) + unmet met ns

  abbrev More : (ℕ → Bool) → (ℕ → Bool) → Type 0
  More met later = (n : ℕ) → met n ≡ true → later n ≡ true

  unmet-More : (met later : ℕ → Bool) (ns : List ℕ) → More met later → unmet later ns ≤ unmet met ns
  unmet-More met later [] h = omega arith
  unmet-More met later (n ∷ ns) h = ground (arith, h n, unmet-More met later ns h)

  unmet-less :
      (met later : ℕ → Bool) (e : ℕ) (ns : List ℕ)
      → More met later
      → met e ≡ false
      → later e ≡ true
      → contains ns e ≡ true
      → unmet later ns + suc (length (dependencies e)) ≤ unmet met ns
  unmet-less met later e [] h new seen c = absurd (ground (arith, c))
  unmet-less met later e (n ∷ ns) h new seen c = elim (Bool-cases (n == e)) [
    | inl same ↦
        let met_n : met n ≡ false = ap met (==→eq n e same) ∙ new in
        let later_n : later n ≡ true = ap later (==→eq n e same) ∙ seen in
        let long : length (dependencies n) ≡ length (dependencies e) =
          ap (λ m. length (dependencies m)) (==→eq n e same) in
        ground (arith, met_n, later_n, long, unmet-More met later ns h)
    | inr other ↦
        let rest = unmet-less met later e ns h new seen (ground (arith, c, other)) in
        ground (arith, h n, rest)
  ]

  abbrev met_in : List (ℕ × ℕ) → List ℕ → ℕ → Bool
  met_in sequence validated n = contains (elements_of sequence) n || contains validated n

  abbrev left_in : List (ℕ × ℕ) → ℕ
  left_in [] = 0
  left_in ((e, i) ∷ rest) = suc (length (dependencies e) - i) + left_in rest

  abbrev Ends : Verdict → Type 0
  Ends unfinished = Never
  Ends all_validated = Unit
  Ends (circular chain) = Unit

  module _ (nodes : List ℕ)
      (closed : (e i d : ℕ) → get_elem? (dependencies e) i ≡ some d → contains nodes d ≡ true) where
    abbrev left : List (ℕ × ℕ) → List ℕ → ℕ
    left sequence validated = left_in sequence + unmet (met_in sequence validated) nodes

    abbrev IsLess : ℕ → Step → Type 0
    IsLess m (found chain) = Unit
    IsLess m (going next) = left next.sequence next.validated < m

    visit-IsLess :
        (element this index : ℕ) (rest : List (ℕ × ℕ)) (validated : List ℕ)
        → get_elem? (dependencies this) index ≡ some element
        → IsLess
            (left ((this, index) ∷ rest) validated)
            (visit dependencies element this index rest validated)
    unfolding visit
    visit-IsLess element this index rest validated eq =
        either (IsLess _) (contains (this ∷ elements_of rest) element) _ _ (λ c. tt)
          (λ fresh.
            either (IsLess _) (contains validated element) _ _
              (λ c. omega (arith, get_elem?-lt (dependencies this) index element eq))
              (λ unvisited. omega (
                arith,
                get_elem?-lt (dependencies this) index element eq,
                unmet-less (met_in ((this, index) ∷ rest) validated)
                    (met_in ((element, 0) ∷ (this, suc index) ∷ rest) validated) element nodes
                    (λ n h. ground (arith, h)) (ground (arith, fresh, unvisited))
                    (ground (arith, ==_refl element)) (closed this index element eq),
              )))

    look-IsLess :
        (this index : ℕ) (rest : List (ℕ × ℕ)) (validated : List ℕ) (dependency : Option ℕ)
        → get_elem? (dependencies this) index ≡ dependency
        → IsLess (left ((this, index) ∷ rest) validated) (elim dependency [
          | some element ↦ visit dependencies element this index rest validated
          | none ↦ going (record { sequence = rest; validated = this ∷ validated })
        ])
    look-IsLess this index rest validated (some element) eq =
        visit-IsLess element this index rest validated eq
    look-IsLess this index rest validated none eq = omega (
      arith,
      unmet-More (met_in ((this, index) ∷ rest) validated) (met_in rest (this ∷ validated)) nodes
          (λ n h. ground (arith, h)),
    )

    goes_on-Ends :
        (run : Search → Verdict) (m : ℕ) (step : Step)
        → IsLess m step
        → ((next : Search) → left next.sequence next.validated < m → Ends (run next))
        → Ends (elim step [ found chain ↦ circular chain | going next ↦ run next ])
    goes_on-Ends run m (found chain) c h = tt
    goes_on-Ends run m (going next) c h = h next c

    search-Ends :
        (fuel : ℕ) (sequence : List (ℕ × ℕ)) (validated : List ℕ)
        → left sequence validated < fuel
        → Ends (search dependencies fuel sequence validated)
    unfolding search look
    search-Ends zero sequence validated h = absurd (omega (arith, h))
    search-Ends (suc fuel) [] validated h = tt
    search-Ends (suc fuel) ((this, index) ∷ rest) validated h =
        goes_on-Ends (λ next. search dependencies fuel next.sequence next.validated)
          (left ((this, index) ∷ rest) validated) (look dependencies this index rest validated)
          (look-IsLess this index rest validated (get_elem? (dependencies this) index) refl)
          (λ next c. search-Ends fuel next.sequence next.validated (omega (arith, c, h)))

  -- What the verdict means, which is not that the loop was cut off.
  abbrev pub Settles : ℕ → Verdict → Type 0
  Settles top all_validated = IsAcyclic dependencies top
  Settles top (circular chain) = IsCircle dependencies chain
  Settles top unfinished = Never

  Judges-Settles : (top : ℕ) (v : Verdict) → Judges dependencies top v → Ends v → Settles top v
  Judges-Settles top all_validated h e = h
  Judges-Settles top (circular chain) h e = h
  Judges-Settles top unfinished h e = e

  -- Over finitely many nodes that hold all dependencies, the check ends: either what the top element
  -- depends on, also indirectly, has no circle, or the chain that it reports is one, from an element
  -- by dependencies back to that element.
  pub check_circular_deps-Settles :
      (nodes : List ℕ) (top fuel : ℕ)
      → ((e i d : ℕ) → get_elem? (dependencies e) i ≡ some d → contains nodes d ≡ true)
      → suc (length (dependencies top)) + unmet (λ _. false) nodes < fuel
      → Settles top (check_circular_deps dependencies fuel top)
  unfolding check_circular_deps
  check_circular_deps-Settles nodes top fuel closed enough =
      Judges-Settles top (search dependencies fuel ((top, 0) ∷ []) [])
        (check_circular_deps-Judges dependencies top fuel)
        (search-Ends nodes closed fuel ((top, 0) ∷ []) [] (
          omega (
            arith,
            enough,
            unmet-More (λ _. false) (met_in ((top, 0) ∷ []) []) nodes
                (λ n h. absurd (ground (arith, h))),
          )))
