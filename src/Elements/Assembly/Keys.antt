-- ===== src/Elements/Assembly/Keys.antt =====
-- src/buildstream/element.py: the keys of an element.
use buildstream.Common.{
  ℕ, ◌≡◌, refl, Bool, true, false, not, List, [], ◌∷◌, map, if◌then◌else◌, all, arith, Option, none,
  some, ok, assert, Returns, Returns-bind, Returns-if, ◌>>◌,
}
use buildstream.Elements.{
  Element, Elements, Graph, DependencyKey, keyed, is_whole, has, calculate_cache_key,
}
use buildstream.Elements.Assembly.Completing.{assert-Returns}
use buildstream.Elements.Counting.{put-each}
use buildstream.Elements.Assembly.{or_calculated, weak_entries, calculated_keys, update_cache_keys}

-- An element that has its strict key has its weak key.
abbrev pub IsKeyed : Element → Type 0
IsKeyed x = has x.strict_cache_key ≡ true → has x.weak_cache_key ≡ true

-- Where every dependency that has its strict key has its weak key, an entry of the weak key is
-- whole if the entry of the strict key is.
weak_entries-whole :
    (strict_of : ℕ → Bool) (s : Elements) (ds : List ℕ)
    → ((i : ℕ) → IsKeyed (s.state i))
    → all is_whole (map (λ d. keyed d (s.state d).strict_cache_key) ds) ≡ true
    → all is_whole (weak_entries strict_of s ds) ≡ true
unfolding weak_entries
weak_entries-whole strict_of s [] h w = refl
weak_entries-whole strict_of s (d ∷ ds) h w =
    ground (arith, h d, weak_entries-whole strict_of s ds h)

-- The keys are nested, and in strict mode the strong key is the strict one.
abbrev pub HasKeys : Bool → Element → Type 0
HasKeys strict y =
    IsKeyed y × (strict ≡ true → has y.strict_cache_key ≡ true → y.cache_key ≡ y.strict_cache_key)

or_calculated-has : (w : Option ℕ) (k : ℕ) → has (or_calculated w (some k)) ≡ true
or_calculated-has none k = refl
or_calculated-has (some w) k = refl

-- `b` says whether the entries of the strict key are whole, and `c` those of the weak key.
keys_of_entries :
    (strict b c : Bool) (weak_key key : ℕ) (x : Element)
    → (b ≡ true → c ≡ true)
    → Returns (HasKeys strict) (
        let weak = or_calculated x.weak_cache_key (if c then some weak_key else none) in
        let strong = if b then some key else none in
        let y : Element = record x { weak_cache_key = weak; strict_cache_key = strong } in
        if not (has strong)
        then ok y
        else assert (has weak)
          >> ok (record y { cache_key = if strict then strong else y.cache_key }))
keys_of_entries strict false c weak_key key x h =
    (λ k. absurd (ground arith), λ _ k. absurd (ground arith))
keys_of_entries strict true c weak_key key x h =
    let weak = or_calculated x.weak_cache_key (if c then some weak_key else none) in
    let w : has weak ≡ true = rw (h refl) (or_calculated-has x.weak_cache_key weak_key) in
    Returns-bind (λ _. Unit {0}) _ (assert (has weak)) _ (assert-Returns (has weak) w)
      (λ _ _. (λ _. w, λ m _. rw m refl))

module _ (graph : Graph) (generate : ℕ → List DependencyKey → Option ℕ → ℕ) where
  calculated_keys-keyed :
      (strict : Bool) (strict_of : ℕ → Bool) (e : ℕ) (s : Elements)
      → ((i : ℕ) → IsKeyed (s.state i))
      → Returns (HasKeys strict) (calculated_keys graph generate strict strict_of e s)
  unfolding calculated_keys calculate_cache_key
  calculated_keys-keyed strict strict_of e s h =
      keys_of_entries strict
        (all is_whole (map (λ d. keyed d (s.state d).strict_cache_key) (graph.build_scope e)))
        (all is_whole (weak_entries strict_of s (graph.build_scope e))) _ _ (s.state e)
        (weak_entries-whole strict_of s (graph.build_scope e) h)

  -- With every element that has its strict key having its weak key, the keys of an element are
  -- calculated without a failing assertion, and still every element is so.
  pub update_cache_keys-IsKeyed :
      (strict : Bool) (strict_of : ℕ → Bool) (e : ℕ) (s : Elements)
      → ((i : ℕ) → IsKeyed (s.state i))
      → Returns
          (λ s'. (i : ℕ) → IsKeyed (s'.state i))
          (update_cache_keys graph generate strict strict_of e s)
  unfolding update_cache_keys
  update_cache_keys-IsKeyed strict strict_of e s h =
      Returns-if _ (has (s.state e).strict_cache_key) _ _
        (λ k.
          Returns-bind (λ _. Unit {0}) _ (assert (has (s.state e).weak_cache_key)) _
            (assert-Returns (has (s.state e).weak_cache_key) (h e k)) (λ _ _. h))
        (λ _.
          Returns-if _ (not (s.state e).sources.is_resolved) (ok s) _ (λ _. h)
            (λ _.
              Returns-bind (HasKeys strict) _ (calculated_keys graph generate strict strict_of e s)
                _ (calculated_keys-keyed strict strict_of e s h)
                (λ y k i. put-each (λ _ z. IsKeyed z) e y s i (λ _. h i) k.0)))
