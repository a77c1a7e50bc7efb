-- ===== src/Variables/Caching.antt =====
-- src/buildstream/_variables.pyx: a table in which a resolved value is stored keeps what every
-- variable stands for.
use buildstream.Common.{
  ℕ, zero, suc, ◌+◌, ◌≡◌, sym, ◌∙◌, ap, subst, true, Bool-cases, [], ◌∷◌, some, inl, inr, arith,
}
use buildstream.Options.Texts.{Text, same_text}
use buildstream.Options.Tables.{same_text-eq, find-put_same, find-put_other}
use buildstream.Options.Pool.{find, put}
use buildstream.Variables.{Values}
use buildstream.Variables.Meaning.{
  Extends, text_in_entry, text_of, value_of, text_of_parts-Extends, text_in_entry-Extends,
  value_of-deeper, value_of_unique,
}

module _ (depth : ℕ) (name value : Text) (values : Values)
    (means : value_of depth values name ≡ some value) where
  abbrev stored : Values
  stored = put name (value ∷ []) values

  value_of-put : (n : ℕ) → value_of n stored name ≡ some value
  unfolding value_of
  value_of-put n = ap (text_in_entry (text_of n stored)) (find-put_same name (value ∷ []) values)

  -- From the expressions to the names.
  into_stored :
      (n : ℕ)
      → Extends (text_of n values) (text_of n stored)
      → Extends (value_of n values) (value_of n stored)
  unfolding value_of
  into_stored n h x text eq = elim (Bool-cases (same_text name x)) [
    | inl same ↦
        subst (λ y. value_of n values y ≡ some text → value_of n stored y ≡ some text)
          (same_text-eq name x same)
          (λ eq'.
            value_of-put n ∙ ap some (value_of_unique depth n values name value text means eq'))
          eq
    | inr other ↦
        ap (text_in_entry (text_of n stored)) (find-put_other name x (value ∷ []) values other)
        ∙ text_in_entry-Extends (text_of n values) (text_of n stored) h (find x values) text eq
  ]

  text_of-put : (n : ℕ) → Extends (text_of n values) (text_of n stored)
  unfolding text_of value_of
  text_of-put zero e text eq = ground arith
  text_of-put (suc n) e text eq =
      text_of_parts-Extends _ _ true (into_stored n (text_of-put n)) e text eq

  out_of_stored :
      (n : ℕ)
      → Extends (text_of n stored) (text_of (n + depth) values)
      → Extends (value_of n stored) (value_of (n + depth) values)
  unfolding value_of
  out_of_stored n h x text eq = elim (Bool-cases (same_text name x)) [
    | inl same ↦
        subst (λ y. value_of n stored y ≡ some text → value_of (n + depth) values y ≡ some text)
          (same_text-eq name x same)
          (λ eq'. value_of-deeper n depth values name text (means ∙ sym (value_of-put n) ∙ eq')) eq
    | inr other ↦
        text_in_entry-Extends (text_of n stored) (text_of (n + depth) values) h (find x values) text
          (sym (
              ap (text_in_entry (text_of n stored))
                (find-put_other name x (value ∷ []) values other))
            ∙ eq)
  ]

  text_of-put_back : (n : ℕ) → Extends (text_of n stored) (text_of (n + depth) values)
  unfolding text_of value_of
  text_of-put_back zero e text eq = ground arith
  text_of-put_back (suc n) e text eq =
      subst (λ j. text_of j values e ≡ some text) {x = suc (n + depth)} (omega arith)
        (text_of_parts-Extends _ _ true (out_of_stored n (text_of-put_back n)) e text eq)

-- The later table knows every value of the earlier one at the same depth, and no others.
abbrev pub Keeps : Values → Values → Type 0
Keeps values later =
    ((n : ℕ) → Extends (value_of n values) (value_of n later))
    × ((n : ℕ) → (k : ℕ) × Extends (value_of n later) (value_of (n + k) values))

pub Keeps-refl : (values : Values) → Keeps values values
Keeps-refl values = (
  λ n x text eq. eq,
  λ n. (0, λ x text eq. subst (λ j. value_of j values x ≡ some text) (omega arith) eq),
)

pub Keeps-trans : (a b c : Values) → Keeps a b → Keeps b c → Keeps a c
Keeps-trans a b c h k = (
  λ n x text eq. k.0 n x text (h.0 n x text eq),
  λ n.
      let back = k.1 n in
      let further = h.1 (n + back.0) in
      (
        back.0 + further.0,
        λ x text eq.
            subst (λ j. value_of j a x ≡ some text) (omega arith)
              (further.1 x text (back.1 x text eq)),
      ),
)

pub put-Keeps :
    (depth : ℕ) (name value : Text) (values : Values)
    → value_of depth values name ≡ some value
    → Keeps values (put name (value ∷ []) values)
put-Keeps depth name value values means = (
  λ n. into_stored depth name value values means n (text_of-put depth name value values means n),
  λ n. (
    depth,
    out_of_stored depth name value values means n
        (text_of-put_back depth name value values means n),
  ),
)

-- Expressions follow the names in them.
pub Keeps-text_of :
    (values later : Values)
    → Keeps values later
    → (n : ℕ) → Extends (text_of n values) (text_of n later)
unfolding text_of value_of
Keeps-text_of values later h zero e text eq = ground arith
Keeps-text_of values later h (suc n) e text eq =
    text_of_parts-Extends (value_of n values) (value_of n later) true (h.0 n) e text eq

pub Keeps-text_of_back :
    (values later : Values)
    → Keeps values later
    → (n : ℕ) → (k : ℕ) × Extends (text_of n later) (text_of (n + k) values)
unfolding text_of value_of
Keeps-text_of_back values later h zero = (0, λ e text eq. ground arith)
Keeps-text_of_back values later h (suc n) =
    let back = h.1 n in
    (
      back.0,
      λ e text eq.
          subst (λ j. text_of j values e ≡ some text) {x = suc (n + back.0)} (omega arith)
            (text_of_parts-Extends (value_of n later) (value_of (n + back.0) values) true back.1 e
              text eq),
    )
