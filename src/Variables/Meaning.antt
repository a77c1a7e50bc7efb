-- ===== src/Variables/Meaning.antt =====
-- src/buildstream/_variables.pyx: what a variable stands for, apart from any caching.
use buildstream.Common.{
  ℕ, zero, suc, ◌+◌, ◌≡◌, refl, ◌∙◌, ap, subst, Bool, true, false, [], ◌∷◌, ◌++◌, if◌then◌else◌,
  Option, none, some, arith,
}
use buildstream.Options.Texts.{Text}
use buildstream.Options.Pool.{find}
use buildstream.Variables.{Expression, Values, is_unresolved}

abbrev pub prepend : Text → Option Text → Option Text
prepend text none = none
prepend text (some rest) = some (text ++ rest)

abbrev pub prepend_value : Option Text → Option Text → Option Text
prepend_value none rest = none
prepend_value (some text) rest = prepend text rest

abbrev pub text_of_parts : (Text → Option Text) → Bool → Expression → Option Text
text_of_parts f literal [] = some []
text_of_parts f true (text ∷ e) = prepend text (text_of_parts f false e)
text_of_parts f false (name ∷ e) = prepend_value (f name) (text_of_parts f true e)

abbrev pub text_at : Expression → Option Text
text_at [] = none
text_at (text ∷ _) = some text

abbrev pub text_in_entry : (Expression → Option Text) → Option Expression → Option Text
text_in_entry f none = none
text_in_entry f (some e) = if is_unresolved e then f e else text_at e

-- The text of an expression, with references followed to this depth.
unfoldable pub text_of : ℕ → Values → Expression → Option Text
text_of zero values e = none
text_of (suc n) values e =
    text_of_parts (λ name. text_in_entry (text_of n values) (find name values)) true e

-- The text of a variable.
unfoldable pub value_of : ℕ → Values → Text → Option Text
unfolding text_of
value_of n values name = text_in_entry (text_of n values) (find name values)

abbrev pub Extends {ℓ} : {A : Type ℓ} → (f g : A → Option Text) → Type ℓ
Extends {A = A} f g = (a : A) (text : Text) → f a ≡ some text → g a ≡ some text

pub prepend-Extends :
    (x : Text) (p q : Option Text) (text : Text)
    → ((rest : Text) → p ≡ some rest → q ≡ some rest)
    → prepend x p ≡ some text
    → prepend x q ≡ some text
prepend-Extends x none q text h eq = ground arith
prepend-Extends x (some rest) q text h eq = ap (prepend x) (h rest refl) ∙ eq

pub prepend_value-Extends :
    (a b p q : Option Text) (text : Text)
    → ((x : Text) → a ≡ some x → b ≡ some x)
    → ((rest : Text) → p ≡ some rest → q ≡ some rest)
    → prepend_value a p ≡ some text
    → prepend_value b q ≡ some text
prepend_value-Extends none b p q text g h eq = ground arith
prepend_value-Extends (some x) b p q text g h eq =
    ap (λ o. prepend_value o q) (g x refl) ∙ prepend-Extends x p q text h eq

pub text_of_parts-Extends :
    (f g : Text → Option Text) (literal : Bool)
    → Extends f g
    → Extends (text_of_parts f literal) (text_of_parts g literal)
text_of_parts-Extends f g literal h [] text eq = eq
text_of_parts-Extends f g true h (x ∷ e) text eq =
    prepend-Extends x _ _ text (text_of_parts-Extends f g false h e) eq
text_of_parts-Extends f g false h (x ∷ e) text eq =
    prepend_value-Extends (f x) (g x) _ _ text (h x) (text_of_parts-Extends f g true h e) eq

pub text_in_entry-Extends :
    (f g : Expression → Option Text) → Extends f g → Extends (text_in_entry f) (text_in_entry g)
text_in_entry-Extends f g h none text eq = eq
text_in_entry-Extends f g h (some e) text eq = ground (arith, h e text)

-- Where two tables hold different entries, their values at some depths may still agree.
pub step-Extends :
    (values : Values) (n m : ℕ)
    → Extends (text_of n values) (text_of m values)
    → Extends (text_of (suc n) values) (text_of (suc m) values)
unfolding text_of
step-Extends values n m h e text eq =
    text_of_parts-Extends _ _ true
      (λ name. text_in_entry-Extends (text_of n values) (text_of m values) h (find name values)) e
      text eq

text_of-suc : (n : ℕ) (values : Values) → Extends (text_of n values) (text_of (suc n) values)
unfolding text_of
text_of-suc zero values e text eq = ground arith
text_of-suc (suc n) values e text eq =
    step-Extends values n (suc n) (text_of-suc n values) e text eq

-- A greater depth finds the same text.
pub text_of-deeper :
    (k n : ℕ) (values : Values) → Extends (text_of n values) (text_of (k + n) values)
text_of-deeper zero n values e text eq =
    subst (λ j. text_of j values e ≡ some text) (omega arith) eq
text_of-deeper (suc k) n values e text eq =
    subst (λ j. text_of j values e ≡ some text) (omega arith)
      (text_of-suc (k + n) values e text (text_of-deeper k n values e text eq))

pub value_of-deeper :
    (k n : ℕ) (values : Values) → Extends (value_of n values) (value_of (k + n) values)
unfolding value_of
value_of-deeper k n values name =
    text_in_entry-Extends (text_of n values) (text_of (k + n) values) (text_of-deeper k n values)
      (find name values)

pub value_of_unique :
    (n m : ℕ) (values : Values) (name text other : Text)
    → value_of n values name ≡ some text
    → value_of m values name ≡ some other
    → text ≡ other
value_of_unique n m values name text other h k =
    let deep = value_of-deeper m n values name text h in
    let deep_too = value_of-deeper n m values name other k in grind (arith, deep, deep_too)
