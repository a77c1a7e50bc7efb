-- ===== src/Variables/Expanding.antt =====
-- src/buildstream/_variables.pyx: the recursive expansion, which stores what it resolves.
use buildstream.Common.{
  ℕ, zero, suc, ◌+◌, ◌≡◌, refl, sym, ◌∙◌, ap, subst, Bool, true, false, [], ◌∷◌, ◌++◌,
  if◌then◌else◌, Option, none, some, ok, raise, key_error, arith,
}
use buildstream.Options.Texts.{Text}
use buildstream.Options.Pool.{find, put}
use buildstream.Variables.{
  Expression, Values, Run, after, is_unresolved, first, fast_expand_parts, store, expand_entry,
  fast_expand_value_expression, fast_expand_var,
}
use buildstream.Variables.Meaning.{
  Extends, prepend, prepend_value, text_in_entry, text_of_parts, text_of, value_of, prepend-Extends,
  text_of_parts-Extends, value_of-deeper, text_at,
}
use buildstream.Variables.Caching.{Keeps, Keeps-refl, Keeps-trans, put-Keeps}

-- A run from a table to what `meaning` gives at some depth, if it gives it at this depth or if the
-- run ends well.
abbrev pub IsCorrect : Values → ℕ → (ℕ → Option Text) → Run → Type 0
IsCorrect values depth meaning run =
    Keeps values run.1
    × ((text : Text) → run.0 ≡ ok text → (n : ℕ) × (meaning n ≡ some text))
    × ((text : Text) → meaning depth ≡ some text → run.0 ≡ ok text)

prepend-inverse :
    (x : Text) (o : Option Text) (text : Text)
    → prepend x o ≡ some text
    → (rest : Text) × (o ≡ some rest) × (some (x ++ rest) ≡ some text)
prepend-inverse x none text h = absurd (ground (arith, h))
prepend-inverse x (some rest) text h = (rest, refl, h)

module _ (values : Values) (depth : ℕ) (x : Text) where
  literal-IsCorrect :
      (meaning : ℕ → Option Text) (run : Run)
      → IsCorrect values depth meaning run
      → IsCorrect values depth
          (λ n. prepend x (meaning n))
          (after run (λ rest u. (ok (x ++ rest), u)))
  literal-IsCorrect meaning (raise error, u) (keeps, sound, complete) = (
    keeps,
    λ text h. absurd (ground (arith, h)),
    λ text h.
        let (rest, eq, same) = prepend-inverse x (meaning depth) text h in
        absurd (ground (arith, complete rest eq)),
  )
  literal-IsCorrect meaning (ok rest, u) (keeps, sound, complete) = (
    keeps,
    λ text h. let (n, eq) = sound rest refl in (n, ap (prepend x) eq ∙ ground (arith, h)),
    λ text h.
        let (rest', eq, same) = prepend-inverse x (meaning depth) text h in
        ground (arith, complete rest' eq, same),
  )

prepend_value-inverse :
    (a o : Option Text) (text : Text)
    → prepend_value a o ≡ some text
    → (x : Text) × (a ≡ some x) × (prepend x o ≡ some text)
prepend_value-inverse none o text h = absurd (ground (arith, h))
prepend_value-inverse (some x) o text h = (x, refl, h)

abbrev parts : Bool → Expression → Values → ℕ → Option Text
parts literal e values n = text_of_parts (value_of n values) literal e

parts-Extends :
    (literal : Bool) (e : Expression) (values later : Values) (n m : ℕ)
    → Extends (value_of n values) (value_of m later)
    → (text : Text) → parts literal e values n ≡ some text
    → parts literal e later m ≡ some text
parts-Extends literal e values later n m h text eq =
    text_of_parts-Extends (value_of n values) (value_of m later) literal h e text eq

-- What follows a reference runs on the table that the reference leaves.
module _ (values : Values) (depth : ℕ) (name : Text) (e : Expression) where
  name-IsCorrect :
      (run : Run) (next : Text → Values → Run)
      → IsCorrect values depth (λ n. value_of n values name) run
      → ((x : Text) (u : Values) → IsCorrect u depth (λ n. prepend x (parts true e u n)) (next x u))
      → IsCorrect values depth
          (λ n. prepend_value (value_of n values name) (parts true e values n))
          (after run next)
  name-IsCorrect (raise error, u) next (keeps, sound, complete) follows = (
    keeps,
    λ text h. absurd (ground (arith, h)),
    λ text h.
        let (x, eq, same) = prepend_value-inverse (value_of depth values name) _ text h in
        absurd (ground (arith, complete x eq)),
  )
  name-IsCorrect (ok x, u) next (keeps, sound, complete) follows =
      let (keeps', sound', complete') = follows x u in
      (
        Keeps-trans values u (next x u).1 keeps keeps',
        λ text h.
            let (n, eq) = sound x refl in
            let (m, eq') = sound' text h in
            let (k, back) = keeps.1 m in
            let all : ℕ = m + k + n in
            let found : value_of all values name ≡ some x =
              value_of-deeper (m + k) n values name x eq in
            let further : Extends (value_of m u) (value_of all values) = λ y t eq_y.
              subst (λ j. value_of j values y ≡ some t) {x = n + (m + k)} (omega arith)
                (value_of-deeper n (m + k) values y t (back y t eq_y)) in
            (
              all,
              ap (λ o. prepend_value o (parts true e values all)) found
                  ∙ prepend-Extends x (parts true e u m) (parts true e values all) text
                      (parts-Extends true e u values m all further) eq',
            ),
        λ text h.
            let (y, eq, same) = prepend_value-inverse (value_of depth values name) _ text h in
            let same_x : prepend x (parts true e values depth) ≡ some text =
              ground (arith, same, complete y eq) in
            complete' text (
              prepend-Extends x (parts true e values depth) (parts true e u depth) text
                (parts-Extends true e values u depth depth (keeps.0 depth)) same_x),
      )

abbrev ExpandsNames : ℕ → (Text → Values → Run) → Type 0
ExpandsNames depth expand_var =
    (name : Text) (values : Values)
    → IsCorrect values depth (λ n. value_of n values name) (expand_var name values)

parts-IsCorrect :
    (depth : ℕ) (expand_var : Text → Values → Run)
    → ExpandsNames depth expand_var
    → (literal : Bool) (e : Expression) (values : Values)
    → IsCorrect values depth
        (parts literal e values)
        (fast_expand_parts expand_var literal e values)
parts-IsCorrect depth expand_var h literal [] values =
    (Keeps-refl values, λ text h. (0, ground (arith, h)), λ text h. ground (arith, h))
parts-IsCorrect depth expand_var h true (x ∷ e) values =
    literal-IsCorrect values depth x _ _ (parts-IsCorrect depth expand_var h false e values)
parts-IsCorrect depth expand_var h false (name ∷ e) values =
    name-IsCorrect values depth name e (expand_var name values) _ (h name values)
      (λ x u. literal-IsCorrect u depth x _ _ (parts-IsCorrect depth expand_var h true e u))

abbrev ExpandsExpressions : ℕ → (Expression → Values → Run) → Type 0
ExpandsExpressions depth expand =
    (e : Expression) (values : Values)
    → IsCorrect values depth (λ n. text_of n values e) (expand e values)

-- What the expression of a name expands to is stored under it.
store-IsCorrect :
    (values : Values) (depth : ℕ) (name : Text) (meaning : ℕ → Option Text) (run : Run)
    → ((n : ℕ) → meaning n ≡ value_of n values name)
    → IsCorrect values depth meaning run
    → IsCorrect values depth meaning (store name run)
store-IsCorrect values depth name meaning (raise error, u) same (keeps, sound, complete) =
    (keeps, sound, complete)
store-IsCorrect values depth name meaning (ok text, u) same (keeps, sound, complete) =
    let (n, eq) = sound text refl in
    (
      Keeps-trans values u (put name (text ∷ []) u) keeps
          (put-Keeps n name text u (keeps.0 n name text (sym (same n) ∙ eq))),
      sound,
      complete,
    )

first→text_at : (e : Expression) (text : Text) → first e ≡ ok text → text_at e ≡ some text
first→text_at [] text h = ground (arith, h)
first→text_at (x ∷ e) text h = ground (arith, h)

text_at→first : (e : Expression) (text : Text) → text_at e ≡ some text → first e ≡ ok text
text_at→first [] text h = ground (arith, h)
text_at→first (x ∷ e) text h = ground (arith, h)

module _ (depth : ℕ) (expand : Expression → Values → Run)
    (expands : ExpandsExpressions depth expand) (name : Text) (values : Values) where
  found-IsCorrect :
      (e : Expression) (unresolved : Bool)
      → find name values ≡ some e
      → is_unresolved e ≡ unresolved
      → IsCorrect values depth
          (λ n. if unresolved then text_of n values e else text_at e)
          (if unresolved then store name (expand e values) else (first e, values))
  unfolding value_of
  found-IsCorrect e true found eq =
      store-IsCorrect values depth name (λ n. text_of n values e) (expand e values)
        (λ n. sym (
          ap (text_in_entry (text_of n values)) found
          ∙ ap (λ b. if b then text_of n values e else text_at e) eq))
        (expands e values)
  found-IsCorrect e false found eq =
      (Keeps-refl values, λ text h. (0, first→text_at e text h), text_at→first e)

  entry-IsCorrect :
      (entry : Option Expression)
      → find name values ≡ entry
      → IsCorrect values depth
          (λ n. text_in_entry (text_of n values) entry)
          (elim entry [
            | none ↦ (raise key_error, values)
            | some e ↦ if is_unresolved e then store name (expand e values) else (first e, values)
          ])
  entry-IsCorrect none eq = (
    Keeps-refl values,
    λ text h. absurd (ground (arith, h)),
    λ text h. absurd (ground (arith, h)),
  )
  entry-IsCorrect (some e) eq = found-IsCorrect e (is_unresolved e) eq refl

  expand_entry-IsCorrect :
      IsCorrect values depth (λ n. value_of n values name) (expand_entry expand name values)
  unfolding expand_entry value_of
  expand_entry-IsCorrect = entry-IsCorrect (find name values) refl

fast_expand_value_expression-IsCorrect :
    (left : ℕ) → ExpandsExpressions left (fast_expand_value_expression left)
unfolding fast_expand_value_expression text_of value_of
fast_expand_value_expression-IsCorrect zero e values =
    (Keeps-refl values, λ text h. absurd (ground (arith, h)), λ text h. absurd (ground (arith, h)))
fast_expand_value_expression-IsCorrect (suc left) e values =
    let (keeps, sound, complete) =
      parts-IsCorrect left (expand_entry (fast_expand_value_expression left))
        (expand_entry-IsCorrect left (fast_expand_value_expression left)
          (fast_expand_value_expression-IsCorrect left))
        true e values in
    (keeps, λ text h. let (n, eq) = sound text h in (suc n, eq), complete)

-- What the recursive expansion of a variable returns is the text that the variable stands for
-- without any caching; it returns where the references nest no deeper than the levels left; and
-- however it ends, every variable stands for the same text before and after.
pub fast_expand_var-IsCorrect :
    (left : ℕ) (name : Text) (values : Values)
    → IsCorrect values left (λ n. value_of n values name) (fast_expand_var left name values)
unfolding fast_expand_var
fast_expand_var-IsCorrect left name values =
    expand_entry-IsCorrect left (fast_expand_value_expression left)
      (fast_expand_value_expression-IsCorrect left) name values
