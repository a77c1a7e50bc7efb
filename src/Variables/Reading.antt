-- ===== src/Variables/Reading.antt =====
-- src/buildstream/_variables.pyx: what the methods of Variables return for variables whose
-- references nest no deeper than the recursion permits.
use buildstream.Common.{
  subst, key_error, either, Option, none, true, false, if◌then◌else◌, ℕ, ◌≡◌, refl, ap, ◌∙◌, List,
  [], ◌∷◌, some, Outcome, ok, raise, All, All-weaken, arith,
}
use buildstream.Options.Texts.{Text}
use buildstream.Options.Pool.{find}
use buildstream.Options.Tables.{find-put_same}
use buildstream.Variables.{
  Values, Run, Expression, is_unresolved, first, store, expand_entry, fast_expand_value_expression,
  fast_expand_var,
}
use buildstream.Variables.Meaning.{value_of, value_of_unique, text_of, text_in_entry}
use buildstream.Variables.Caching.{Keeps, Keeps-refl, Keeps-trans}
use buildstream.Variables.Expanding.{fast_expand_var-IsCorrect}
use buildstream.Variables.Resolving.{
  levels, or_slowly, expand_var, checked_next, check_keys, check, keys_of,
}

or_slowly-ok :
    {A : Type 0} (wrap : Text → A) (slow : Values → Outcome A × Values) (run : Run) (text : Text)
    → run.0 ≡ ok text
    → or_slowly wrap slow run ≡ (ok (wrap text), run.1)
or_slowly-ok wrap slow (ok x, u) text h = ground (arith, h)
or_slowly-ok wrap slow (raise error, u) text h = absurd (ground (arith, h))

-- The variable is resolved to this text in the table.
abbrev pub IsResolved : Values → Text → Text → Type 0
IsResolved values name text = find name values ≡ some (text ∷ [])

value_at_once :
    (values : Values) (e : Option Expression) (text : Text)
    → text_in_entry (text_of 0 values) e ≡ some text
    → e ≡ some (text ∷ [])
unfolding text_of
value_at_once values none text h = absurd (ground (arith, h))
value_at_once values (some []) text h = absurd (ground (arith, h))
value_at_once values (some (x ∷ [])) text h = ground (arith, h)
value_at_once values (some (x ∷ y ∷ e)) text h =
    let long : is_unresolved (x ∷ y ∷ e) ≡ true = ground arith in absurd (ground (arith, long, h))

IsResolved-Keeps :
    (values later : Values) (name text : Text)
    → Keeps values later
    → IsResolved values name text
    → IsResolved later name text
unfolding value_of
IsResolved-Keeps values later name text keeps h =
    value_at_once later (find name later) text
      (keeps.0 0 name text (ap (text_in_entry (text_of 0 values)) h))

store-IsResolved :
    (name text : Text) (run : Run)
    → (store name run).0 ≡ ok text
    → IsResolved (store name run).1 name text
store-IsResolved name text (raise error, u) h = absurd (ground (arith, h))
store-IsResolved name text (ok x, u) h = find-put_same name (x ∷ []) u ∙ ground (arith, h)

first-alone :
    (e : Expression) (text : Text) → is_unresolved e ≡ false → first e ≡ ok text → e ≡ text ∷ []
first-alone [] text n h = absurd (ground (arith, h))
first-alone (x ∷ []) text n h = ground (arith, h)
first-alone (x ∷ y ∷ e) text n h = absurd (ground (arith, n))

entry-IsResolved :
    (expand : Expression → Values → Run) (name text : Text) (values : Values)
    (entry : Option Expression)
    → find name values ≡ entry
    → let run : Run = elim entry [
      | none ↦ (raise key_error, values)
      | some e ↦ if is_unresolved e then store name (expand e values) else (first e, values)
    ] in
      run.0 ≡ ok text → IsResolved run.1 name text
entry-IsResolved expand name text values none eq = λ h. absurd (ground (arith, h))
entry-IsResolved expand name text values (some e) eq =
    either (λ (r : Run). r.0 ≡ ok text → IsResolved r.1 name text) (is_unresolved e) _ _
      (λ long h. store-IsResolved name text (expand e values) h)
      (λ short h. eq ∙ ap some (first-alone e text short h))

fast_expand_var-IsResolved :
    (left : ℕ) (name text : Text) (values : Values)
    → (fast_expand_var left name values).0 ≡ ok text
    → IsResolved (fast_expand_var left name values).1 name text
unfolding fast_expand_var expand_entry
fast_expand_var-IsResolved left name text values h =
    entry-IsResolved (fast_expand_value_expression left) name text values (find name values) refl h

-- A variable whose references nest within the levels of the recursion expands to the text that it
-- stands for, and every variable keeps its own.
pub expand_var-value_of :
    (fuel : ℕ) (name text : Text) (values : Values)
    → value_of levels values name ≡ some text
    → (u : Values) × (expand_var fuel name values ≡ (ok text, u)) × Keeps values u
unfolding expand_var
expand_var-value_of fuel name text values h =
    let (keeps, sound, complete) = fast_expand_var-IsCorrect levels name values in
    let run = fast_expand_var levels name values in
    (run.1, or_slowly-ok (λ t. t) _ run text (complete text h), keeps)

abbrev pub HasValue : Values → Text → Type 0
HasValue values name = (text : Text) × (value_of levels values name ≡ some text)

expand_var-IsResolved :
    (fuel : ℕ) (name text : Text) (values : Values)
    → value_of levels values name ≡ some text
    → (u : Values) × (expand_var fuel name values ≡ (ok text, u))
      × Keeps values u
      × IsResolved u name text
unfolding expand_var
expand_var-IsResolved fuel name text values h =
    let (keeps, sound, complete) = fast_expand_var-IsCorrect levels name values in
    let run = fast_expand_var levels name values in
    (
      run.1,
      or_slowly-ok (λ t. t) _ run text (complete text h),
      keeps,
      fast_expand_var-IsResolved levels name text values (complete text h),
    )

-- What a variable stands for at first, resolved in the later table.
abbrev pub IsResolvedTo : Values → Values → Text → Type 0
IsResolvedTo values later name =
    (text : Text) × (value_of levels values name ≡ some text) × IsResolved later name text

same_texts :
    (values u w : Values) (names : List Text)
    → Keeps values u
    → All (HasValue values) names
    → All (IsResolvedTo u w) names
    → All (IsResolvedTo values w) names
same_texts values u w [] keeps h r = tt
same_texts values u w (x ∷ names) keeps ((text, v), h) ((other, k, found), r) = (
  (
    text,
    v,
    subst (IsResolved w x)
        (value_of_unique levels levels u x other text k (keeps.0 levels x text v)) found,
  ),
  same_texts values u w names keeps h r,
)

check_keys-IsResolvedTo :
    (fuel : ℕ) (names : List Text) (values : Values)
    → All (HasValue values) names
    → (u : Values) × (check_keys fuel names values ≡ (ok tt, u))
      × Keeps values u
      × All (IsResolvedTo values u) names
unfolding check_keys
check_keys-IsResolvedTo fuel [] values h = (values, refl, Keeps-refl values, tt)
check_keys-IsResolvedTo fuel (name ∷ names) values h =
    let (u, eq, keeps, resolved) = expand_var-IsResolved fuel name h.0.0 values h.0.1 in
    let values_of : All (HasValue u) names =
      All-weaken (HasValue values) (HasValue u) names (λ x v. (v.0, keeps.0 levels x v.0 v.1))
        h.1 in
    let (w, eq', keeps', rest) = check_keys-IsResolvedTo fuel names u values_of in
    (
      w,
      ap (λ r. checked_next r (check_keys fuel names)) eq ∙ eq',
      Keeps-trans values u w keeps keeps',
      (
        (h.0.0, h.0.1, IsResolved-Keeps u w name h.0.0 keeps' resolved),
        same_texts values u w names keeps h.1 rest,
      ),
    )

-- Where the references of all variables nest within the levels of the recursion, the check passes
-- and resolves every variable: the table then holds, under each name, just the text that the
-- variable stood for.
pub check-IsResolvedTo :
    (fuel : ℕ) (values : Values)
    → All (HasValue values) (keys_of values)
    → (u : Values) × (check fuel values ≡ (ok tt, u))
      × Keeps values u
      × All (IsResolvedTo values u) (keys_of values)
unfolding check
check-IsResolvedTo fuel values h = check_keys-IsResolvedTo fuel (keys_of values) values h
