-- ===== src/Variables/Resolving.antt =====
-- src/buildstream/_variables.pyx: the iterative resolution, and the methods of Variables, which try
-- the recursive expansion first. The loop over the steps takes fuel. A `referee` is none where a node
-- asks; names are the same object where they are the same text, since the source interns them.
use buildstream.Common.{
  ℕ, zero, suc, ◌≡◌, refl, ap, fun_ext, Bool, true, false, List, [], ◌∷◌, ◌++◌, any, if◌then◌else◌,
  Option, none, some, Outcome, ok, raise, ◌>>=◌, load_error, key_error, type_error, recursion_error,
  diverged,
}
use buildstream.Options.Texts.{Text, same_text}
use buildstream.Options.Pool.{find, put}
use buildstream.Variables.{
  Expression, Values, Run, max_recursion_depth, first, is_unresolved, fast_expand_var,
  fast_expand_value_expression,
}

-- The parents are given by their referees, the nearest first.
pub record ResolutionStep : Type 0 where
  pub referee : Option Text
  pub value_expression : Expression
  pub parents : List (Option Text)

abbrev pub same_referee : Option Text → Option Text → Bool
same_referee none none = true
same_referee none (some b) = false
same_referee (some a) none = false
same_referee (some a) (some b) = same_text a b

unfoldable pub check_circular : ResolutionStep → Outcome (Unit {0})
check_circular step =
    if any (same_referee step.referee) step.parents then raise load_error else ok tt

-- _get_checked_value_expression
abbrev pub checked_value_expression : Text → Values → Outcome Expression
checked_value_expression name values = elim (find name values) [
  | none ↦ raise load_error
  | some e ↦ ok e
]

-- What was met so far, the latest first, and the steps to take, the next one first.
pub record Queued : Type 0 where
  pub steps : List ResolutionStep
  pub resolved : List (Text × Expression)

unfoldable pub queue_name : ResolutionStep → Text → Expression → Queued → Queued
queue_name this name e q = record {
  steps =
      if is_unresolved e
      then record {
        referee = some name;
        value_expression = e;
        parents = this.referee ∷ this.parents;
      }
        ∷ q.steps
      else q.steps;
  resolved = (name, e) ∷ q.resolved;
}

-- The loop over the parts of a step's expression, from a literal or from a name.
unfoldable pub queue_parts : Values → ResolutionStep → Bool → Expression → Queued → Outcome Queued
unfolding queue_name
queue_parts values this literal [] q = ok q
queue_parts values this true (text ∷ e) q = queue_parts values this false e q
queue_parts values this false (name ∷ e) q = do
  found ← checked_value_expression name values
  queue_parts values this true e (queue_name this name found q)

unfoldable pub queue_steps : ℕ → Values → Queued → Outcome (List (Text × Expression))
unfolding check_circular queue_parts
queue_steps zero values q = raise diverged
queue_steps (suc fuel) values q = elim q.steps [
  | [] ↦ ok q.resolved
  | this ∷ steps ↦
      check_circular this
      >>= (λ _.
          queue_parts values this true this.value_expression
            (record { steps = steps; resolved = q.resolved }))
      >>= queue_steps fuel values
]

-- self._values[value][0]
abbrev pub resolved_text : Values → Text → Outcome Text
resolved_text values name = elim (find name values) [ none ↦ raise key_error | some e ↦ first e ]

unfoldable pub resolve_parts : Values → Bool → Expression → Outcome Text
resolve_parts values literal [] = ok []
resolve_parts values true (text ∷ e) = do rest ← resolve_parts values false e; ok (text ++ rest)
resolve_parts values false (name ∷ e) = do
  text ← resolved_text values name
  rest ← resolve_parts values true e
  ok (text ++ rest)

-- The second loop of _slow_expand_value_expression, from the latest entry to the first, with
-- `resolved_value`.
unfoldable pub resolve_entries :
    List (Text × Expression) → Option Text → Values → Outcome (Option Text) × Values
unfolding resolve_parts
resolve_entries [] resolved_value values = (ok resolved_value, values)
resolve_entries ((name, e) ∷ entries) resolved_value values =
    let kept = resolve_entries entries resolved_value values in
    let resolved : Outcome (Option Text) × Values = elim (resolve_parts values true e) [
      | ok text ↦ resolve_entries entries (some text) (put name (text ∷ []) values)
      | raise error ↦ (raise error, values)
    ] in
    if is_unresolved e then resolved else kept

unfoldable pub slow_expand_value_expression :
    ℕ → Option Text → Expression → Values → Outcome (Option Text) × Values
unfolding queue_steps resolve_entries
slow_expand_value_expression fuel varname e values =
    let root : ResolutionStep = record { referee = varname; value_expression = e; parents = [] } in
    elim (queue_steps fuel values (record { steps = root ∷ []; resolved = [] })) [
      | ok entries ↦ resolve_entries entries none values
      | raise error ↦ (raise error, values)
    ]

-- sys.intern(expanded) and the rest of _slow_expand_var
abbrev pub store_expanded : Text → Outcome (Option Text) × Values → Run
store_expanded name (ok (some text), values) = (ok text, put name (text ∷ []) values)
store_expanded name (ok none, values) = (raise type_error, values)
store_expanded name (raise error, values) = (raise error, values)

unfoldable pub slow_expand_var : ℕ → Text → Values → Run
unfolding slow_expand_value_expression
slow_expand_var fuel name values = elim (checked_value_expression name values) [
  | ok e ↦
      if is_unresolved e
      then store_expanded name (slow_expand_value_expression fuel (some name) e values)
      else (first e, values)
  | raise error ↦ (raise error, values)
]

-- except (KeyError, RecursionError)
abbrev pub or_slowly {ℓ} :
    {A : Type ℓ} → (Text → A) → (Values → Outcome A × Values) → Run → Outcome A × Values
or_slowly wrap slow (ok text, values) = (ok (wrap text), values)
or_slowly wrap slow (raise key_error, values) = slow values
or_slowly wrap slow (raise recursion_error, values) = slow values
or_slowly wrap slow (raise error, values) = (raise error, values)

-- The levels of recursion that a counter from 0 to the maximum permits.
abbrev pub levels : ℕ
levels = suc max_recursion_depth

unfoldable pub expand_var : ℕ → Text → Values → Run
unfolding fast_expand_var slow_expand_var
expand_var fuel name values =
    or_slowly (λ text. text) (slow_expand_var fuel name) (fast_expand_var levels name values)

-- _expand_value_expression, as subst calls it with a parsed scalar
unfoldable pub subst_expression : ℕ → Expression → Values → Outcome (Option Text) × Values
unfolding fast_expand_value_expression slow_expand_value_expression
subst_expression fuel e values =
    or_slowly some (slow_expand_value_expression fuel none e)
      (fast_expand_value_expression levels e values)

abbrev pub checked_next : Run → (Values → Outcome (Unit {0}) × Values) → Outcome (Unit {0}) × Values
checked_next (ok text, values) next = next values
checked_next (raise error, values) next = (raise error, values)

-- check(), over the keys of the table as it was
unfoldable pub check_keys : ℕ → List Text → Values → Outcome (Unit {0}) × Values
unfolding expand_var
check_keys fuel [] values = (ok tt, values)
check_keys fuel (name ∷ names) values =
    checked_next (expand_var fuel name values) (check_keys fuel names)

abbrev pub keys_of : Values → List Text
keys_of [] = []
keys_of ((name, e) ∷ values) = name ∷ keys_of values

unfoldable pub check : ℕ → Values → Outcome (Unit {0}) × Values
unfolding check_keys
check fuel values = check_keys fuel (keys_of values) values

-- get()
unfoldable pub get : ℕ → Text → Values → Outcome (Option Text) × Values
unfolding expand_var
get fuel name values = elim (find name values) [
  | none ↦ (ok none, values)
  | some _ ↦ let run = expand_var fuel name values in (run.0 >>= λ text. ok (some text), run.1)
]

module _ (values : Values) (referee : Option Text) (parents : List (Option Text))
    (a b : Expression) where
  abbrev with_expression : Expression → ResolutionStep
  with_expression e = record { referee = referee; value_expression = e; parents = parents }

  queue_parts-expression :
      (literal : Bool) (e : Expression) (q : Queued)
      → queue_parts values (with_expression a) literal e q
        ≡ queue_parts values (with_expression b) literal e q
  unfolding queue_parts queue_name
  queue_parts-expression literal [] q = refl
  queue_parts-expression true (text ∷ e) q = queue_parts-expression false e q
  queue_parts-expression false (name ∷ e) q =
      ap (λ next. checked_value_expression name values >>= next)
        (fun_ext
          λ found. queue_parts-expression true e (queue_name (with_expression a) name found q))

-- The iterative resolution of an expression does not read the literal at its head.
pub slow_expand_value_expression-literal :
    (fuel : ℕ) (varname : Option Text) (text other : Text) (e : Expression) (values : Values)
    → slow_expand_value_expression fuel varname (text ∷ e) values
      ≡ slow_expand_value_expression fuel varname (other ∷ e) values
unfolding slow_expand_value_expression queue_steps check_circular queue_parts
slow_expand_value_expression-literal zero varname text other e values = refl
slow_expand_value_expression-literal (suc fuel) varname text other e values =
    ap
      (λ queued. elim (queued >>= queue_steps fuel values) [
        | ok entries ↦ resolve_entries entries none values
        | raise error ↦ (raise error, values)
      ])
      (queue_parts-expression values varname [] (text ∷ e) (other ∷ e) false e
        (record { steps = []; resolved = [] }))
