-- ===== src/Variables.antt =====
-- src/buildstream/_variables.pyx: the variables of an element, and how references to them are
-- resolved. A value expression is the list that the regular expression splits: a literal at an even
-- position, the name of a variable at an odd one. A method returns its result or its exception, and
-- the table of values that it leaves.
use buildstream.Common.{
  ℕ, zero, suc, Bool, true, false, List, [], ◌∷◌, ◌++◌, ltb, length, if◌then◌else◌, Option, none,
  some, Outcome, ok, raise, key_error, index_error, recursion_error,
}
use buildstream.Options.Texts.{Text}
use buildstream.Options.Pool.{find, put}
pub mod Meaning
pub mod Caching
pub mod Expanding
pub mod Resolving
pub mod Reading

abbrev pub Expression : Type 0
Expression = List Text

abbrev pub Values : Type 0
Values = List (Text × Expression)

abbrev pub Run : Type 0
Run = Outcome Text × Values

abbrev pub after : Run → (Text → Values → Run) → Run
after (ok text, values) next = next text values
after (raise error, values) next = (raise error, values)

abbrev pub max_recursion_depth : ℕ
max_recursion_depth = 200

-- value_expression[0]
abbrev pub first : Expression → Outcome Text
first [] = raise index_error
first (text ∷ _) = ok text

-- if len(value_expression) > 1
abbrev pub is_unresolved : Expression → Bool
is_unresolved e = ltb 1 (length e)

-- The loop of _fast_expand_value_expression, from a literal or from a name.
abbrev pub fast_expand_parts : (Text → Values → Run) → Bool → Expression → Values → Run
fast_expand_parts expand_var literal [] values = (ok [], values)
fast_expand_parts expand_var true (text ∷ e) values =
    after (fast_expand_parts expand_var false e values) (λ rest u. (ok (text ++ rest), u))
fast_expand_parts expand_var false (name ∷ e) values =
    after (expand_var name values)
      (λ text u. after (fast_expand_parts expand_var true e u) (λ rest v. (ok (text ++ rest), v)))

abbrev pub store : Text → Run → Run
store name run = after run (λ text values. (ok text, put name (text ∷ []) values))

-- _fast_expand_var, over the expansion of the expression that it finds
unfoldable pub expand_entry : (Expression → Values → Run) → Text → Values → Run
expand_entry expand name values = elim (find name values) [
  | none ↦ (raise key_error, values)
  | some e ↦ if is_unresolved e then store name (expand e values) else (first e, values)
]

-- How many more levels of recursion are permitted, in place of the counter.
unfoldable pub fast_expand_value_expression : ℕ → Expression → Values → Run
unfolding expand_entry
fast_expand_value_expression zero e values = (raise recursion_error, values)
fast_expand_value_expression (suc left) e values =
    fast_expand_parts (expand_entry (fast_expand_value_expression left)) true e values

unfoldable pub fast_expand_var : ℕ → Text → Values → Run
unfolding expand_entry fast_expand_value_expression
fast_expand_var left = expand_entry (fast_expand_value_expression left)
