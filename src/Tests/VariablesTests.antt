-- ===== src/Tests/VariablesTests.antt =====
-- Variables at concrete inputs: prefix is "/usr", bindir is "%{prefix}/bin" and tool "%{bindir}/cc".
use buildstream.Common.{All, ◌≡◌, refl, Bool, true, false, [], ◌∷◌, some, Outcome, ok}
use buildstream.Options.Texts.{Text, codes, same_text}
use buildstream.Variables.{Values, expand_entry, fast_expand_value_expression, fast_expand_var}
use buildstream.Variables.Meaning.{text_of, value_of}
use buildstream.Variables.Caching.{Keeps}
use buildstream.Variables.Expanding.{IsCorrect, fast_expand_var-IsCorrect}
use buildstream.Variables.Resolving.{
  keys_of, levels, check_circular, queue_name, queue_parts, queue_steps, resolve_parts,
  resolve_entries, slow_expand_value_expression, slow_expand_var, expand_var, check,
  slow_expand_value_expression-literal,
}
use buildstream.Variables.Reading.{expand_var-value_of, check-IsResolvedTo, IsResolvedTo}

abbrev directories : Values
directories =
    (codes "prefix", codes "/usr" ∷ [])
    ∷ (codes "bindir", [] ∷ codes "prefix" ∷ codes "/bin" ∷ [])
    ∷ (codes "tool", [] ∷ codes "bindir" ∷ codes "/cc" ∷ [])
    ∷ []

abbrev gives : Text → Outcome Text → Bool
gives text (ok t) = same_text text t
gives text _ = false

tool-expanded :
    gives (codes "/usr/bin/cc") (fast_expand_var levels (codes "tool") directories).0 ≡ true
unfolding fast_expand_var fast_expand_value_expression expand_entry
tool-expanded = refl

-- The iterative resolution gives the value of the first reference.
tool-slowly : gives (codes "/usr/bin") (slow_expand_var 9 (codes "tool") directories).0 ≡ true
unfolding slow_expand_var slow_expand_value_expression queue_steps queue_parts queue_name
    check_circular resolve_entries resolve_parts
tool-slowly = refl

fast_expand_var-IsCorrect_example :
    IsCorrect directories levels
      (λ n. value_of n directories (codes "tool"))
      (fast_expand_var levels (codes "tool") directories)
fast_expand_var-IsCorrect_example = fast_expand_var-IsCorrect levels (codes "tool") directories

tool-value_of : value_of levels directories (codes "tool") ≡ some (codes "/usr/bin/cc")
unfolding value_of text_of
tool-value_of = refl

expand_var-value_of_example :
    (u : Values) × (expand_var 9 (codes "tool") directories ≡ (ok (codes "/usr/bin/cc"), u))
    × Keeps directories u
expand_var-value_of_example =
    expand_var-value_of 9 (codes "tool") (codes "/usr/bin/cc") directories tool-value_of

prefix-value_of : value_of levels directories (codes "prefix") ≡ some (codes "/usr")
unfolding value_of text_of
prefix-value_of = refl

bindir-value_of : value_of levels directories (codes "bindir") ≡ some (codes "/usr/bin")
unfolding value_of text_of
bindir-value_of = refl

check-IsResolvedTo_example :
    (u : Values) × (check 9 directories ≡ (ok tt, u))
    × Keeps directories u
    × All (IsResolvedTo directories u) (keys_of directories)
check-IsResolvedTo_example = check-IsResolvedTo 9 directories (
  (codes "/usr", prefix-value_of),
  ((codes "/usr/bin", bindir-value_of), ((codes "/usr/bin/cc", tool-value_of), tt)),
)

slow_expand_value_expression-literal_example :
    slow_expand_value_expression 9
      (some (codes "tool"))
      (codes "/opt" ∷ codes "bindir" ∷ [])
      directories
    ≡ slow_expand_value_expression 9 (some (codes "tool")) ([] ∷ codes "bindir" ∷ []) directories
slow_expand_value_expression-literal_example =
    slow_expand_value_expression-literal 9 (some (codes "tool")) (codes "/opt") []
      (codes "bindir" ∷ []) directories
