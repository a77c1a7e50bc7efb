-- ===== src/Pipeline/Selection/Asserting.antt =====
-- src/buildstream/_pipeline.py, assert_consistent and assert_sources_cached: when they pass.
use buildstream.Common.{
  ◌≡◌, refl, Bool, true, false, List, [], ◌∷◌, All, Option, none, if◌then◌else◌, select, arith,
}
use buildstream.Pipeline.Selection.{
  Checked, Complaint, inconsistent_pipeline, inconsistent_workspaced, is_inconsistent,
  is_workspaced, complain, assert_consistent,
}

select-none :
    (p : Checked → Bool) (es : List Checked) → All (λ e. p e ≡ false) es → select p es ≡ []
select-none p [] h = refl
select-none p (e ∷ es) h = ground (arith, select-none p es h.1)

complain-cons :
    (reason : List Checked → Complaint) (e : Checked) (chosen : List Checked) (b : Bool)
    (rest : Option Complaint)
    → complain reason (if b then e ∷ chosen else chosen) rest ≡ none
    → (b ≡ false) × complain reason chosen rest ≡ none
unfolding complain
complain-cons reason e chosen true rest h = ground arith
complain-cons reason e chosen false rest h = (refl, h)

complain-none :
    (reason : List Checked → Complaint) (p : Checked → Bool) (es : List Checked)
    (rest : Option Complaint)
    → complain reason (select p es) rest ≡ none
    → All (λ e. p e ≡ false) es × rest ≡ none
unfolding complain
complain-none reason p [] rest h = (tt, h)
complain-none reason p (e ∷ es) rest h =
    let (n, h') = complain-cons reason e (select p es) (p e) rest h in
    let (ns, m) = complain-none reason p es rest h' in ((n, ns), m)

resolved_of :
    (es : List Checked)
    → All (λ e. is_inconsistent e ≡ false) es
    → All (λ e. is_workspaced e ≡ false) es
    → All (λ e. e.has_all_sources_resolved ≡ true) es
resolved_of [] h k = tt
resolved_of (e ∷ es) h k = (ground arith, resolved_of es h.1 k.1)

complaint_free :
    (p : Checked → Bool) (reason : List Checked → Complaint) (es : List Checked)
    (rest : Option Complaint)
    → All (λ e. p e ≡ false) es
    → rest ≡ none
    → complain reason (select p es) rest ≡ none
unfolding complain
complaint_free p reason es rest h n = rw (select-none p es h, n)

unresolved_none :
    (es : List Checked)
    → All (λ e. e.has_all_sources_resolved ≡ true) es
    → All (λ e. is_inconsistent e ≡ false) es × All (λ e. is_workspaced e ≡ false) es
unresolved_none [] h = (tt, tt)
unresolved_none (e ∷ es) h =
    let (a, b) = unresolved_none es h.1 in ((ground arith, a), (ground arith, b))

-- The assertion on consistency passes exactly when all sources of all elements are resolved,
-- whether an element has a workspace or not.
pub assert_consistent-none :
    (es : List Checked)
    → (assert_consistent es ≡ none → All (λ e. e.has_all_sources_resolved ≡ true) es)
      × (All (λ e. e.has_all_sources_resolved ≡ true) es → assert_consistent es ≡ none)
unfolding assert_consistent
assert_consistent-none es = (
  λ h.
      let (a, h') = complain-none inconsistent_pipeline is_inconsistent es _ h in
      let (b, _) = complain-none inconsistent_workspaced is_workspaced es none h' in
      resolved_of es a b,
  λ h.
      let (a, b) = unresolved_none es h in
      complaint_free is_inconsistent inconsistent_pipeline es _ a
        (complaint_free is_workspaced inconsistent_workspaced es none b refl),
)
