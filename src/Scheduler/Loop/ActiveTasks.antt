-- ===== src/Scheduler/Loop/ActiveTasks.antt =====
-- The tasks of _state.py beside the active jobs of scheduler.py: the scheduler may run inside a
-- `simple_task`, whose own task is in the same state.
use buildstream.Common.{
  ℕ, ◌+◌, ◌<◌, ◌≡◌, refl, ap, ◌∙◌, subst, true, false, List, [], ◌∷◌, ◌++◌, arith, All, All-weaken,
  append_assoc, contains,
}
use buildstream.State.{without}
use buildstream.Scheduler.Loop.ActiveJobs.{
  IsUnique, IsUnique-snoc, IsUnique-without, contains-append,
}

-- The tasks are those that were there before the scheduler, and after them those of the jobs. No
-- two have the same id, and no new job gets the id of one.
pub record HasTasks (next_id : ℕ) (tasks jobs : List ℕ) : Type 0 where
  pub outer : List ℕ
  pub split : tasks ≡ outer ++ jobs
  pub known : All (λ i. i < next_id) outer
  pub unique : IsUnique tasks

contains-known : (n : ℕ) (xs : List ℕ) → All (λ i. i < n) xs → contains xs n ≡ false
contains-known n [] h = refl
contains-known n (x ∷ xs) h = ground (arith, h.0, contains-known n xs h.1)

without-append :
    (xs ys : List ℕ) (i : ℕ)
    → contains ys i ≡ true
    → IsUnique (xs ++ ys)
    → without (xs ++ ys) i ≡ xs ++ without ys i
unfolding without
without-append [] ys i h u = refl
without-append (x ∷ xs) ys i h u =
    ground (arith, without-append xs ys i h u.1, contains-append xs ys x, u.0)

module _ (n : ℕ) (tasks jobs : List ℕ) (h : HasTasks n tasks jobs) where
  pub HasTasks-fresh : contains jobs n ≡ false → contains tasks n ≡ false
  HasTasks-fresh f =
      rw (h.split, contains-append h.outer jobs n, contains-known n h.outer h.known) f

  pub HasTasks-there : (i : ℕ) → contains jobs i ≡ true → contains tasks i ≡ true
  HasTasks-there i f =
      ap (λ ts. contains ts i) h.split ∙ contains-append h.outer jobs i ∙ ground (arith, f)

  pub HasTasks-snoc : contains jobs n ≡ false → HasTasks (n + 1) (tasks ++ n ∷ []) (jobs ++ n ∷ [])
  HasTasks-snoc f = record {
    outer = h.outer;
    split = ap (λ (ts : List ℕ). ts ++ n ∷ []) h.split ∙ append_assoc h.outer jobs (n ∷ []);
    known = All-weaken (λ i. i < n) (λ i. i < n + 1) h.outer (λ i p. omega (arith, p)) h.known;
    unique = IsUnique-snoc tasks n (HasTasks-fresh f) h.unique;
  }

  pub HasTasks-without :
      (i : ℕ) → contains jobs i ≡ true → HasTasks n (without tasks i) (without jobs i)
  HasTasks-without i f = record {
    outer = h.outer;
    split =
        ap (λ ts. without ts i) h.split
        ∙ without-append h.outer jobs i f (subst IsUnique h.split h.unique);
    known = h.known;
    unique = IsUnique-without i tasks h.unique;
  }
