-- ===== src/Scheduler/Loop/ActiveJobs.antt =====
-- The list of active jobs of scheduler.py: what its jobs hold, and their ids.
use buildstream.Common.{
  ℕ, ◌+◌, ◌<◌, ◌≡◌, refl, sym, ap, ◌∙◌, Bool, true, false, some, ◌||◌, List, [], ◌∷◌, ◌++◌, map,
  arith, ◌==◌, All, contains, Bool-cases, inl, inr, subst,
}
use buildstream.State.{without}
use buildstream.Scheduler.Resources.{ResourceType}
use buildstream.Scheduler.Resources.Accounting.{uses}
use buildstream.Scheduler.Queues.{QueueClass}
use buildstream.Scheduler.Jobs.{Job, terminate}
use buildstream.Scheduler.Loop.{find_job, remove_job, replace_job}

abbrev pub ids : List Job → List ℕ
ids = map (λ j. j.id)

abbrev pub IsUnique : List ℕ → Type 0
IsUnique [] = Unit
IsUnique (x ∷ xs) = (contains xs x ≡ false) × IsUnique xs

-- A queue that there is, an id that was given, and no termination before the scheduler's.
abbrev pub IsValid : ℕ → ℕ → Bool → Job → Type 0
IsValid queues next_id terminated j =
    (j.queue < queues) × (j.id < next_id) × (j.terminated ≡ true → terminated ≡ true)

some_eq : {x y : Job} → some x ≡ some y → x ≡ y
some_eq h = cc

terminate-queue : (j : Job) → (terminate j).queue ≡ j.queue
unfolding terminate
terminate-queue j = ground arith

pub find_job-id : (id : ℕ) (js : List Job) (j : Job) → find_job id js ≡ some j → j.id ≡ id
unfolding find_job
find_job-id id [] j h = cc
find_job-id id (k ∷ ks) j h = ground (arith, find_job-id id ks j)

pub find_job-All {ℓ} :
    (P : Job → Type ℓ) (id : ℕ) (js : List Job) (j : Job) → find_job id js ≡ some j → All P js → P j
unfolding find_job
find_job-All P id [] j h a = cc
find_job-All P id (k ∷ ks) j h a = elim (Bool-cases (k.id == id)) [
  | inl e ↦ subst P (some_eq (rw e at h)) a.0
  | inr e ↦ find_job-All P id ks j (rw e at h) a.1
]

pub contains-find_job :
    (id : ℕ) (js : List Job) (j : Job) → find_job id js ≡ some j → contains (ids js) id ≡ true
unfolding find_job
contains-find_job id [] j h = cc
contains-find_job id (k ∷ ks) j h = ground (arith, contains-find_job id ks j)

pub ids-remove_job : (id : ℕ) (js : List Job) → ids (remove_job id js) ≡ without (ids js) id
unfolding remove_job without
ids-remove_job id [] = refl
ids-remove_job id (k ∷ ks) = ground (arith, ids-remove_job id ks)

pub All-remove_job {ℓ} :
    (P : Job → Type ℓ) (id : ℕ) (js : List Job) → All P js → All P (remove_job id js)
unfolding remove_job
All-remove_job P id [] a = tt
All-remove_job P id (k ∷ ks) a = elim (Bool-cases (k.id == id)) [
  | inl e ↦ rw e a.1
  | inr e ↦ rw e (a.0, All-remove_job P id ks a.1)
]

pub All-replace_job {ℓ} :
    (P : Job → Type ℓ) (j : Job) (js : List Job) → P j → All P js → All P (replace_job j js)
unfolding replace_job
All-replace_job P j [] h a = tt
All-replace_job P j (k ∷ ks) h a = elim (Bool-cases (k.id == j.id)) [
  | inl e ↦ rw e (h, a.1)
  | inr e ↦ rw e (a.0, All-replace_job P j ks h a.1)
]

pub ids-replace_job : (j : Job) (js : List Job) → ids (replace_job j js) ≡ ids js
unfolding replace_job
ids-replace_job j [] = refl
ids-replace_job j (k ∷ ks) = ground (arith, ids-replace_job j ks)

contains-without :
    (a b : ℕ) (xs : List ℕ) → contains xs a ≡ false → contains (without xs b) a ≡ false
unfolding without
contains-without a b [] h = refl
contains-without a b (x ∷ xs) h = ground (arith, contains-without a b xs)

pub IsUnique-without : (b : ℕ) (xs : List ℕ) → IsUnique xs → IsUnique (without xs b)
unfolding without
IsUnique-without b [] u = tt
IsUnique-without b (x ∷ xs) u = elim (Bool-cases (x == b)) [
  | inl e ↦ rw e u.1
  | inr e ↦ rw e (contains-without x b xs u.0, IsUnique-without b xs u.1)
]

pub contains-append :
    (xs ys : List ℕ) (a : ℕ) → contains (xs ++ ys) a ≡ (contains xs a || contains ys a)
contains-append [] ys a = refl
contains-append (x ∷ xs) ys a = ground (arith, contains-append xs ys a)

pub IsUnique-snoc :
    (xs : List ℕ) (a : ℕ) → contains xs a ≡ false → IsUnique xs → IsUnique (xs ++ a ∷ [])
IsUnique-snoc [] a h u = (refl, tt)
IsUnique-snoc (x ∷ xs) a h u =
    (ground (arith, contains-append xs (a ∷ []) x, u.0), IsUnique-snoc xs a (ground arith) u.1)

-- An id that is not given yet is no active job's.
pub contains-fresh :
    (n m : ℕ) (b : Bool) (js : List Job) → All (IsValid n m b) js → contains (ids js) m ≡ false
contains-fresh n m b [] a = refl
contains-fresh n m b (k ∷ ks) a = ground (arith, contains-fresh n m b ks a.1, a.0)

module _ {W R : Type 0} (classes : ℕ → QueueClass W R) where
  -- What the jobs hold of a resource: each what its queue's class reserves.
  abbrev pub held : List Job → ResourceType → ℕ
  held [] t = 0
  held (j ∷ js) t = uses (classes j.queue).resources t + held js t

  pub held-append :
      (js ks : List Job) (t : ResourceType) → held (js ++ ks) t ≡ held js t + held ks t
  held-append [] ks t = omega arith
  held-append (j ∷ js) ks t = omega (arith, held-append js ks t)

  pub held-remove_job :
      (id : ℕ) (js : List Job) (j : Job) (t : ResourceType)
      → find_job id js ≡ some j
      → held js t ≡ uses (classes j.queue).resources t + held (remove_job id js) t
  unfolding find_job remove_job
  held-remove_job id [] j t h = cc
  held-remove_job id (k ∷ ks) j t h = elim (Bool-cases (k.id == id)) [
    | inl e ↦
        rw e
          (ap (λ (x : Job). uses (classes x.queue).resources t + held ks t) (some_eq (rw e at h)))
    | inr e ↦ rw e (omega (arith, held-remove_job id ks j t (rw e at h)))
  ]

  pub held-replace_job :
      (j' j : Job) (js : List Job) (t : ResourceType)
      → find_job j'.id js ≡ some j
      → j'.queue ≡ j.queue
      → held (replace_job j' js) t ≡ held js t
  unfolding find_job replace_job
  held-replace_job j' j [] t h q = refl
  held-replace_job j' j (k ∷ ks) t h q = elim (Bool-cases (k.id == j'.id)) [
    | inl e ↦ rw e (
        ap (λ n. uses (classes n).resources t + held ks t)
          (q ∙ ap (λ (x : Job). x.queue) (sym (some_eq (rw e at h)))))
    | inr e ↦ rw e (omega (arith, held-replace_job j' j ks t (rw e at h) q))
  ]

  pub held-terminate : (js : List Job) (t : ResourceType) → held (map terminate js) t ≡ held js t
  held-terminate [] t = refl
  held-terminate (j ∷ js) t = rw terminate-queue (omega (arith, held-terminate js t))

pub ids-terminate : (js : List Job) → ids (map terminate js) ≡ ids js
unfolding terminate
ids-terminate [] = refl
ids-terminate (j ∷ js) = ground (arith, ids-terminate js)

pub All-terminate :
    (n m : ℕ) (b : Bool) (js : List Job)
    → b ≡ true
    → All (IsValid n m b) js
    → All (IsValid n m b) (map terminate js)
unfolding terminate
All-terminate n m b [] h a = tt
All-terminate n m b (j ∷ js) h a =
    ((ground (arith, a.0), ground (arith, a.0), λ _. h), All-terminate n m b js h a.1)
