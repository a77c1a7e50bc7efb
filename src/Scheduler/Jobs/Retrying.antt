-- ===== src/Scheduler/Jobs/Retrying.antt =====
-- When jobs are started again (job.py), and how a terminated job ends.
use buildstream.Common.{
  ℕ, zero, suc, ◌+◌, ◌≤◌, ◌<◌, ◌≡◌, refl, Bool, true, false, some, leb, Outcome, ok, raise,
  diverged, Returns, ◌>>=◌, if◌then◌else◌, arith, ◌↔◌, ◌⊎◌,
}
use buildstream.Scheduler.Queues.{failed}
use buildstream.Scheduler.Jobs.{
  Job, start, terminate, ChildEnding, child_returned, skip_job, child_error, child_exception,
  terminate_exception, child_code, child_begin, child_end, to_return_code, status_of, ReturnCode,
  code_ok, code_fail, code_perm_fail, code_skipped, code_terminated, retries,
}

pub start_fresh :
    (j : Job)
    → j.terminated ≡ false
    → start j ≡ ok (record j { tries = j.tries + 1; has_task = true })
unfolding start
start_fresh j h = ground arith

-- A job is started again exactly after a temporary failure, within its tries, and not while the
-- scheduler terminates.
pub retries_iff :
    (code : ReturnCode) (terminated : Bool) (j : Job)
    → (retries code terminated j ≡ true
        → (code ≡ code_fail) × (j.tries ≤ j.max_retries) × (terminated ≡ false))
      × ((code ≡ code_fail)
          → j.tries ≤ j.max_retries
          → terminated ≡ false
          → retries code terminated j ≡ true)
unfolding retries
retries_iff ReturnCode.code_ok t j = (λ h. ground arith, λ a b c. ground arith)
retries_iff _ t j = (λ h. ground arith, λ a b c. ground arith)

-- The codes with which `child_action` can end and their numbers: what is sent is what is read.
abbrev pub return_number : ReturnCode → ℕ
return_number code_ok = 0
return_number code_fail = 1
return_number code_perm_fail = 2
return_number code_skipped = 3
return_number code_terminated = 4

pub to_return_code-return_number : (code : ReturnCode) → to_return_code (return_number code) ≡ code
unfolding to_return_code
to_return_code-return_number code_ok = refl
to_return_code-return_number _ = refl

-- Only a temporary `BstError` of the action makes a job start again; it does so while it has tries
-- left and the scheduler is not terminated. Every other ending is final.
pub retries-child_end :
    (ending : ChildEnding) (terminated : Bool) (j : Job)
    → (retries (child_end ending j).1 terminated j ≡ true)
      ↔ (ending ≡ child_error true) × (j.tries ≤ j.max_retries) × (terminated ≡ false)
unfolding retries child_end child_code
retries-child_end child_returned t j = (λ h. ground arith, λ h. ground arith)
retries-child_end skip_job t j = (λ h. ground arith, λ h. ground arith)
retries-child_end (child_error true) t j = (λ h. ground arith, λ h. ground arith)
retries-child_end (child_error false) t j = (λ h. ground arith, λ h. ground arith)
retries-child_end child_exception t j = (λ h. ground arith, λ h. ground arith)
retries-child_end terminate_exception t j = (λ h. ground arith, λ h. ground arith)

-- The tries of a job that fails with temporary errors until it is not started again.
pub tries_until : ℕ → Bool → Job → Outcome Job
tries_until zero terminated j = raise diverged
tries_until (suc fuel) terminated j = start j >>= λ j'.
    let again = tries_until fuel terminated j' in
    if retries code_fail terminated j' then again else ok j'

last : (tries max : ℕ) → tries ≡ max → leb (tries + 1) max ≡ false
last tries max h = ground arith

more : (tries max : ℕ) → tries < max → leb (tries + 1) max ≡ true
more tries max h = ground arith

-- A job that always fails temporarily is run once and then once for each retry, no more and no less.
pub tries_until_lem :
    (left fuel : ℕ) (j : Job)
    → j.terminated ≡ false
    → j.tries + left ≡ j.max_retries
    → left < fuel
    → Returns (λ j'. j'.tries ≡ j.max_retries + 1) (tries_until fuel false j)
unfolding tries_until retries
tries_until_lem left zero j t e l = elim l [ ]
tries_until_lem zero (suc fuel) j t e l =
    rw (start_fresh j t, last j.tries j.max_retries (omega arith)) (omega arith)
tries_until_lem (suc left) (suc fuel) j t e l =
    rw (start_fresh j t, more j.tries j.max_retries (omega arith))
      (tries_until_lem left fuel (record j { tries = j.tries + 1; has_task = true }) t (omega arith)
        (omega arith))

-- A job that was started and whose thread has not begun is not marked as terminated by
-- `terminate`; its thread then returns at once with TERMINATED, which completes it as failed.
pub terminate_unstarted :
    (j : Job)
    → j.has_task ≡ true
    → j.thread ≡ false
    → ((terminate j).terminated ≡ j.terminated)
      × ((child_begin true (terminate j)).1 ≡ some code_terminated)
      × (status_of code_terminated ≡ failed)
unfolding terminate child_begin status_of
terminate_unstarted j h t = (ground arith, ground arith, refl)

-- `terminate` marks a job whose thread runs, and one that has no task, as terminated.
pub terminate_running :
    (j : Job)
    → (j.has_task ≡ false) ⊎ ((j.should_terminate ≡ false) × (j.thread ≡ true))
    → (terminate j).terminated ≡ true
unfolding terminate
terminate_running j h = ground arith
