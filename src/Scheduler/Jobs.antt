-- ===== src/Scheduler/Jobs.antt =====
-- src/buildstream/_scheduler/jobs/job.py and elementjob.py: a job's life in the main thread and
-- in the thread that runs its action.
use buildstream.Common.{
  ℕ, zero, suc, ◌+◌, Bool, true, false, not, ◌&&◌, ◌||◌, Option, none, some, List, [], ◌∷◌, ◌==◌,
  ltb, leb, if◌then◌else◌, Outcome, ok, raise, ◌>>=◌, ◌>>◌, assert,
}
use buildstream.Scheduler.Queues.{JobStatus, succeeded, failed, skipped}
pub mod Retrying

-- _ReturnCode: OK 0, FAIL 1, PERM_FAIL 2, SKIPPED 3, TERMINATED 4
pub data ReturnCode : Type 0 where
  code_ok code_fail code_perm_fail code_skipped code_terminated : ReturnCode

-- A job of queue number `queue` for an element. `thread` tells whether `_thread_id` is set.
pub record Job : Type 0 where
  pub id : ℕ
  pub queue : ℕ
  pub element : ℕ
  pub max_retries : ℕ
  pub tries : ℕ
  pub terminated : Bool
  pub has_task : Bool
  pub thread : Bool
  pub should_terminate : Bool

abbrev pub new_job : ℕ → ℕ → ℕ → ℕ → Job
new_job id queue element max_retries = record {
  id = id;
  queue = queue;
  element = element;
  max_retries = max_retries;
  tries = 0;
  terminated = false;
  has_task = false;
  thread = false;
  should_terminate = false;
}

unfoldable pub start : Job → Outcome Job
start j = do assert (not j.terminated); ok (record j { tries = j.tries + 1; has_task = true })

-- The returns inside `if self._task` skip the last line, which sets `_terminated`.
unfoldable pub terminate : Job → Job
terminate j =
    if j.has_task
    then (if j.should_terminate
        then j
        else if j.thread
        then record j { should_terminate = true; terminated = true }
        else record j { should_terminate = true })
    else record j { terminated = true }

-- How `child_process` ended: it returned, raised `SkipJob`, a `BstError` that is temporary or not,
-- another exception, or the `TerminateException` of `terminate_thread`.
pub data ChildEnding : Type 0 where
  child_returned skip_job : ChildEnding
  child_error : (temporary : Bool) → ChildEnding
  child_exception terminate_exception : ChildEnding

unfoldable pub child_code : ChildEnding → ReturnCode
child_code child_returned = code_ok
child_code skip_job = code_skipped
child_code (child_error temporary) = if temporary then code_fail else code_perm_fail
child_code child_exception = code_perm_fail
child_code terminate_exception = code_terminated

-- `child_action` up to its call of `child_process`: the code with which it returns early, if the
-- log file cannot be opened or the job was asked to terminate before its thread began.
unfoldable pub child_begin : Bool → Job → Job × Option ReturnCode
child_begin log_opened j =
    if log_opened
    then (record j { thread = true }, if j.should_terminate then some code_terminated else none)
    else (record j { thread = false }, some code_perm_fail)

-- `child_action` from there on
unfoldable pub child_end : ChildEnding → Job → Job × ReturnCode
child_end ending j = (record j { thread = false }, child_code ending)

-- _ReturnCode(returncode), where an unknown number is a permanent failure
unfoldable pub to_return_code : ℕ → ReturnCode
to_return_code zero = code_ok
to_return_code (suc zero) = code_fail
to_return_code (suc (suc zero)) = code_perm_fail
to_return_code (suc (suc (suc zero))) = code_skipped
to_return_code (suc (suc (suc (suc zero)))) = code_terminated
to_return_code _ = code_perm_fail

abbrev pub is_fail : ReturnCode → Bool
is_fail code_fail = true
is_fail _ = false

unfoldable pub status_of : ReturnCode → JobStatus
status_of code_ok = succeeded
status_of code_skipped = skipped
status_of _ = failed

-- Whether `_parent_child_completed` starts the job again.
unfoldable pub retries : ReturnCode → Bool → Job → Bool
retries code scheduler_terminated j =
    is_fail code && leb j.tries j.max_retries && not scheduler_terminated
