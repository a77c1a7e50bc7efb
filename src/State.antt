-- ===== src/State.antt =====
-- src/buildstream/_state.py: task groups and tasks, as the scheduler and its queues use them.
-- The registered callbacks are left out. That of a failed task may ask the user, who may retry the
-- job, stop or terminate (src/buildstream/_frontend/app.py): these are events of Scheduler.Loop.
use buildstream.Common.{
  ℕ, ◌+◌, ◌≡◌, true, false, not, List, [], ◌∷◌, ◌++◌, ◌==◌, if◌then◌else◌, contains, Outcome, ok,
  raise, key_error, ◌>>◌, assert,
}

-- The failed tasks are listed by the full names of their elements; an element is its unique id.
pub record TaskGroup : Type 0 where
  pub processed_tasks : ℕ
  pub skipped_tasks : ℕ
  pub failed_tasks : List ℕ

abbrev pub new_task_group : TaskGroup
new_task_group = record { processed_tasks = 0; skipped_tasks = 0; failed_tasks = [] }

unfoldable pub add_processed_task : TaskGroup → TaskGroup
add_processed_task g = record g { processed_tasks = g.processed_tasks + 1 }

unfoldable pub add_skipped_task : TaskGroup → TaskGroup
add_skipped_task g = record g { skipped_tasks = g.skipped_tasks + 1 }

unfoldable pub add_failed_task : ℕ → TaskGroup → TaskGroup
add_failed_task full_name g = record g { failed_tasks = g.failed_tasks ++ full_name ∷ [] }

-- The active tasks by their ids, and the failures that were announced.
pub record State : Type 0 where
  pub tasks : List ℕ
  pub announced : List ℕ

unfoldable pub add_task : ℕ → State → Outcome State
add_task task_id s = do
  assert (not (contains s.tasks task_id))
  ok (record s { tasks = s.tasks ++ task_id ∷ [] })

pub add_task_fresh :
    (task_id : ℕ) (s : State)
    → contains s.tasks task_id ≡ false
    → add_task task_id s ≡ ok (record s { tasks = s.tasks ++ task_id ∷ [] })
unfolding add_task
add_task_fresh task_id s h = rw h

-- del self.tasks[task_id]
unfoldable pub without : List ℕ → ℕ → List ℕ
without [] a = []
without (x ∷ xs) a = if x == a then xs else x ∷ without xs a

unfoldable pub remove_task : ℕ → State → Outcome State
unfolding without
remove_task task_id s =
    if contains s.tasks task_id
    then ok (record s { tasks = without s.tasks task_id })
    else raise key_error

unfoldable pub fail_task : ℕ → State → State
fail_task task_id s = record s { announced = s.announced ++ task_id ∷ [] }

pub remove_task_there :
    (task_id : ℕ) (s : State)
    → contains s.tasks task_id ≡ true
    → remove_task task_id s ≡ ok (record s { tasks = without s.tasks task_id })
unfolding remove_task
remove_task_there task_id s h = rw h
