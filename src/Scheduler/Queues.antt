-- ===== src/Scheduler/Queues.antt =====
-- src/buildstream/_scheduler/queues/queue.py: the queue that every concrete queue derives from.
-- `W` is the state of everything outside the scheduler: elements, workspaces, messages. What the
-- queue asks of it is the record `Host`; what a subclass overrides is the record `QueueClass`.
use buildstream.Common.{
  ℕ, ◌+◌, Bool, true, false, not, ◌&&◌, ◌||◌, Option, none, some, List, [], ◌∷◌, ◌++◌, ◌==◌, ltb,
  leb, if◌then◌else◌, contains, Outcome, ok, raise, Error, impl_error, plugin_error, load_error,
  pipeline_error, value_error, ◌>>=◌, ◌>>◌, assert, any,
}
use buildstream.State.{without, TaskGroup, add_processed_task, add_skipped_task, add_failed_task}
use buildstream.Scheduler.Resources.{
  ResourceType, member, Resources, reserve, release, download, upload,
}
pub mod Fairness
pub mod Completion
pub mod Usable

pub data QueueStatus : Type 0 where
  pending skip ready : QueueStatus

-- JobStatus: OK, FAIL and SKIPPED
pub data JobStatus : Type 0 where
  succeeded failed skipped : JobStatus

-- How a call that may raise ended: it returned, raised a `BstError`, or raised anything else.
pub data Ending : Type 0 where
  returned bst_error exception : Ending

pub data MessageType : Type 0 where
  error bug info : MessageType

-- A call that runs callbacks of elements: it ends, or a callback makes an element enter the queue,
-- and the call goes on in the world that this leaves.
pub data Activity (W : Type 0) : Type 0 where
  finished : Ending → W → Activity W
  enters : ℕ → W → (W → Activity W) → Activity W

module _ (W : Type 0) where
  pub record Host : Type 0 where
    pub is_required : ℕ → W → Bool
    pub set_required_callback : ℕ → W → W
    pub depth : ℕ → W → ℕ
    pub has_workspace : ℕ → W → Bool
    pub update_workspace : ℕ → W → Outcome (Bool × W)
    pub save_config : W → Ending × W
    pub set_last_task_error : W → W
    pub message : MessageType → ℕ → W → W

  -- `register_pending_element` is `none` where the class does not override it, and the base class
  -- raises `ImplError`.
  pub record QueueClass (R : Type 0) : Type 0 where
    pub resources : List ResourceType
    pub status : ℕ → W → Outcome (QueueStatus × W)
    pub done : ℕ → Option R → JobStatus → W → Activity W
    pub register_pending_element : ℕ → Option (W → W)

-- An entry of the heap: the element's depth, the number under which it came, the element.
pub record Entry : Type 0 where
  pub depth : ℕ
  pub order : ℕ
  pub element : ℕ

-- The order of the tuples; the numbers differ, so that elements are never compared.
abbrev pub before : Entry → Entry → Bool
before a b = ltb a.depth b.depth || (a.depth == b.depth && ltb a.order b.order)

-- `heapq` over such tuples pops the least one. The heap is kept as the list in which its
-- entries would be popped.
pub heappush : Entry → List Entry → List Entry
heappush e [] = e ∷ []
heappush e (x ∷ xs) = if before e x then e ∷ x ∷ xs else x ∷ heappush e xs

pub record Queue : Type 0 where
  pub ready_queue : List Entry
  pub done_queue : List ℕ
  pub queued_elements : ℕ
  pub required_element_check : Bool
  pub session_elements : Option (List ℕ)
  pub task_group : TaskGroup
  pub imperative : Bool

-- How often a job of the class may be retried.
unfoldable pub max_retries : List ResourceType → ℕ → ℕ
max_retries resources network_retries =
    if member resources upload || member resources download then network_retries else 0

-- session_elements.add(element), on a set
unfoldable pub add_session : ℕ → Option (List ℕ) → Option (List ℕ)
add_session e none = none
add_session e (some es) = some (if contains es e then es else es ++ e ∷ [])

module _ {W R : Type 0} (host : Host W) (class : QueueClass W R) where
  register : Option (W → W) → Queue → W → Outcome (Queue × W)
  register none q w = raise impl_error
  register (some callback) q w = ok (q, callback w)

  -- What `_enqueue_element` does at each status.
  pub place : QueueStatus → ℕ → Queue → W → Outcome (Queue × W)
  unfolding register
  place skip e q w = ok (
    record q { task_group = add_skipped_task q.task_group; done_queue = q.done_queue ++ e ∷ [] },
    w,
  )
  place ready e q w = ok (
    record q {
      ready_queue =
          heappush (record { depth = host.depth e w; order = q.queued_elements; element = e })
            q.ready_queue;
      queued_elements = q.queued_elements + 1;
    },
    w,
  )
  place pending e q w = register (class.register_pending_element e) q w

  pub enqueue_element : ℕ → Queue → W → Outcome (Queue × W)
  unfolding place
  enqueue_element e q w = do
    (status, w') ← class.status e w
    place status e (record q { session_elements = add_session e q.session_elements }) w'

  enqueue_one : ℕ → Queue → W → Outcome (Queue × W)
  enqueue_one e q w =
      if q.required_element_check && not (host.is_required e w)
      then ok (q, host.set_required_callback e w)
      else enqueue_element e q w

  pub enqueue : List ℕ → Queue → W → Outcome (Queue × W)
  enqueue [] q w = ok (q, w)
  enqueue (e ∷ es) q w = enqueue_one e q w >>= λ (q', w'). enqueue es q' w'

  -- The loop of `harvest_jobs`: the elements popped, what stays, and the resources.
  harvest : List Entry → Resources → List ℕ × List Entry × Resources
  harvest [] pool = ([], [], pool)
  harvest (x ∷ xs) pool =
      let (reserved, pool') = reserve pool class.resources [] false in
      let rest = harvest xs pool' in
      if reserved then (x.element ∷ rest.0, rest.1, rest.2) else ([], x ∷ xs, pool')

  pub harvest_jobs : Queue → Resources → List ℕ × Queue × Resources
  unfolding harvest
  harvest_jobs q pool =
      let (elements, left, pool') = harvest q.ready_queue pool in
      (elements, record q { ready_queue = left }, pool')

  -- workspaces.save_config(), whose exceptions become messages
  report_save : Ending → ℕ → W → W
  report_save returned e w = w
  report_save bst_error e w = host.message error e w
  report_save exception e w = host.message bug e w

  save_when : Bool → ℕ → W → W
  unfolding report_save
  save_when false e w = w
  save_when true e w = let (ending, w') = host.save_config w in report_save ending e w'

  unfoldable pub update_workspaces : ℕ → W → Outcome W
  unfolding save_when
  update_workspaces e w =
      if host.has_workspace e w
      then (host.update_workspace e w >>= λ (changed, w'). ok (save_when changed e w'))
      else ok w

  account : JobStatus → Bool → ℕ → TaskGroup → TaskGroup
  account skipped terminated e g = add_skipped_task g
  account succeeded terminated e g = if terminated then add_skipped_task g else add_processed_task g
  account failed terminated e g = if terminated then add_skipped_task g else add_failed_task e g

  -- After `done`: the handlers of its exceptions, and the `else` branch.
  finish : Ending → ℕ → JobStatus → Bool → Queue → W → Queue × W
  unfolding account
  finish returned e status terminated q w = (
    record q {
      done_queue = q.done_queue ++ e ∷ [];
      task_group = account status terminated e q.task_group;
    },
    w,
  )
  finish bst_error e status terminated q w = (
    record q { task_group = add_failed_task e q.task_group },
    host.set_last_task_error (host.message error e w),
  )
  finish exception e status terminated q w =
      (record q { task_group = add_failed_task e q.task_group }, host.message bug e w)

  -- Which handler of `_job_done` takes an error that a callback raised.
  handler_of : Error → Ending
  handler_of impl_error = bst_error
  handler_of plugin_error = bst_error
  handler_of load_error = bst_error
  handler_of pipeline_error = bst_error
  handler_of _ = exception

  -- Runs `done` with the callbacks that enter elements into this queue. One that raises ends it.
  pub perform : Activity W → Queue → Ending × Queue × W
  unfolding handler_of
  perform (finished ending w) q = (ending, q, w)
  perform (enters e w k) q = elim (enqueue_element e q w) [
    | ok (q', w') ↦ perform (k w') q'
    | raise raised ↦
        (handler_of raised, record q { session_elements = add_session e q.session_elements }, w)
  ]

  pub job_done :
      ℕ → JobStatus → Bool → Option R → Queue → W → Resources → Outcome (Queue × W × Resources)
  unfolding finish perform update_workspaces
  job_done e status terminated result q w pool = do
    pool' ← release pool class.resources
    w' ← update_workspaces e w
    let (ending, entered, w'') = perform (class.done e result status w') q
    let (q', w3) = finish ending e status terminated entered w''
    ok (q', w3, pool')

  -- `retry_job`, at the queue it finds: the element is no failed one any more, and enters it again.
  pub retry_job : ℕ → Queue → W → Outcome (Queue × W)
  retry_job e q w =
      let failed_tasks = without q.task_group.failed_tasks e in
      if contains q.task_group.failed_tasks e
      then enqueue (e ∷ [])
          (record q { task_group = record q.task_group { failed_tasks = failed_tasks } }) w
      else raise value_error

-- list(queue.dequeue())
unfoldable pub dequeue : Queue → List ℕ × Queue
dequeue q = (q.done_queue, record q { done_queue = [] })

abbrev pub is_nonempty {ℓ} : {A : Type ℓ} → List A → Bool
is_nonempty [] = false
is_nonempty (_ ∷ _) = true

unfoldable pub dequeue_ready : Queue → Bool
dequeue_ready q = is_nonempty q.done_queue

unfoldable pub any_failed_elements : Queue → Bool
any_failed_elements q = is_nonempty q.task_group.failed_tasks
