-- ===== src/Scheduler/Queues/Completion.antt =====
-- What queue.py does when a job completes: resources, counters and the done queue.
use buildstream.Common.{
  ℕ, ◌+◌, ◌≤◌, ◌≡◌, refl, sym, ap, ◌∙◌, Bool, Bool-cases, inl, inr, Option, none, some, List, [],
  ◌∷◌, ◌++◌, append-nil, append_assoc, arith, Returns, Ensures, Ensures-bind, Ensures-any, Outcome,
  ok, raise, ◌-◌, ◌≢◌, length, length-append,
}
use buildstream.State.{TaskGroup, add_processed_task, add_skipped_task, add_failed_task}
use buildstream.Scheduler.Resources.{ResourceType, Resources}
use buildstream.Scheduler.Resources.Accounting.{uses, release_lem}
use buildstream.Scheduler.Queues.{
  Host, QueueClass, QueueStatus, pending, skip, ready, Activity, finished, enters, perform,
  register, place, enqueue_element, add_session, save_when, handler_of, Entry, heappush, Queue,
  JobStatus, succeeded, failed, skipped, Ending, returned, bst_error, exception, account, finish,
  update_workspaces, job_done,
}
use buildstream.Scheduler.Queues.Fairness.{IsOrdered, place-IsOrdered}

abbrev pub total : TaskGroup → ℕ
total g = g.processed_tasks + g.skipped_tasks + length g.failed_tasks

Ensures-later :
    {A : Type 0} (H : Type 0) (P : A → Type 0) (m : Outcome A)
    → (H → Ensures P m)
    → Ensures (λ a. H → P a) m
Ensures-later H P (ok a) f = f
Ensures-later H P (raise raised) f = tt

module _ {W R : Type 0} (host : Host W) (class : QueueClass W R) where
  account-total :
      (status : JobStatus) (terminated : Bool) (e : ℕ) (g : TaskGroup)
      → total (account host class status terminated e g) ≡ total g + 1
  unfolding account add_processed_task add_skipped_task add_failed_task
  account-total skipped b e g = omega arith
  account-total succeeded b e g = ground arith
  account-total failed b e g = ground (arith, length-append {0} g.failed_tasks (e ∷ []))

  finish-total :
      (ending : Ending) (e : ℕ) (status : JobStatus) (terminated : Bool) (q : Queue) (w : W)
      → total (finish host class ending e status terminated q w).0.task_group
        ≡ total q.task_group + 1
  unfolding finish add_failed_task
  finish-total returned e status b q w = account-total status b e q.task_group
  finish-total bst_error e status b q w =
      omega (arith, length-append {0} q.task_group.failed_tasks (e ∷ []))
  finish-total exception e status b q w =
      omega (arith, length-append {0} q.task_group.failed_tasks (e ∷ []))

  -- What entering elements does to a queue: some are skipped, and the heap grows by those that get
  -- a number.
  pub record Entered (q q' : Queue) : Type 0 where
    pub skipped : List ℕ
    pub passed_on : q'.done_queue ≡ q.done_queue ++ skipped
    pub counted : total q'.task_group ≡ total q.task_group + length skipped
    pub failed : q'.task_group.failed_tasks ≡ q.task_group.failed_tasks
    pub grown :
        length q'.ready_queue + q.queued_elements ≡ length q.ready_queue + q'.queued_elements
    pub ordered : IsOrdered q → IsOrdered q'

  Entered-refl :
      (q : Queue) (session : Option (List ℕ)) → Entered q (record q { session_elements = session })
  Entered-refl q session = record {
    skipped = [];
    passed_on = sym (append-nil q.done_queue);
    counted = omega arith;
    failed = refl;
    grown = refl;
    ordered = λ o. record { sorted = o.sorted; numbered = o.numbered };
  }

  Entered-trans : (p q r : Queue) → Entered p q → Entered q r → Entered p r
  Entered-trans p q r h k = record {
    skipped = h.skipped ++ k.skipped;
    passed_on =
        k.passed_on
        ∙ ap (λ (l : List ℕ). l ++ k.skipped) h.passed_on
        ∙ append_assoc p.done_queue h.skipped k.skipped;
    counted = omega (arith, h.counted, k.counted, length-append {0} h.skipped k.skipped);
    failed = k.failed ∙ h.failed;
    grown = omega (arith, h.grown, k.grown);
    ordered = λ o. k.ordered (h.ordered o);
  }

  length-heappush : (x : Entry) (xs : List Entry) → length (heappush x xs) ≡ length xs + 1
  unfolding heappush
  length-heappush x [] = refl
  length-heappush x (y ∷ ys) = ground (arith, length-heappush x ys)

  register-Entered :
      (callback : Option (W → W)) (q : Queue) (session : Option (List ℕ)) (w : W)
      → Ensures
          (λ r. Entered q r.0)
          (register host class callback (record q { session_elements = session }) w)
  unfolding register
  register-Entered none q session w = tt
  register-Entered (some callback) q session w = Entered-refl q session

  place-Entered :
      (status : QueueStatus) (e : ℕ) (q : Queue) (session : Option (List ℕ)) (w : W)
      → Ensures
          (λ r. IsOrdered q → IsOrdered r.0)
          (place host class status e (record q { session_elements = session }) w)
      → Ensures
          (λ r. Entered q r.0)
          (place host class status e (record q { session_elements = session }) w)
  unfolding place add_skipped_task
  place-Entered pending e q session w o =
      register-Entered (class.register_pending_element e) q session w
  place-Entered skip e q session w o = record {
    skipped = e ∷ [];
    passed_on = refl;
    counted = omega arith;
    failed = refl;
    grown = refl;
    ordered = o;
  }
  place-Entered ready e q session w o = record {
    skipped = [];
    passed_on = sym (append-nil q.done_queue);
    counted = omega arith;
    failed = refl;
    grown = omega (
      arith,
      length-heappush (record { depth = host.depth e w; order = q.queued_elements; element = e })
          q.ready_queue,
    );
    ordered = o;
  }

  enqueue_element-Entered :
      (e : ℕ) (q : Queue) (w : W) → Ensures (λ r. Entered q r.0) (enqueue_element host class e q w)
  unfolding enqueue_element
  enqueue_element-Entered e q w =
      Ensures-bind (λ _. Unit {0}) (λ r. Entered q r.0) (class.status e w) _
        (Ensures-any _ (class.status e w) (λ _. tt))
        (λ (status, w') _.
          let session = add_session e q.session_elements in
          place-Entered status e q session w' (
            Ensures-later (IsOrdered q) (λ r. IsOrdered r.0)
              (place host class status e (record q { session_elements = session }) w')
              (λ o.
                place-IsOrdered host class status e (record q { session_elements = session }) w'
                  (record { sorted = o.sorted; numbered = o.numbered }))))

  -- Whatever elements the callbacks of `done` enter, and wherever it ends.
  perform-Entered : (a : Activity W) (q : Queue) → Entered q (perform host class a q).1
  unfolding perform
  perform-Entered (finished ending w) q = Entered-refl q q.session_elements
  perform-Entered (enters e w k) q =
      decide (enqueue_element host class e q w) (enqueue_element-Entered e q w)
        (λ w' q'. perform-Entered (k w') q')
    where
      decide :
          (m : Outcome (Queue × W))
          → Ensures (λ r. Entered q r.0) m
          → ((w' : W) (q' : Queue) → Entered q' (perform host class (k w') q').1)
          → Entered q
              (elim m as (λ _. Ending × Queue × W) [
                | ok (q', w') ↦ perform host class (k w') q'
                | raise raised ↦ (
                  handler_of host class raised,
                  record q { session_elements = add_session e q.session_elements },
                  w,
                )
              ]).1
      decide (ok (q', w')) h go = Entered-trans q q' _ h (go w' q')
      decide (raise raised) h go = Entered-refl q (add_session e q.session_elements)

  -- What the completion of a job leaves in the queue and the resources.
  pub record Completed (e : ℕ) (ending : Ending) (q q' : Queue) (pool pool' : Resources)
      : Type 0 where
    pub skipped : List ℕ
    pub released :
        pool' ≡ record pool { used_resources = λ t. pool.used_resources t - uses class.resources t }
    pub counted : total q'.task_group ≡ total q.task_group + length skipped + 1
    pub grown :
        length q'.ready_queue + q.queued_elements ≡ length q.ready_queue + q'.queued_elements
    pub ordered : IsOrdered q → IsOrdered q'
    pub done_if_returned : ending ≡ returned → q'.done_queue ≡ (q.done_queue ++ skipped) ++ e ∷ []
    pub kept_if_raised : ending ≢ returned → q'.done_queue ≡ q.done_queue ++ skipped
    pub failed_if_raised :
        ending ≢ returned → q'.task_group.failed_tasks ≡ q.task_group.failed_tasks ++ e ∷ []

  -- `finish` changes no heap and no number.
  finish-ordered :
      (ending : Ending) (e : ℕ) (status : JobStatus) (terminated : Bool) (q : Queue) (w : W)
      → ((finish host class ending e status terminated q w).0.ready_queue ≡ q.ready_queue)
        × ((finish host class ending e status terminated q w).0.queued_elements ≡ q.queued_elements)
  unfolding finish
  finish-ordered returned e status b q w = (refl, refl)
  finish-ordered bst_error e status b q w = (refl, refl)
  finish-ordered exception e status b q w = (refl, refl)

  finish-done :
      (ending : Ending) (e : ℕ) (status : JobStatus) (terminated : Bool) (q : Queue) (w : W)
      → let q' = (finish host class ending e status terminated q w).0 in
        (ending ≡ returned → q'.done_queue ≡ q.done_queue ++ e ∷ [])
        × (ending ≢ returned → q'.done_queue ≡ q.done_queue)
        × (ending ≢ returned → q'.task_group.failed_tasks ≡ q.task_group.failed_tasks ++ e ∷ [])
  unfolding finish add_failed_task
  finish-done returned e status b q w = (λ _. refl, λ h. absurd (h refl), λ h. absurd (h refl))
  finish-done bst_error e status b q w = (λ h. cc, λ _. refl, λ _. refl)
  finish-done exception e status b q w = (λ h. cc, λ _. refl, λ _. refl)

  finish-Completed :
      (ending : Ending) (e : ℕ) (status : JobStatus) (terminated : Bool) (q m : Queue) (w : W)
      (pool : Resources)
      → Entered q m
      → Completed e ending q
          (finish host class ending e status terminated m w).0
          pool
          (record pool { used_resources = λ t. pool.used_resources t - uses class.resources t })
  finish-Completed ending e status b q m w pool h =
      let (heap, number) = finish-ordered ending e status b m w in
      let (done, kept, listed) = finish-done ending e status b m w in
      record {
        skipped = h.skipped;
        released = refl;
        counted = omega (arith, finish-total ending e status b m w, h.counted);
        grown = rw (heap, number) h.grown;
        ordered = λ o. record {
          sorted = rw heap (h.ordered o).sorted;
          numbered = rw (heap, number) (h.ordered o).numbered;
        };
        done_if_returned = λ r. done r ∙ ap (λ (l : List ℕ). l ++ e ∷ []) h.passed_on;
        kept_if_raised = λ r. kept r ∙ h.passed_on;
        failed_if_raised = λ r. listed r ∙ ap (λ (l : List ℕ). l ++ e ∷ []) h.failed;
      }

  pub job_done-Completed :
      (e : ℕ) (status : JobStatus) (terminated : Bool) (result : Option R) (q : Queue) (w w' : W)
      (pool : Resources)
      → ((t : ResourceType) → uses class.resources t ≤ pool.used_resources t)
      → update_workspaces host class e w ≡ ok w'
      → Returns
          (λ r. Completed e (perform host class (class.done e result status w') q).0 q r.0 pool r.2)
          (job_done host class e status terminated result q w pool)
  unfolding job_done
  job_done-Completed e status b result q w w' pool h u =
      let a = class.done e result status w' in
      rw ((release_lem pool class.resources).0 h, u)
        (finish-Completed _ e status b q _ (perform host class a q).2 pool (perform-Entered a q))

  Returns→ok : {A : Type 0} (m : Outcome A) → Returns (λ _. Unit {0}) m → (a : A) × (m ≡ ok a)
  Returns→ok (ok a) h = (a, refl)
  Returns→ok (raise raised) h = elim h [ ]

  pub update_workspaces-ok :
      (e : ℕ) (w : W)
      → Returns (λ _. Unit {0}) (host.update_workspace e w)
      → (w' : W) × (update_workspaces host class e w ≡ ok w')
  unfolding update_workspaces
  update_workspaces-ok e w h =
      let ((changed, w'), eq) = Returns→ok (host.update_workspace e w) h in
      elim (Bool-cases (host.has_workspace e w)) [
        | inl b ↦ rw (b, eq) (save_when host class changed e w', refl)
        | inr b ↦ rw b (w, refl)
      ]
