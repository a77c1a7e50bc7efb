-- ===== src/Scheduler/Loop/Completing.antt =====
-- src/buildstream/_scheduler/scheduler.py: the completion of a job's child.
use buildstream.Common.{
  ℕ, zero, suc, ◌+◌, ◌-◌, ◌≤◌, ◌<◌, ◌≡◌, refl, sym, ap, ◌∙◌, subst, Bool, true, false, Option, some,
  List, [], ◌∷◌, arith, if◌then◌else◌, All, length, contains, ok, Returns, Returns-bind, Bool-cases,
  inl, inr, ◌>>=◌,
}
use buildstream.State.{State, fail_task, remove_task_there}
use buildstream.Scheduler.Resources.{ResourceType, Resources}
use buildstream.Scheduler.Resources.Accounting.{uses}
use buildstream.Scheduler.Queues.{
  Host, QueueClass, Queue, JobStatus, succeeded, failed, skipped, job_done,
}
use buildstream.Scheduler.Queues.Usable.{IsCalm}
use buildstream.Scheduler.Queues.Fairness.{IsOrdered}
use buildstream.Scheduler.Queues.Completion.{job_done-Completed, update_workspaces-ok}
use buildstream.Scheduler.Jobs.{Job, start, ReturnCode, status_of, retries}
use buildstream.Scheduler.Jobs.Retrying.{start_fresh, retries_iff}
use buildstream.Scheduler.Loop.{
  Sched, find_job, remove_job, replace_job, sched, announce, job_completed, parent_complete,
  child_completed,
}
use buildstream.Scheduler.Loop.ActiveJobs.{
  IsValid, held, find_job-id, find_job-All, contains-find_job, ids-remove_job, All-remove_job,
  held-remove_job,
}
use buildstream.Scheduler.Loop.ActiveTasks.{HasTasks-there, HasTasks-without}
use buildstream.Scheduler.Loop.Running.{IsRunning, replace-IsRunning}

module _ {W R : Type 0} (host : Host W) (classes : ℕ → QueueClass W R) (network_retries : ℕ)
    (calm : (i : ℕ) → IsCalm (classes i))
    (updates : (e : ℕ) (w : W) → Returns (λ _. Unit {0}) (host.update_workspace e w)) where
  parent_complete-Returns :
      (n : ℕ) (j : Job) (status : JobStatus) (result : Option R) (qs : List Queue) (w : W)
      (pool : Resources)
      → n < length qs
      → All IsOrdered qs
      → ((t : ResourceType) → uses (classes j.queue).resources t ≤ pool.used_resources t)
      → Returns
          (λ r.
            (length r.0 ≡ length qs)
            × All IsOrdered r.0
            × (r.2 ≡ record pool {
              used_resources = λ t. pool.used_resources t - uses (classes j.queue).resources t;
            }))
          (parent_complete host classes network_retries n j status result qs w pool)
  unfolding parent_complete
  parent_complete-Returns n j status result [] w pool l o u = elim l [ ]
  parent_complete-Returns zero j status result (q ∷ qs) w pool l o u =
      let (w', eq) =
        update_workspaces-ok host (classes j.queue) j.element w (updates j.element w) in
      Returns-bind _ _
        (job_done host (classes j.queue) j.element status j.terminated result q w pool) _
        (job_done-Completed host (classes j.queue) j.element status j.terminated result q w w' pool
          u eq)
        (λ (q', w'', pool') c. (refl, (c.ordered o.0, o.1), c.released))
  parent_complete-Returns (suc n) j status result (q ∷ qs) w pool l o u =
      Returns-bind _ _ (parent_complete host classes network_retries n j status result qs w pool) _
        (parent_complete-Returns n j status result qs w pool (omega arith) o.1 u)
        (λ (qs', w', pool') c. (ap suc c.0, (o.0, c.1), c.2))

  announce-tasks :
      (status : JobStatus) (id : ℕ) (st : State)
      → (announce host classes network_retries status id st).tasks ≡ st.tasks
  unfolding announce
  announce-tasks failed id st = unfold fail_task in refl
  announce-tasks succeeded id st = refl
  announce-tasks skipped id st = refl

  -- A job that is not started again leaves the active jobs, and its resources are free.
  completed-IsRunning :
      (j k : Job) (status : JobStatus) (result : Option R) (s : Sched W)
      → find_job j.id s.active_jobs ≡ some k
      → j.queue ≡ k.queue
      → (IsRunning host classes network_retries calm) s
      → s.stopped ≡ false
      → Returns (IsRunning host classes network_retries calm) (
          parent_complete host classes network_retries j.queue j status result s.queues s.world
            s.pool
          >>= λ (qs, w, pool').
              job_completed host classes network_retries j status
                (record s { queues = qs; world = w; pool = pool' }))
  unfolding job_completed sched
  completed-IsRunning j k status result s found q h f =
      Returns-bind
        (λ r.
          (length r.0 ≡ length s.queues)
          × All IsOrdered r.0
          × (r.2 ≡ record s.pool {
            used_resources = λ t. s.pool.used_resources t - uses (classes j.queue).resources t;
          }))
        (IsRunning host classes network_retries calm)
        (parent_complete host classes network_retries j.queue j status result s.queues s.world
          s.pool)
        _
        (parent_complete-Returns j.queue j status result s.queues s.world s.pool (rw q valid.0)
          h.sound.ordered (λ t. omega (arith, h.sound.used t, freed t)))
        (λ (qs, w, pool') (len, ordered, pool_eq).
          rw
            (remove_task_there j.id (announce host classes network_retries status j.id s.state)
              there)
            (record {
              sound = record {
                within = λ t p.
                    let m = ap (λ (r : Resources). r.max_resources t) pool_eq in
                    let u = ap (λ (r : Resources). r.used_resources t) pool_eq in
                    let p' : 0 < s.pool.max_resources t = omega arith in
                    omega (arith, h.sound.within t p');
                used = λ t. omega (
                  arith,
                  h.sound.used t,
                  freed t,
                  ap (λ (r : Resources). r.used_resources t) pool_eq,
                );
                ordered = ordered;
                valid = rw len (All-remove_job _ j.id s.active_jobs h.sound.valid);
                indices = tt;
                tasks =
                    rw (announce-tasks status j.id s.state, ids-remove_job)
                      (HasTasks-without _ _ _ h.sound.tasks j.id
                        (contains-find_job j.id s.active_jobs k found));
              };
              due = h.due;
              idle = λ i. cc;
              alive = λ _. inl refl;
            }))
    where
      valid : IsValid (length s.queues) s.next_id s.terminated k
      valid = find_job-All _ j.id s.active_jobs k found h.sound.valid

      there : contains (announce host classes network_retries status j.id s.state).tasks j.id ≡ true
      there =
          rw (announce-tasks status j.id s.state)
            (HasTasks-there _ _ _ h.sound.tasks j.id (contains-find_job j.id s.active_jobs k found))

      freed :
          (t : ResourceType)
          → held classes s.active_jobs t
            ≡ uses (classes j.queue).resources t + held classes (remove_job j.id s.active_jobs) t
      freed t = rw q (held-remove_job classes j.id s.active_jobs k t found)

  not_terminated :
      (j k : Job) (s : Sched W)
      → j.terminated ≡ k.terminated
      → IsValid (length s.queues) s.next_id s.terminated k
      → s.terminated ≡ false
      → j.terminated ≡ false
  not_terminated j k s t v calm = elim (Bool-cases k.terminated) [
    | inl e ↦ absurd (cc (v.2 e))
    | inr e ↦ t ∙ e
  ]

  pub child_completed-IsRunning :
      (j : Job) (k : Job) (code : ReturnCode) (result : Option R) (s : Sched W)
      → find_job j.id s.active_jobs ≡ some k
      → j.queue ≡ k.queue
      → j.terminated ≡ k.terminated
      → (IsRunning host classes network_retries calm) s
      → s.stopped ≡ false
      → Returns
          (IsRunning host classes network_retries calm)
          (child_completed host classes network_retries j code result s)
  unfolding child_completed
  child_completed-IsRunning j k code result s found q t h f =
      decide (retries code s.terminated j) refl
    where
      decide :
          (b : Bool)
          → retries code s.terminated j ≡ b
          → Returns (IsRunning host classes network_retries calm) (
              if b
              then (start j >>= λ j'. ok (record s { active_jobs = replace_job j' s.active_jobs }))
              else (parent_complete host classes network_retries j.queue j
                    (status_of code)
                    result
                    s.queues
                    s.world
                    s.pool
                  >>= λ (qs, w, pool').
                      job_completed host classes network_retries j
                        (status_of code)
                        (record s { queues = qs; world = w; pool = pool' })))
      decide true e =
          let running = ((retries_iff code s.terminated j).0 e).2 in
          let v = find_job-All _ j.id s.active_jobs k found h.sound.valid in
          rw (start_fresh j (not_terminated j k s t v running)) (
            (replace-IsRunning host classes network_retries calm)
              (record j { tries = j.tries + 1; has_task = true }) k s found q
              (
                subst (λ n. n < length s.queues) (sym q) v.0,
                subst (λ n. n < s.next_id) (find_job-id j.id s.active_jobs k found) v.1,
                λ b. v.2 (sym t ∙ b),
              )
              h)
      decide false e = completed-IsRunning j k (status_of code) result s found q h f
