-- ===== src/Scheduler/Loop/Safety.antt =====
-- Every event that scheduler.py's loop may handle keeps its invariant and raises nothing.
use buildstream.Common.{
  ℕ, Bool, ◌<◌, ◌≡◌, refl, sym, subst, true, false, Option, none, some, List, [], ◌∷◌, map, arith,
  append-nil, ltb, get_elem?, ◌>>=◌, All, All-weaken, length, Outcome, ok, Returns, Returns-bind,
  Returns-if, ltb→lt, Returns-Ensures, inl, inr, ◌⊎◌, ◌≢◌,
}
use buildstream.Scheduler.Resources.{new_resources}
use buildstream.Scheduler.Queues.{Host, QueueClass, Queue, enqueue_element, retry_job}
use buildstream.Scheduler.Queues.Usable.{IsCalm, enqueue_element-Returns, retry_job-Returns}
use buildstream.Scheduler.Queues.Fairness.{
  IsOrdered, enqueue_element-IsOrdered, retry_job-IsOrdered,
}
use buildstream.Scheduler.Jobs.{Job, terminate, child_begin, to_return_code}
use buildstream.Scheduler.Loop.{
  Sched, Event, schedule, thread_begins, completed, callback, retried, stop, terminate_all,
  terminate_jobs, find_job, into, has_failed, outer_tasks, on_job, handle, step, run_events,
  initial,
}
use buildstream.Scheduler.Loop.ActiveJobs.{
  IsUnique, find_job-id, find_job-All, held-terminate, ids-terminate, All-terminate,
}
use buildstream.Scheduler.Loop.Running.{
  Sound, IsRunning, real_schedule-IsRunning, replace-IsRunning,
}
use buildstream.Scheduler.Loop.Entering.{into-Returns, has_failed-there}
use buildstream.Scheduler.Loop.Completing.{child_completed-IsRunning}

module _ {W R : Type 0} (host : Host W) (classes : ℕ → QueueClass W R) (network_retries : ℕ)
    (calm : (i : ℕ) → IsCalm (classes i))
    (updates : (e : ℕ) (w : W) → Returns (λ _. Unit {0}) (host.update_workspace e w)) where
  on_job-IsRunning :
      (id : ℕ) (s : Sched W) (f : Job → Outcome (Sched W))
      → (IsRunning host classes network_retries calm) s
      → ((k : Job)
          → find_job id s.active_jobs ≡ some k
          → Returns (IsRunning host classes network_retries calm) (f k))
      → Returns
          (IsRunning host classes network_retries calm)
          (on_job host classes network_retries (find_job id s.active_jobs) s f)
  unfolding on_job
  on_job-IsRunning id s f h k = decide (find_job id s.active_jobs) refl
    where
      decide :
          (o : Option Job)
          → find_job id s.active_jobs ≡ o
          → Returns
              (IsRunning host classes network_retries calm)
              (on_job host classes network_retries o s f)
      decide none e = h
      decide (some j) e = k j e

  queues-IsSound :
      (s : Sched W) (qs : List Queue) (w : W)
      → length qs ≡ length s.queues
      → All IsOrdered qs
      → (Sound host classes network_retries calm) s
      → (Sound host classes network_retries calm) (record s { queues = qs; world = w })
  queues-IsSound s qs w l o h = record {
    within = h.within;
    used = h.used;
    ordered = o;
    valid = rw l h.valid;
    indices = tt;
    tasks = h.tasks;
  }

  pub queues_kept :
      (s : Sched W)
      → (Sound host classes network_retries calm) s
      → (Sound host classes network_retries calm) (record s { queue_jobs = false })
  queues_kept s h = record {
    within = h.within;
    used = h.used;
    ordered = h.ordered;
    valid = h.valid;
    indices = tt;
    tasks = h.tasks;
  }

  terminated-IsSound :
      (s : Sched W)
      → (Sound host classes network_retries calm) s
      → (Sound host classes network_retries calm)
          (record s { terminated = true; terminate_due = true })
  terminated-IsSound s h = record {
    within = h.within;
    used = h.used;
    ordered = h.ordered;
    valid = All-weaken _ _ s.active_jobs (λ j v. (v.0, v.1, λ _. refl)) h.valid;
    indices = tt;
    tasks = h.tasks;
  }

  jobs_terminated-IsSound :
      (s : Sched W)
      → s.terminated ≡ true
      → (Sound host classes network_retries calm) s
      → (Sound host classes network_retries calm)
          (record s { active_jobs = map terminate s.active_jobs; terminate_due = false })
  jobs_terminated-IsSound s t h = record {
    within = h.within;
    used = λ r. omega (arith, h.used r, held-terminate classes s.active_jobs r);
    ordered = h.ordered;
    valid = All-terminate (length s.queues) s.next_id s.terminated s.active_jobs t h.valid;
    indices = tt;
    tasks = rw ids-terminate h.tasks;
  }

  changed-IsRunning :
      (s : Sched W)
      → (IsRunning host classes network_retries calm) s
      → (m : Outcome (List Queue × W))
      → Returns (λ r. (length r.0 ≡ length s.queues) × All IsOrdered r.0) m
      → Returns
          (IsRunning host classes network_retries calm)
          (m >>= λ (qs, w). ok (record s { queues = qs; world = w }))
  changed-IsRunning s h m k =
      Returns-bind (λ r. (length r.0 ≡ length s.queues) × All IsOrdered r.0)
        (IsRunning host classes network_retries calm) m _ k
        (λ (qs, w) (l, o). record {
          sound = queues-IsSound s qs w l o h.sound;
          due = h.due;
          idle = h.idle;
          alive = h.alive;
        })

  handle-IsRunning :
      (ev : Event R) (s : Sched W)
      → (IsRunning host classes network_retries calm) s
      → s.stopped ≡ false
      → Returns
          (IsRunning host classes network_retries calm)
          (handle host classes network_retries ev s)
  unfolding handle
  handle-IsRunning schedule s h f =
      Returns-if (IsRunning host classes network_retries calm) s.sched_handle _ (ok s)
        (λ _. (real_schedule-IsRunning host classes network_retries calm) s h f) (λ _. h)
  handle-IsRunning (thread_begins id) s h f = on_job-IsRunning id s _ h λ k found.
      let q = sym (find_job-id id s.active_jobs k found) in
      let v = find_job-All _ id s.active_jobs k found h.sound.valid in
      unfold child_begin in
      (replace-IsRunning host classes network_retries calm) (record k { thread = true }) k s
        (subst (λ n. find_job n s.active_jobs ≡ some k) q found) refl v h
  handle-IsRunning (completed id c r) s h f = on_job-IsRunning id s _ h λ k found.
      (child_completed-IsRunning host classes network_retries calm updates)
        (record k { thread = false }) k (to_return_code c) r s
        (subst (λ n. find_job n s.active_jobs ≡ some k) (sym (find_job-id id s.active_jobs k found))
          found)
        refl refl h f
  handle-IsRunning (callback i e) s h f =
      Returns-if (IsRunning host classes network_retries calm) (ltb i (length s.queues)) _ (ok s)
        (λ b.
          changed-IsRunning s h
            (into host classes network_retries (enqueue_element host (classes i) e) i s.queues
              s.world)
            (into-Returns host classes network_retries (enqueue_element host (classes i) e) i
              s.queues s.world (ltb→lt i (length s.queues) b) h.sound.ordered
              (λ q _ o.
                Returns-Ensures (λ _. Unit {0}) (λ r. IsOrdered r.0)
                  (enqueue_element host (classes i) e q s.world)
                  (enqueue_element-Returns host (classes i) (calm i) e q s.world)
                  (enqueue_element-IsOrdered host (classes i) e q s.world o))))
        (λ _. h)
  handle-IsRunning (retried i e) s h f =
      Returns-if (IsRunning host classes network_retries calm)
        (has_failed host classes network_retries (get_elem? s.queues i) e) _ (ok s)
        (λ b.
          let (l, there) = has_failed-there host classes network_retries s.queues i e b in
          changed-IsRunning s h
            (into host classes network_retries (retry_job host (classes i) e) i s.queues s.world)
            (into-Returns host classes network_retries (retry_job host (classes i) e) i s.queues
              s.world l h.sound.ordered
              (λ q eq o.
                Returns-Ensures (λ _. Unit {0}) (λ r. IsOrdered r.0)
                  (retry_job host (classes i) e q s.world)
                  (retry_job-Returns host (classes i) (calm i) e q s.world (there q eq))
                  (retry_job-IsOrdered host (classes i) e q s.world o))))
        (λ _. h)
  handle-IsRunning stop s h f = record {
    sound = queues_kept s h.sound;
    due = h.due;
    idle = h.idle;
    alive = h.alive;
  }
  handle-IsRunning terminate_all s h f = record {
    sound = terminated-IsSound s h.sound;
    due = λ _. refl;
    idle = h.idle;
    alive = h.alive;
  }
  handle-IsRunning terminate_jobs s h f =
      Returns-if (IsRunning host classes network_retries calm) s.terminate_due _ (ok s)
        (λ d. record {
          sound = jobs_terminated-IsSound s (h.due d) h.sound;
          due = λ b. cc;
          idle = λ i. cc;
          alive = λ _. terminate_alive s.active_jobs (h.alive f);
        })
        (λ _. h)
    where
      terminate_alive :
          (js : List Job)
          → (s.sched_handle ≡ true) ⊎ (js ≢ [])
          → (s.sched_handle ≡ true) ⊎ (map terminate js ≢ [])
      terminate_alive js (inl a) = inl a
      terminate_alive [] (inr n) = absurd (n refl)
      terminate_alive (j ∷ js) (inr n) = inr (λ e. cc)

  -- Any event keeps the invariant, and none raises.
  pub step-IsRunning :
      (ev : Event R) (s : Sched W)
      → (IsRunning host classes network_retries calm) s
      → Returns
          (IsRunning host classes network_retries calm)
          (step host classes network_retries ev s)
  unfolding step
  step-IsRunning ev s h =
      Returns-if (IsRunning host classes network_retries calm) s.stopped (ok s)
        (handle host classes network_retries ev s) (λ _. h) (handle-IsRunning ev s h)

  pub run_events-IsRunning :
      (evs : List (Event R)) (s : Sched W)
      → (IsRunning host classes network_retries calm) s
      → Returns
          (IsRunning host classes network_retries calm)
          (run_events host classes network_retries evs s)
  unfolding run_events
  run_events-IsRunning [] s h = h
  run_events-IsRunning (ev ∷ evs) s h =
      Returns-bind (IsRunning host classes network_retries calm)
        (IsRunning host classes network_retries calm) (step host classes network_retries ev s) _
        (step-IsRunning ev s h) (λ s' h'. run_events-IsRunning evs s' h')

  pub initial-IsRunning :
      (builders fetchers pushers : ℕ) (qs : List Queue) (simple_task : Bool) (w : W)
      → All IsOrdered qs
      → (IsRunning host classes network_retries calm)
          (initial builders fetchers pushers qs simple_task w)
  unfolding initial new_resources
  initial-IsRunning b f p qs t w o = record {
    sound = record {
      within = λ t h. omega arith;
      used = λ t. refl;
      ordered = o;
      valid = tt;
      indices = tt;
      tasks = record {
        outer = outer_tasks t;
        split = sym (append-nil (outer_tasks t));
        known = known t;
        unique = unique t;
      };
    };
    due = λ d. cc;
    idle = λ i. refl;
    alive = λ _. inl refl;
  }
    where
      known : (t : Bool) → All (λ i. i < 1) (outer_tasks t)
      known true = (omega arith, tt)
      known false = tt

      unique : (t : Bool) → IsUnique (outer_tasks t)
      unique true = (refl, tt)
      unique false = tt
