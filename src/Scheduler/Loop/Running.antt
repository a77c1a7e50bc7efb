-- ===== src/Scheduler/Loop/Running.antt =====
-- src/buildstream/_scheduler/scheduler.py: the state between two events, and scheduling in it.
use buildstream.Common.{
  ℕ, ◌≡◌, refl, sym, ap, ◌∙◌, Bool, true, false, some, List, [], ◌∷◌, arith, if◌then◌else◌, length,
  ok, Returns, Returns-bind, Returns-weaken, inr, ◌⊎◌, ◌≢◌,
}
use buildstream.Scheduler.Queues.{Host, QueueClass, is_nonempty}
use buildstream.Scheduler.Queues.Usable.{IsCalm}
use buildstream.Scheduler.Jobs.{Job}
use buildstream.Scheduler.Loop.{
  Sched, find_job, replace_job, rounds, start_jobs, sched_queue_jobs, bail_out, real_schedule,
}
use buildstream.Scheduler.Loop.ActiveJobs.{
  IsValid, All-replace_job, ids-replace_job, held-replace_job,
}
use buildstream.Scheduler.Loop.Invariant.{
  IsSound, SameFlags, SameFlags-trans, rounds-IsSound, start_jobs-IsSound,
}

is_nonempty-true : (js : List Job) → is_nonempty js ≡ true → js ≢ []
is_nonempty-true js h e = cc (ap is_nonempty e)

is_nonempty-false : (js : List Job) → is_nonempty js ≡ false → js ≡ []
is_nonempty-false [] h = refl
is_nonempty-false (j ∷ js) h = cc

find_job-nonempty : (id : ℕ) (js : List Job) (j : Job) → find_job id js ≡ some j → js ≢ []
unfolding find_job
find_job-nonempty id [] j h e = cc
find_job-nonempty id (k ∷ ks) j h e = cc

replace_job-nil : (j : Job) (js : List Job) → replace_job j js ≡ [] → js ≡ []
unfolding replace_job
replace_job-nil j [] h = refl
replace_job-nil j (k ∷ ks) h = absurd (ground arith)

module _ {W R : Type 0} (host : Host W) (classes : ℕ → QueueClass W R) (network_retries : ℕ)
    (calm : (i : ℕ) → IsCalm (classes i)) where
  abbrev pub Sound : Sched W → Type 0
  Sound = IsSound host classes network_retries calm []

  -- Between two events: the accounts are right, only a scheduler that is terminating has jobs to
  -- terminate, and it is stopped with no active job or has something left to run.
  pub record IsRunning (s : Sched W) : Type 0 where
    pub sound : IsSound host classes network_retries calm [] s
    pub due : s.terminate_due ≡ true → s.terminated ≡ true
    pub idle : s.stopped ≡ true → s.active_jobs ≡ []
    pub alive : s.stopped ≡ false → (s.sched_handle ≡ true) ⊎ (s.active_jobs ≢ [])

  sched_queue_jobs-IsSound :
      (s : Sched W)
      → Sound s
      → Returns (λ s'. Sound s' × SameFlags s s') (sched_queue_jobs host classes network_retries s)
  unfolding sched_queue_jobs
  sched_queue_jobs-IsSound s h =
      Returns-bind _ _ (rounds host classes 2 [] s) _
        (rounds-IsSound host classes network_retries calm 1 s h)
        (λ (ready, s') (h', same).
          Returns-weaken _ _ (start_jobs host classes network_retries ready s')
            (λ s'' (h'', same'). (h'', SameFlags-trans same same'))
            (start_jobs-IsSound host classes network_retries calm ready s' h'))

  soundly : (s : Sched W) → Sound s → Sound (record s { stopped = true })
  soundly s h = record {
    within = h.within;
    used = h.used;
    ordered = h.ordered;
    valid = h.valid;
    indices = h.indices;
    tasks = h.tasks;
  }

  flags : (s : Sched W) → Sound s → Sound (record s { sched_handle = false })
  flags s h = record {
    within = h.within;
    used = h.used;
    ordered = h.ordered;
    valid = h.valid;
    indices = h.indices;
    tasks = h.tasks;
  }

  bail_out-IsRunning :
      (s : Sched W)
      → Sound s
      → (s.terminate_due ≡ true → s.terminated ≡ true)
      → s.stopped ≡ false
      → IsRunning (bail_out host classes network_retries s)
  unfolding bail_out
  bail_out-IsRunning s h d f = decide (is_nonempty s.active_jobs) refl
    where
      decide :
          (b : Bool)
          → is_nonempty s.active_jobs ≡ b
          → IsRunning (if b then s else record s { stopped = true })
      decide true e = record {
        sound = h;
        due = d;
        idle = λ i. cc;
        alive = λ _. inr (is_nonempty-true s.active_jobs e);
      }
      decide false e = record {
        sound = soundly s h;
        due = d;
        idle = λ _. is_nonempty-false s.active_jobs e;
        alive = λ i. cc;
      }

  unless_terminated :
      (b : Bool) (s : Sched W)
      → Sound s
      → Returns
          (λ s'. Sound s' × SameFlags s s')
          (if b then ok s else sched_queue_jobs host classes network_retries s)
  unless_terminated true s h =
      (h, record { terminated = refl; terminate_due = refl; stopped = refl; sched_handle = refl })
  unless_terminated false s h = sched_queue_jobs-IsSound s h

  pub real_schedule-IsRunning :
      (s : Sched W)
      → IsRunning s
      → s.stopped ≡ false
      → Returns IsRunning (real_schedule host classes network_retries s)
  unfolding real_schedule
  real_schedule-IsRunning s h f =
      Returns-bind (λ s'. Sound s' × SameFlags (record s { sched_handle = false }) s') IsRunning
        (if s.terminated
          then ok (record s { sched_handle = false })
          else sched_queue_jobs host classes network_retries (record s { sched_handle = false }))
        _ (unless_terminated s.terminated (record s { sched_handle = false }) (flags s h.sound))
        (λ s' (h', same).
          bail_out-IsRunning s' h' (λ d. same.terminated ∙ h.due (sym same.terminate_due ∙ d))
            (same.stopped ∙ f))

  -- A job is put back in place of the one with its id and queue.
  pub replace-IsRunning :
      (j k : Job) (s : Sched W)
      → find_job j.id s.active_jobs ≡ some k
      → j.queue ≡ k.queue
      → IsValid (length s.queues) s.next_id s.terminated j
      → IsRunning s
      → IsRunning (record s { active_jobs = replace_job j s.active_jobs })
  replace-IsRunning j k s found q v h = record {
    sound = record {
      within = h.sound.within;
      used =
          λ t. omega (arith, h.sound.used t, held-replace_job classes j k s.active_jobs t found q);
      ordered = h.sound.ordered;
      valid = All-replace_job _ j s.active_jobs v h.sound.valid;
      indices = tt;
      tasks = rw ids-replace_job h.sound.tasks;
    };
    due = h.due;
    idle = λ i. absurd (find_job-nonempty j.id s.active_jobs k found (h.idle i));
    alive = λ _.
        inr (λ e. find_job-nonempty j.id s.active_jobs k found (replace_job-nil j s.active_jobs e));
  }
