-- ===== src/Scheduler/Loop/Rounds.antt =====
-- One round of scheduler.py's `_sched_queue_jobs`: pulling elements forward and harvesting jobs.
use buildstream.Common.{
  ℕ, zero, suc, ◌+◌, ◌*◌, ◌≤◌, ◌<◌, ◌≡◌, refl, ap, ◌∙◌, false, List, [], ◌∷◌, ◌++◌, map, arith, All,
  All-append, All-weaken, length, Returns, Returns-bind, Returns-Ensures,
}
use buildstream.Scheduler.Resources.{ResourceType, Resources}
use buildstream.Scheduler.Resources.Accounting.{uses, IsWithin, to_set-IsDistinct}
use buildstream.Scheduler.Queues.{
  Host, QueueClass, Queue, enqueue, dequeue, dequeue_ready, harvest_jobs,
}
use buildstream.Scheduler.Queues.Usable.{IsCalm, enqueue-Returns}
use buildstream.Scheduler.Queues.Fairness.{
  done_queue-harvest_jobs, IsOrdered, enqueue-IsOrdered, harvest_jobs-IsOrdered, harvest_jobs-used,
  harvest_jobs-IsWithin,
}
use buildstream.Scheduler.Loop.{Wanted, pull_forward, harvest_from, any_ready}

-- A queue from which every element was pulled forward.
abbrev pub IsDrained : Queue → Type 0
IsDrained q = IsOrdered q × (q.done_queue ≡ [])

module _ {W R : Type 0} (classes : ℕ → QueueClass W R) where
  -- What the wanted jobs are to hold.
  abbrev pub wanted_uses : List (ℕ × ℕ) → ResourceType → ℕ
  wanted_uses [] t = 0
  wanted_uses (x ∷ xs) t = uses (classes x.0).resources t + wanted_uses xs t

  pub wanted_uses-append :
      (xs ys : List (ℕ × ℕ)) (t : ResourceType)
      → wanted_uses (xs ++ ys) t ≡ wanted_uses xs t + wanted_uses ys t
  wanted_uses-append [] ys t = omega arith
  wanted_uses-append (x ∷ xs) ys t = omega (arith, wanted_uses-append xs ys t)

  wanted_uses-map :
      (i : ℕ) (es : List ℕ) (t : ResourceType)
      → wanted_uses (map (λ e. (i, e)) es) t ≡ length es * uses (classes i).resources t
  wanted_uses-map i [] t = omega arith
  wanted_uses-map i (e ∷ es) t = grind (arith, wanted_uses-map i es t)

module _ {W R : Type 0} (host : Host W) (classes : ℕ → QueueClass W R)
    (calm : (i : ℕ) → IsCalm (classes i)) where
  dequeue-IsDrained : (q : Queue) → IsOrdered q → IsDrained (dequeue q).1
  unfolding dequeue
  dequeue-IsDrained q h = (record { sorted = h.sorted; numbered = h.numbered }, refl)

  pub pull_forward-Returns :
      (i : ℕ) (es : List ℕ) (qs : List Queue) (w : W)
      → All IsOrdered qs
      → Returns
          (λ r. All IsDrained r.0 × (length r.0 ≡ length qs))
          (pull_forward host classes i es qs w)
  unfolding pull_forward
  pull_forward-Returns i es [] w h = (tt, refl)
  pull_forward-Returns i es (q ∷ qs) w h =
      Returns-bind (λ r. Unit {0} × IsOrdered r.0) _ (enqueue host (classes i) es q w) _
        (Returns-Ensures (λ _. Unit {0}) (λ r. IsOrdered r.0) _
          (enqueue-Returns host (classes i) (calm i) es q w)
          (enqueue-IsOrdered host (classes i) es q w h.0))
        (λ (q', w') a.
          Returns-bind (λ r. All IsDrained r.0 × (length r.0 ≡ length qs)) _
            (pull_forward host classes (i + 1) (dequeue q').0 qs w') _
            (pull_forward-Returns (i + 1) (dequeue q').0 qs w' h.1)
            (λ (qs', w'') b. ((dequeue-IsDrained q' a.1, b.0), ap suc b.1)))

  dequeue_ready-drained : (q : Queue) → IsDrained q → dequeue_ready q ≡ false
  unfolding dequeue_ready
  dequeue_ready-drained q h = rw h.1

  pub any_ready-drained :
      (n : ℕ) (qs : List Queue) → All IsDrained qs → any_ready host classes n qs ≡ false
  unfolding any_ready
  any_ready-drained n [] h = refl
  any_ready-drained zero (q ∷ qs) h =
      rw (dequeue_ready-drained q h.0) (any_ready-drained zero qs h.1)
  any_ready-drained (suc n) (q ∷ qs) h = any_ready-drained n qs h.1

  harvest_jobs-IsDrained :
      (c : QueueClass W R) (q : Queue) (pool : Resources)
      → IsDrained q
      → IsDrained (harvest_jobs host c q pool).1
  harvest_jobs-IsDrained c q pool h =
      (harvest_jobs-IsOrdered host c q pool h.0, done_queue-harvest_jobs host c q pool ∙ h.1)

  indices_map :
      (i l : ℕ) (es : List ℕ)
      → All {A = Wanted} (λ x. (i + 0 ≤ x.0) × (x.0 < i + suc l)) (map (λ e. (i, e)) es)
  indices_map i l [] = tt
  indices_map i l (e ∷ es) = ((omega arith, omega arith), indices_map i l es)

  -- What a harvest leaves: the queues as they were but for their heaps, and resources that are
  -- taken by the wanted jobs within the limits.
  pub record Harvested (n i : ℕ) (qs : List Queue) (pool : Resources) : Type 0 where
    pub drained : All IsDrained (harvest_from host classes n i qs pool).1
    pub same_length : length (harvest_from host classes n i qs pool).1 ≡ length qs
    pub within : IsWithin (harvest_from host classes n i qs pool).2
    pub used :
        (t : ResourceType)
        → (harvest_from host classes n i qs pool).2.used_resources t
          ≡ pool.used_resources t + wanted_uses classes (harvest_from host classes n i qs pool).0 t
    pub indices :
        All (λ x. (i + n ≤ x.0) × (x.0 < i + length qs)) (harvest_from host classes n i qs pool).0

  pub harvest_from-Harvested :
      (n i : ℕ) (qs : List Queue) (pool : Resources)
      → All IsDrained qs
      → IsWithin pool
      → Harvested n i qs pool
  unfolding harvest_from
  harvest_from-Harvested n i [] pool h w = record {
    drained = tt;
    same_length = refl;
    within = w;
    used = λ t. omega arith;
    indices = tt;
  }
  harvest_from-Harvested zero i (q ∷ qs) pool h w =
      let r = harvest_from-Harvested zero (i + 1) qs pool h.1 w in
      let pool' = (harvest_from host classes zero (i + 1) qs pool).2 in
      let wanted = (harvest_from host classes zero (i + 1) qs pool).0 in
      let es = (harvest_jobs host (classes i) q pool').0 in
      record {
        drained = (harvest_jobs-IsDrained (classes i) q pool' h.0, r.drained);
        same_length = ap suc r.same_length;
        within = harvest_jobs-IsWithin host (classes i) q pool' r.within;
        used = λ t. omega (
          arith,
          wanted_uses-append classes wanted (map (λ e. (i, e)) es) t,
          wanted_uses-map classes i es t,
          r.used t,
          harvest_jobs-used host (classes i) q pool' t
              ∙ ap (λ rs. pool'.used_resources t + length es * uses rs t)
                  (to_set-IsDistinct (classes i).resources (calm i).usable.distinct),
        );
        indices =
            All-append _ wanted (map (λ e. (i, e)) es)
              (All-weaken _ _ wanted (λ x p. (omega (arith, p.0), omega (arith, p.1))) r.indices)
              (indices_map i (length qs) es);
      }
  harvest_from-Harvested (suc n) i (q ∷ qs) pool h w =
      let r = harvest_from-Harvested n (i + 1) qs pool h.1 w in
      record {
        drained = (h.0, r.drained);
        same_length = ap suc r.same_length;
        within = r.within;
        used = r.used;
        indices =
            All-weaken _ _ (harvest_from host classes n (i + 1) qs pool).0
              (λ x p. (omega (arith, p.0), omega (arith, p.1))) r.indices;
      }
