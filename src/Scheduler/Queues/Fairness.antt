-- ===== src/Scheduler/Queues/Fairness.antt =====
-- The order in which queue.py starts its elements: by depth, then by arrival.
use buildstream.Common.{
  ℕ, ◌+◌, ◌<◌, ◌≡◌, refl, true, false, not, ◌&&◌, Option, none, some, List, [], ◌∷◌, ◌++◌, map, ap,
  arith, Bool-cases, inl, inr, ◌⊎◌, All, subst, Ensures, contains, Ensures-any, Ensures-bind,
  length, ◌*◌,
}
use buildstream.Scheduler.Resources.{ResourceType, Resources, reserve, to_set}
use buildstream.Scheduler.Resources.Accounting.{
  reserve_unchanged, uses, IsWithin, reserve-IsWithin, reserve-used,
}
use buildstream.Scheduler.Queues.{
  Host, QueueClass, QueueStatus, pending, skip, ready, Entry, before, heappush, Queue, register,
  place, add_session, enqueue_element, enqueue_one, enqueue, retry_job, harvest, harvest_jobs,
}

abbrev pub IsSorted : List Entry → Type 0
IsSorted [] = Unit
IsSorted (x ∷ xs) = All (λ y. before x y ≡ true) xs × IsSorted xs

-- The heap pops in order, and every entry came before the next number to give.
pub record IsOrdered (q : Queue) : Type 0 where
  pub sorted : IsSorted q.ready_queue
  pub numbered : All (λ x. x.order < q.queued_elements) q.ready_queue

before_trans : (a b c : Entry) → before a b ≡ true → before b c ≡ true → before a c ≡ true
before_trans a b c h k = ground arith

before_total : (a b : Entry) → b.order < a.order → before a b ≡ false → before b a ≡ true
before_total a b l h = ground arith

All-before :
    (a b : Entry) (xs : List Entry)
    → before a b ≡ true
    → All (λ y. before b y ≡ true) xs
    → All (λ y. before a y ≡ true) xs
All-before a b [] h k = tt
All-before a b (x ∷ xs) h k = (before_trans a b x h k.0, All-before a b xs h k.1)

All-heappush {ℓ} :
    (P : Entry → Type ℓ) (e : Entry) (xs : List Entry) → P e → All P xs → All P (heappush e xs)
unfolding heappush
All-heappush P e [] h k = (h, tt)
All-heappush P e (x ∷ xs) h k = elim (Bool-cases (before e x)) [
  | inl b ↦ rw b (h, (k.0, k.1))
  | inr b ↦ rw b (k.0, All-heappush P e xs h k.1)
]

heappush-IsSorted :
    (e : Entry) (xs : List Entry)
    → All (λ x. x.order < e.order) xs
    → IsSorted xs
    → IsSorted (heappush e xs)
unfolding heappush
heappush-IsSorted e [] n s = (tt, tt)
heappush-IsSorted e (x ∷ xs) n s = elim (Bool-cases (before e x)) [
  | inl b ↦ rw b ((b, All-before e x xs b s.0), s)
  | inr b ↦ rw b (
    All-heappush (λ y. before x y ≡ true) e xs (before_total e x n.0 b) s.0,
    heappush-IsSorted e xs n.1 s.1,
  )
]

All-weaken : (n : ℕ) (xs : List Entry) → All (λ x. x.order < n) xs → All (λ x. x.order < n + 1) xs
All-weaken n [] h = tt
All-weaken n (x ∷ xs) h = (omega arith, All-weaken n xs h.1)

abbrev pub elements : List Entry → List ℕ
elements = map (λ x. x.element)

IsSorted-append :
    (xs ys : List Entry)
    → IsSorted (xs ++ ys)
    → IsSorted ys × All (λ x. All (λ y. before x y ≡ true) ys) xs
IsSorted-append [] ys s = (s, tt)
IsSorted-append (x ∷ xs) ys s =
    let (sorted, all) = IsSorted-append xs ys s.1 in (sorted, (All-right xs s.0, all))
  where
    All-right :
        (zs : List Entry)
        → All (λ y. before x y ≡ true) (zs ++ ys)
        → All (λ y. before x y ≡ true) ys
    All-right [] h = h
    All-right (z ∷ zs) h = All-right zs h.1

All-suffix {ℓ} : (P : Entry → Type ℓ) (xs ys : List Entry) → All P (xs ++ ys) → All P ys
All-suffix P [] ys h = h
All-suffix P (x ∷ xs) ys h = All-suffix P xs ys h.1

module _ {W R : Type 0} (host : Host W) (class : QueueClass W R) where
  register-IsOrdered :
      (r : Option (W → W)) (q : Queue) (w : W)
      → IsOrdered q
      → Ensures (λ r. IsOrdered r.0) (register host class r q w)
  unfolding register
  register-IsOrdered none q w inv = tt
  register-IsOrdered (some c) q w inv = inv

  pub place-IsOrdered :
      (status : QueueStatus) (e : ℕ) (q : Queue) (w : W)
      → IsOrdered q
      → Ensures (λ r. IsOrdered r.0) (place host class status e q w)
  unfolding place
  place-IsOrdered pending e q w inv = register-IsOrdered (class.register_pending_element e) q w inv
  place-IsOrdered skip e q w inv = record { sorted = inv.sorted; numbered = inv.numbered }
  place-IsOrdered ready e q w inv =
      let x : Entry = record { depth = host.depth e w; order = q.queued_elements; element = e } in
      record {
        sorted = heappush-IsSorted x q.ready_queue inv.numbered inv.sorted;
        numbered =
            All-heappush (λ y. y.order < q.queued_elements + 1) x q.ready_queue (omega arith)
              (All-weaken q.queued_elements q.ready_queue inv.numbered);
      }

  -- Entering a queue, ready or not, keeps its heap in the order of depth and arrival.
  pub enqueue_element-IsOrdered :
      (e : ℕ) (q : Queue) (w : W)
      → IsOrdered q
      → Ensures (λ r. IsOrdered r.0) (enqueue_element host class e q w)
  unfolding enqueue_element
  enqueue_element-IsOrdered e q w inv =
      Ensures-bind (λ _. Unit {0}) (λ r. IsOrdered r.0) (class.status e w) _
        (Ensures-any _ (class.status e w) (λ _. tt))
        (λ (status, w') _.
          place-IsOrdered status e
            (record q { session_elements = add_session e q.session_elements }) w'
            (record { sorted = inv.sorted; numbered = inv.numbered }))

  enqueue_one-IsOrdered :
      (e : ℕ) (q : Queue) (w : W)
      → IsOrdered q
      → Ensures (λ r. IsOrdered r.0) (enqueue_one host class e q w)
  unfolding enqueue_one
  enqueue_one-IsOrdered e q w inv =
      elim (Bool-cases (q.required_element_check && not (host.is_required e w))) [
        | inl b ↦ rw b inv
        | inr b ↦ rw b (enqueue_element-IsOrdered e q w inv)
      ]

  pub enqueue-IsOrdered :
      (es : List ℕ) (q : Queue) (w : W)
      → IsOrdered q
      → Ensures (λ r. IsOrdered r.0) (enqueue host class es q w)
  unfolding enqueue
  enqueue-IsOrdered [] q w inv = inv
  enqueue-IsOrdered (e ∷ es) q w inv =
      Ensures-bind (λ r. IsOrdered r.0) (λ r. IsOrdered r.0) (enqueue_one host class e q w) _
        (enqueue_one-IsOrdered e q w inv) (λ (q', w') inv'. enqueue-IsOrdered es q' w' inv')

  pub retry_job-IsOrdered :
      (e : ℕ) (q : Queue) (w : W)
      → IsOrdered q
      → Ensures (λ r. IsOrdered r.0) (retry_job host class e q w)
  unfolding retry_job
  retry_job-IsOrdered e q w inv = elim (Bool-cases (contains q.task_group.failed_tasks e)) [
    | inl b ↦
        rw b
          (enqueue-IsOrdered (e ∷ []) _ w (record { sorted = inv.sorted; numbered = inv.numbered }))
    | inr b ↦ rw b tt
  ]

  -- The harvested entries are the first of the heap.
  harvest_split :
      (xs : List Entry) (pool : Resources)
      → (started : List Entry) × (xs ≡ started ++ (harvest host class xs pool).1)
        × ((harvest host class xs pool).0 ≡ elements started)
  unfolding harvest
  harvest_split [] pool = ([], refl, refl)
  harvest_split (x ∷ xs) pool = elim (Bool-cases (reserve pool class.resources [] false).0) [
    | inl b ↦
        let (started, split, es) = harvest_split xs (reserve pool class.resources [] false).1 in
        rw b (x ∷ started, ap (λ l. x ∷ l) split, ap (λ l. x.element ∷ l) es)
    | inr b ↦ rw b ([], refl, refl)
  ]

  -- Jobs are started in the order of depth and then arrival: what `harvest_jobs` takes is a prefix
  -- of the heap, nothing is lost, and each entry that it takes is before each that it leaves.
  pub harvest_jobs_fair :
      (q : Queue) (pool : Resources)
      → IsOrdered q
      → (started : List Entry) × (q.ready_queue
          ≡ started ++ (harvest_jobs host class q pool).1.ready_queue)
        × ((harvest_jobs host class q pool).0 ≡ elements started)
        × All
            (λ x. All (λ y. before x y ≡ true) (harvest_jobs host class q pool).1.ready_queue)
            started
  unfolding harvest_jobs
  harvest_jobs_fair q pool inv =
      let (started, split, es) = harvest_split q.ready_queue pool in
      (started, split, es, (IsSorted-append started _ (subst IsSorted split inv.sorted)).1)

  pub harvest_jobs-IsOrdered :
      (q : Queue) (pool : Resources) → IsOrdered q → IsOrdered (harvest_jobs host class q pool).1
  unfolding harvest_jobs
  harvest_jobs-IsOrdered q pool inv =
      let (started, split, es) = harvest_split q.ready_queue pool in
      record {
        sorted = (IsSorted-append started _ (subst IsSorted split inv.sorted)).0;
        numbered =
            All-suffix (λ x. x.order < q.queued_elements) started _
              (subst (All (λ x. x.order < q.queued_elements)) split inv.numbered);
      }

  pub done_queue-harvest_jobs :
      (q : Queue) (pool : Resources) → (harvest_jobs host class q pool).1.done_queue ≡ q.done_queue
  unfolding harvest_jobs
  done_queue-harvest_jobs q pool = refl

  harvest_stops :
      (xs : List Entry) (pool : Resources)
      → ((harvest host class xs pool).1 ≡ [])
        ⊎ ((reserve (harvest host class xs pool).2 class.resources [] false).0 ≡ false)
  unfolding harvest
  harvest_stops [] pool = inl refl
  harvest_stops (x ∷ xs) pool = elim (Bool-cases (reserve pool class.resources [] false).0) [
    | inl b ↦ rw b (harvest_stops xs (reserve pool class.resources [] false).1)
    | inr b ↦ rw b (inr (rw (reserve_unchanged pool class.resources [] false (inl b)) b))
  ]

  -- The loop ends only when the heap is empty or the resources of one more job are refused.
  pub harvest_jobs_stops :
      (q : Queue) (pool : Resources)
      → ((harvest_jobs host class q pool).1.ready_queue ≡ [])
        ⊎ ((reserve (harvest_jobs host class q pool).2 class.resources [] false).0 ≡ false)
  unfolding harvest_jobs
  harvest_jobs_stops q pool = harvest_stops q.ready_queue pool

  harvest-used :
      (xs : List Entry) (pool : Resources) (t : ResourceType)
      → (harvest host class xs pool).2.used_resources t
        ≡ pool.used_resources t
          + length (harvest host class xs pool).0 * uses (to_set class.resources) t
  unfolding harvest
  harvest-used [] pool t = omega arith
  harvest-used (x ∷ xs) pool t = elim (Bool-cases (reserve pool class.resources [] false).0) [
    | inl b ↦ rw b (
        omega (
          arith,
          harvest-used xs (reserve pool class.resources [] false).1 t,
          ap (λ (r : Resources). r.used_resources t) (reserve-used pool class.resources [] b),
        ))
    | inr b ↦ rw b (
        omega (
          arith,
          ap (λ (r : Resources). r.used_resources t)
              (reserve_unchanged pool class.resources [] false (inl b)),
        ))
  ]

  -- What the started jobs hold of each resource: a use for each job and each resource of the class.
  pub harvest_jobs-used :
      (q : Queue) (pool : Resources) (t : ResourceType)
      → (harvest_jobs host class q pool).2.used_resources t
        ≡ pool.used_resources t
          + length (harvest_jobs host class q pool).0 * uses (to_set class.resources) t
  unfolding harvest_jobs
  harvest_jobs-used q pool t = harvest-used q.ready_queue pool t

  harvest-IsWithin :
      (xs : List Entry) (pool : Resources) → IsWithin pool → IsWithin (harvest host class xs pool).2
  unfolding harvest
  harvest-IsWithin [] pool h = h
  harvest-IsWithin (x ∷ xs) pool h =
      let h' = reserve-IsWithin pool class.resources [] false h in
      elim (Bool-cases (reserve pool class.resources [] false).0) [
        | inl b ↦ rw b (harvest-IsWithin xs (reserve pool class.resources [] false).1 h')
        | inr b ↦ rw b h'
      ]

  -- However many elements are ready, no resource is taken beyond its limit.
  pub harvest_jobs-IsWithin :
      (q : Queue) (pool : Resources) → IsWithin pool → IsWithin (harvest_jobs host class q pool).2
  unfolding harvest_jobs
  harvest_jobs-IsWithin q pool h = harvest-IsWithin q.ready_queue pool h
