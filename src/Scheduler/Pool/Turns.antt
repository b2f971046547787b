-- ===== src/Scheduler/Pool/Turns.antt =====
-- The pool of crates/dedupe-core/src/scheduler.rs ends: how many steps its threads can make.
use safe_duplicate_finder.Base.{
  ℕ, zero, suc, ◌+◌, ◌-◌, ◌*◌, ◌<◌, ◌≤◌, ◌≡◌, refl, ap, Bool, true, false, List, [], ◌∷◌, ◌++◌,
  length, length-append, arith, if◌then◌else◌,
}
use safe_duplicate_finder.Error.{Result, ok, err, cancelled}
use safe_duplicate_finder.Model.{WorkerConfig}
use safe_duplicate_finder.Scheduler.{VolumeJob}
use safe_duplicate_finder.Scheduler.Pool.{
  Message, Worker, idle, taken, waiting, permitted, working, sending, gone, Pool, enumerate_from,
  replicate, new_pool, worker_count, after_sending, Step, produce_check, produce, produce_cancelled,
  produce_refused, take, check_taken, cancel_taken, acquire_permit, cancel_waiting, check_permitted,
  cancel_permitted, work, send, leave, collect, cancel, set_paused, Run, here, after,
}

-- The checkpoint that the producer has passed already.
abbrev checked : Bool → ℕ
checked true = 1
checked false = 0

module _ {T R : Type 0} where
  -- How many steps are left of a worker, at most, with the message that it has yet to send.
  abbrev weight : Worker T R → ℕ
  weight idle = 1
  weight (taken task) = 7
  weight (waiting task) = 6
  weight (permitted task) = 5
  weight (working task) = 4
  weight (sending m) = 3
  weight gone = 0

  abbrev total : List (Worker T R) → ℕ
  total [] = 0
  total (w ∷ workers) = weight w + total workers

  abbrev pub steps_left : Pool T R → ℕ
  steps_left p =
      (9 * length p.pending - checked p.ready)
      + 7 * length p.queue
      + total p.workers
      + length p.messages

  total-append : (xs ys : List (Worker T R)) → total (xs ++ ys) ≡ total xs + total ys
  total-append [] ys = omega arith
  total-append (x ∷ xs) ys = omega (arith, total-append xs ys)

  total_split :
      (workers front back : List (Worker T R)) (w : Worker T R)
      → workers ≡ front ++ (w ∷ back)
      → total workers ≡ total front + (weight w + total back)
  total_split workers front back w e = rw e (total-append front (w ∷ back))

after_sending-weight :
    (T : Type 0) {R : Type 0} (m : Message R) → weight (after_sending {T = T} m) ≤ 1
after_sending-weight T (i, ok r) = omega arith
after_sending-weight T (i, err e) = omega arith

total-replicate : (T R : Type 0) (n : ℕ) → total {T = T} {R = R} (replicate n idle) ≡ n
unfolding replicate
total-replicate T R zero = refl
total-replicate T R (suc n) = omega (arith, total-replicate T R n)

length-enumerate_from :
    {A : Type 0} (k : ℕ) (xs : List A) → length (enumerate_from k xs) ≡ length xs
unfolding enumerate_from
length-enumerate_from k [] = refl
length-enumerate_from k (x ∷ xs) = ap suc (length-enumerate_from (suc k) xs)

module _ {T R : Type 0} (config : WorkerConfig) (Gives : T → Result R → Type 0) where
  -- A call of `cancel`, `pause` or `resume` is no step of the pool's own.
  abbrev pub is_call : {p q : Pool T R} → Step config Gives p q → Bool
  is_call cancel = true
  is_call (set_paused b) = true
  is_call _ = false

  -- The pool's own steps of a run.
  abbrev pub turns : {p q : Pool T R} → Run config Gives p q → ℕ
  turns here = 0
  turns (after run step) = (if is_call step then 0 else 1) + turns run

  -- One worker moves on, and the rest of the pool is as it was or lighter.
  lighter :
      (p : Pool T R) (front back : List (Worker T R)) (w w' : Worker T R) (k : ℕ)
      → p.workers ≡ front ++ (w ∷ back)
      → k + weight w' < weight w
      → suc (k + total (front ++ (w' ∷ back))) ≤ total p.workers
  lighter p front back w w' k e h =
      omega (arith, h, total_split p.workers front back w e, total-append front (w' ∷ back))

  Step-steps_left :
      {p q : Pool T R} (s : Step config Gives p q)
      → (if is_call s then 0 else 1) + steps_left q ≤ steps_left p
  Step-steps_left {p} (produce_check t rest e y c u) = omega (arith, ap length e, ap checked y)
  Step-steps_left {p} (produce t rest e y l) =
      omega (arith, ap length e, ap checked y, length-append p.queue (t ∷ []))
  Step-steps_left {p} (produce_cancelled t rest e y c l) =
      omega (arith, ap length e, ap checked y, length-append p.messages ((t.0, err cancelled) ∷ []))
  Step-steps_left {p} (produce_refused t rest e y g) = omega (arith, ap length e, ap checked y)
  Step-steps_left {p} (take t rest front back e f) = omega (
    arith,
    ap length f,
    total_split p.workers front back idle e,
    total-append front (taken t ∷ back),
  )
  Step-steps_left {p} (acquire_permit t front back e c u pos) =
      omega (arith, lighter p front back (waiting t) (permitted t) 0 e (omega arith))
  Step-steps_left {p} (cancel_waiting t front back e c) =
      omega
        (arith, lighter p front back (waiting t) (sending (t.0, err cancelled)) 0 e (omega arith))
  Step-steps_left {p} (check_taken t front back e c u) =
      omega (arith, lighter p front back (taken t) (waiting t) 0 e (omega arith))
  Step-steps_left {p} (cancel_taken t front back e c) =
      omega (arith, lighter p front back (taken t) (sending (t.0, err cancelled)) 0 e (omega arith))
  Step-steps_left {p} (check_permitted t front back e c u) =
      omega (arith, lighter p front back (permitted t) (working t) 0 e (omega arith))
  Step-steps_left {p} (cancel_permitted t front back e c) =
      omega
        (arith, lighter p front back (permitted t) (sending (t.0, err cancelled)) 0 e (omega arith))
  Step-steps_left {p} (work t r front back e g) =
      omega (arith, lighter p front back (working t) (sending (t.0, r)) 0 e (omega arith))
  Step-steps_left {p} (send m front back e l) = omega (
    arith,
    length-append p.messages (m ∷ []),
    lighter p front back (sending m) (after_sending m) 1 e
        (omega (arith, after_sending-weight T m)),
  )
  Step-steps_left {p} (leave front back e x y) =
      omega (arith, lighter p front back idle gone 0 e (omega arith))
  Step-steps_left {p} (collect m rest e) = omega (arith, ap length e)
  Step-steps_left {p} cancel = omega arith
  Step-steps_left {p} (set_paused b) = omega arith

  -- However the threads take turns, and however often the token is paused, resumed or cancelled, the
  -- threads of a pool make at most nine steps for each job and one for each worker.
  pub turns_bounded :
      (jobs : List (VolumeJob T)) {p : Pool T R} (run : Run config Gives (new_pool config jobs) p)
      → turns run + steps_left p ≤ 9 * length jobs + worker_count config jobs
  unfolding new_pool
  turns_bounded jobs here =
      omega (arith, length-enumerate_from 0 jobs, total-replicate T R (worker_count config jobs))
  turns_bounded jobs (after run step) = omega (arith, Step-steps_left step, turns_bounded jobs run)
