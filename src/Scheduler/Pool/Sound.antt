-- ===== src/Scheduler/Pool/Sound.antt =====
-- What moves through the channels of crates/dedupe-core/src/scheduler.rs: tasks of the jobs that were
-- given, and results of those.
use mathlib.Core.List.{append_assoc}
use safe_duplicate_finder.Base.{
  ℕ, zero, suc, ◌≡◌, refl, ◌∙◌, sym, List, [], ◌∷◌, ◌++◌, length, length-snoc, get_elem?-append,
  All, All-append, get_elem?, some, Text,
}
use safe_duplicate_finder.Error.{Result, ok, err}
use safe_duplicate_finder.Model.{WorkerConfig}
use safe_duplicate_finder.Scheduler.{VolumeJob}
use safe_duplicate_finder.Scheduler.Slots.{Slots, IsResultOf, nothing_yet-Slots, receive-Slots}
use safe_duplicate_finder.Scheduler.Pool.{
  Task, Worker, idle, taken, waiting, permitted, working, sending, gone, Pool, enumerate_from,
  replicate, new_pool, worker_count, after_sending, Step, produce_check, produce, produce_cancelled,
  produce_refused, take, check_taken, cancel_taken, acquire_permit, cancel_waiting, check_permitted,
  cancel_permitted, work, send, leave, collect, cancel, set_paused, Run, here, after,
}

All-middle :
    {A : Type 0} (P : A → Type 0) (front back : List A) (x : A)
    → All P (front ++ (x ∷ back))
    → All P front × (P x × All P back)
All-middle P [] back x (h, hs) = (tt, (h, hs))
All-middle P (f ∷ front) back x (h, hs) =
    let rest = All-middle P front back x hs in ((h, rest.0), rest.1)

module _ {T R : Type 0} (Gives : T → Result R → Type 0) (jobs : List (VolumeJob T)) where
  abbrev pub Good : T → R → Type 0
  Good t r = Gives t (ok r)

  abbrev pub IsTask : Task T → Type 0
  IsTask task = get_elem? jobs task.0 ≡ some task.1

  abbrev pub WorkerOk : Worker T R → Type 0
  WorkerOk (taken task) = IsTask task
  WorkerOk (waiting task) = IsTask task
  WorkerOk (permitted task) = IsTask task
  WorkerOk (working task) = IsTask task
  WorkerOk (sending m) = IsResultOf Good jobs m
  WorkerOk _ = Unit

  pub record IsSound (p : Pool T R) : Type 0 where
    pub pending : All IsTask p.pending
    pub queue : All IsTask p.queue
    pub workers : All WorkerOk p.workers
    pub messages : All (IsResultOf Good jobs) p.messages
    pub slots : Slots Good jobs p.collected.ordered

  replaced-All :
      (workers front back : List (Worker T R)) (w w' : Worker T R)
      → workers ≡ front ++ (w ∷ back)
      → All WorkerOk workers
      → (WorkerOk w → WorkerOk w')
      → All WorkerOk (front ++ (w' ∷ back)) × WorkerOk w
  replaced-All workers front back w w' e h f =
      let split = All-middle WorkerOk front back w (rw e at h) in
      (All-append WorkerOk front (w' ∷ back) split.0 (f split.1.0, split.1.1), split.1.0)

  given :
      (task : Task T) (r : Result R)
      → IsTask task
      → Gives (task.1.value) r
      → IsResultOf Good jobs (task.0, r)
  given task (ok r) h g = (task.1, h, g)
  given task (err e) h g = tt

  after_sending-WorkerOk : (m : ℕ × Result R) → WorkerOk (after_sending m)
  after_sending-WorkerOk (i, ok r) = tt
  after_sending-WorkerOk (i, err e) = tt

  moved-IsSound :
      (p : Pool T R) (workers : List (Worker T R)) (available : Text → ℕ)
      → IsSound p
      → All WorkerOk workers
      → IsSound (record p { workers = workers; available = available })
  moved-IsSound p workers available h ok_workers = record {
    pending = h.pending;
    queue = h.queue;
    workers = ok_workers;
    messages = h.messages;
    slots = h.slots;
  }

  module _ (config : WorkerConfig) where
    Step-IsSound : {p q : Pool T R} → Step config Gives p q → IsSound p → IsSound q
    Step-IsSound {p} (produce_check task rest e y c u) h = record {
      pending = h.pending;
      queue = h.queue;
      workers = h.workers;
      messages = h.messages;
      slots = h.slots;
    }
    Step-IsSound {p} (produce task rest e y l) h =
        let tasks : IsTask task × All IsTask rest = (rw e at h.pending) in
        record {
          pending = tasks.1;
          queue = All-append IsTask p.queue (task ∷ []) h.queue (tasks.0, tt);
          workers = h.workers;
          messages = h.messages;
          slots = h.slots;
        }
    Step-IsSound {p} (produce_cancelled task rest e y c l) h = record {
      pending = tt;
      queue = h.queue;
      workers = h.workers;
      messages = All-append _ p.messages _ h.messages (tt, tt);
      slots = h.slots;
    }
    Step-IsSound {p} (produce_refused t rest e y g) h = record {
      pending = tt;
      queue = h.queue;
      workers = h.workers;
      messages = h.messages;
      slots = h.slots;
    }
    Step-IsSound {p} (take task rest front back e f) h =
        let tasks : IsTask task × All IsTask rest = (rw f at h.queue) in
        record {
          pending = h.pending;
          queue = tasks.1;
          workers =
              (replaced-All p.workers front back idle (taken task) e h.workers (λ _. tasks.0)).0;
          messages = h.messages;
          slots = h.slots;
        }
    Step-IsSound {p} (acquire_permit task front back e c u pos) h =
        moved-IsSound p _ _ h
          (replaced-All p.workers front back (waiting task) (permitted task) e h.workers (λ k. k)).0
    Step-IsSound {p} (cancel_waiting task front back e c) h =
        moved-IsSound p _ _ h
          (replaced-All p.workers front back (waiting task) (sending _) e h.workers (λ _. tt)).0
    Step-IsSound {p} (check_taken task front back e c u) h =
        moved-IsSound p _ _ h
          (replaced-All p.workers front back (taken task) (waiting task) e h.workers (λ k. k)).0
    Step-IsSound {p} (cancel_taken task front back e c) h =
        moved-IsSound p _ _ h
          (replaced-All p.workers front back (taken task) (sending _) e h.workers (λ _. tt)).0
    Step-IsSound {p} (check_permitted task front back e c u) h =
        moved-IsSound p _ _ h
          (replaced-All p.workers front back (permitted task) (working task) e h.workers (λ k. k)).0
    Step-IsSound {p} (cancel_permitted task front back e c) h =
        moved-IsSound p _ _ h
          (replaced-All p.workers front back (permitted task) (sending _) e h.workers (λ _. tt)).0
    Step-IsSound {p} (work task r front back e g) h =
        moved-IsSound p _ _ h
          (replaced-All p.workers front back (working task) (sending _) e h.workers
            (λ k. given task r k g)).0
    Step-IsSound {p} (send m front back e l) h =
        let sent =
          replaced-All p.workers front back (sending m) (after_sending m) e h.workers
            (λ _. after_sending-WorkerOk m) in
        record {
          pending = h.pending;
          queue = h.queue;
          workers = sent.0;
          messages = All-append _ p.messages (m ∷ []) h.messages (sent.1, tt);
          slots = h.slots;
        }
    Step-IsSound {p} (leave front back e x y) h =
        moved-IsSound p _ _ h (replaced-All p.workers front back idle gone e h.workers (λ _. tt)).0
    Step-IsSound {p} (collect m rest e) h =
        let received : IsResultOf Good jobs m × All (IsResultOf Good jobs) rest =
          (rw e at h.messages) in
        record {
          pending = h.pending;
          queue = h.queue;
          workers = h.workers;
          messages = received.1;
          slots = receive-Slots Good jobs m p.collected received.0 h.slots;
        }
    Step-IsSound {p} cancel h = record {
      pending = h.pending;
      queue = h.queue;
      workers = h.workers;
      messages = h.messages;
      slots = h.slots;
    }
    Step-IsSound {p} (set_paused b) h = record {
      pending = h.pending;
      queue = h.queue;
      workers = h.workers;
      messages = h.messages;
      slots = h.slots;
    }

  replicate-WorkerOk : (n : ℕ) → All WorkerOk (replicate n idle)
  unfolding replicate
  replicate-WorkerOk zero = tt
  replicate-WorkerOk (suc n) = (tt, replicate-WorkerOk n)

  enumerate_from-IsTask :
      (done rest : List (VolumeJob T))
      → jobs ≡ done ++ rest
      → All IsTask (enumerate_from (length done) rest)
  unfolding enumerate_from
  enumerate_from-IsTask done [] e = tt
  enumerate_from-IsTask done (job ∷ rest) e = (
    rw e (get_elem?-append done job rest),
    rw (length-snoc done job) at (
        enumerate_from-IsTask (done ++ (job ∷ [])) rest
          (e ∙ sym (append_assoc done (job ∷ []) rest))),
  )

  module _ (config : WorkerConfig) where
    pub Run-IsSound : {p : Pool T R} → Run config Gives (new_pool config jobs) p → IsSound p
    unfolding new_pool
    Run-IsSound here = record {
      pending = enumerate_from-IsTask [] jobs refl;
      queue = tt;
      workers = replicate-WorkerOk (worker_count config jobs);
      messages = tt;
      slots = nothing_yet-Slots Good jobs;
    }
    Run-IsSound (after run step) = Step-IsSound config step (Run-IsSound run)
