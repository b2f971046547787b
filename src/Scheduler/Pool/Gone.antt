-- ===== src/Scheduler/Pool/Gone.antt =====
-- What it means in crates/dedupe-core/src/scheduler.rs that a worker has gone.
use mathlib.Core.List.{Memᴰ}
use mathlib.Core.List.Memᴰ.{head, tail}
use safe_duplicate_finder.Base.{
  ℕ, zero, suc, ◌<◌, ◌≡◌, refl, ap, ◌⊎◌, inl, inr, Bool, true, false, List, [], ◌∷◌, ◌++◌, length,
  length-append, arith,
}
use safe_duplicate_finder.Error.{Result, ok, err}
use safe_duplicate_finder.Model.{WorkerConfig}
use safe_duplicate_finder.Scheduler.{VolumeJob}
use safe_duplicate_finder.Scheduler.Pool.{
  Task, Worker, idle, taken, waiting, permitted, working, sending, gone, Pool, replicate, AllGone,
  Step, produce_check, produce, produce_cancelled, produce_refused, take, check_taken, cancel_taken,
  acquire_permit, cancel_waiting, check_permitted, cancel_permitted, work, send, leave, collect,
  cancel, set_paused,
}
use safe_duplicate_finder.Scheduler.Pool.Sound.{IsSound}
use safe_duplicate_finder.Scheduler.Pool.Accounted.{
  in_middle, replaced, WorkerHas, Further, in_message,
}
use safe_duplicate_finder.Scheduler.Pool.Further.{Step-Further}

abbrev is_gone : {T R : Type 0} → Worker T R → Bool
is_gone gone = true
is_gone _ = false

module _ {T R : Type 0} where
  -- A worker that is gone behind the step of another was gone before it.
  old_gone :
      (workers front back : List (Worker T R)) (w w' : Worker T R)
      → workers ≡ front ++ (w ∷ back)
      → is_gone w' ≡ false
      → Memᴰ gone (front ++ (w' ∷ back))
      → Memᴰ gone workers
  old_gone workers front back w w' e n m = elim (replaced front back w' w gone m) [
    | inl same ↦ absurd (ground (arith, n, ap is_gone same))
    | inr m' ↦ rw e m'
  ]

  pub gone_in :
      (workers : List (Worker T R)) → AllGone workers → 0 < length workers → Memᴰ gone workers
  gone_in [] g n = absurd (omega (arith, n))
  gone_in (gone ∷ workers) g n = head refl
  gone_in (idle ∷ workers) g n = absurd g
  gone_in (taken _ ∷ workers) g n = absurd g
  gone_in (waiting _ ∷ workers) g n = absurd g
  gone_in (permitted _ ∷ workers) g n = absurd g
  gone_in (working _ ∷ workers) g n = absurd g
  gone_in (sending _ ∷ workers) g n = absurd g

  pub all_gone :
      (workers : List (Worker T R)) (w : Worker T R) (task : Task T)
      → AllGone workers
      → Memᴰ w workers
      → WorkerHas w task
      → ⊥
  all_gone [] w task g m h = elim m [ ]
  all_gone (gone ∷ workers) w task g (head e) h = rw e at h
  all_gone (gone ∷ workers) w task g (tail m) h = all_gone workers w task g m h
  all_gone (idle ∷ workers) w task g m h = absurd g
  all_gone (taken _ ∷ workers) w task g m h = absurd g
  all_gone (waiting _ ∷ workers) w task g m h = absurd g
  all_gone (permitted _ ∷ workers) w task g m h = absurd g
  all_gone (working _ ∷ workers) w task g m h = absurd g
  all_gone (sending _ ∷ workers) w task g m h = absurd g

  still_workers :
      (workers front back : List (Worker T R)) (w : Worker T R) → 0 < length (front ++ (w ∷ back))
  still_workers workers front back w = ground (arith, length-append front (w ∷ back))

pub not_nil : {A : Type 0} {x : A} {xs ys : List A} → ys ≡ x ∷ xs → ys ≡ [] → ⊥
not_nil e f = ground (arith, ap length e, ap length f)

module _ (T R : Type 0) where
  pub not_gone : (n : ℕ) → Memᴰ {A = Worker T R} gone (replicate n idle) → ⊥
  unfolding replicate
  not_gone zero m = elim m [ ]
  not_gone (suc n) (head e) = ground (arith, ap is_gone e)
  not_gone (suc n) (tail m) = not_gone n m

module _ {T R : Type 0} (config : WorkerConfig) (Gives : T → Result R → Type 0)
    (jobs : List (VolumeJob T)) where
  abbrev pub GoneMeans : Pool T R → Type 0
  GoneMeans p =
      Memᴰ gone p.workers → ((p.pending ≡ []) × (p.queue ≡ [])) ⊎ ((task : Task T) → Further p task)

  pub Step-nonempty :
      {p q : Pool T R} → Step config Gives p q → 0 < length p.workers → 0 < length q.workers
  Step-nonempty {p} (produce_check t rest e y c u) n = n
  Step-nonempty {p} (produce t rest e y l) n = n
  Step-nonempty {p} (produce_cancelled t rest e y c l) n = n
  Step-nonempty {p} (produce_refused t rest e y g) n = n
  Step-nonempty {p} (take t rest front back e f) n = still_workers p.workers front back _
  Step-nonempty {p} (acquire_permit t front back e c u pos) n = still_workers p.workers front back _
  Step-nonempty {p} (cancel_waiting t front back e c) n = still_workers p.workers front back _
  Step-nonempty {p} (check_taken t front back e c u) n = still_workers p.workers front back _
  Step-nonempty {p} (cancel_taken t front back e c) n = still_workers p.workers front back _
  Step-nonempty {p} (check_permitted t front back e c u) n = still_workers p.workers front back _
  Step-nonempty {p} (cancel_permitted t front back e c) n = still_workers p.workers front back _
  Step-nonempty {p} (work t r front back e g) n = still_workers p.workers front back _
  Step-nonempty {p} (send m front back e l) n = still_workers p.workers front back _
  Step-nonempty {p} (leave front back e x y) n = still_workers p.workers front back _
  Step-nonempty {p} (collect m rest e) n = n
  Step-nonempty {p} cancel n = n
  Step-nonempty {p} (set_paused b) n = n

  -- The same channels and the same news of who is gone.
  still_means :
      {p q : Pool T R}
      → Step config Gives p q
      → IsSound Gives jobs p
      → GoneMeans p
      → (Memᴰ gone q.workers → Memᴰ gone p.workers)
      → ((p.pending ≡ []) × (p.queue ≡ []) → (q.pending ≡ []) × (q.queue ≡ []))
      → GoneMeans q
  still_means step s g old same m = elim (g (old m)) [
    | inl none_left ↦ inl (same none_left)
    | inr all ↦ inr (λ task. Step-Further config Gives jobs task step s (all task))
  ]

  pub Step-GoneMeans :
      {p q : Pool T R} → Step config Gives p q → IsSound Gives jobs p → GoneMeans p → GoneMeans q
  Step-GoneMeans {p} (produce_check t rest e y c u) s g =
      still_means (produce_check t rest e y c u) s g (λ k. k) (λ h. h)
  Step-GoneMeans {p} (produce t rest e y l) s g =
      still_means (produce t rest e y l) s g (λ m. m) (λ h. absurd (not_nil e h.0))
  Step-GoneMeans {p} (produce_cancelled t rest e y c l) s g =
      still_means (produce_cancelled t rest e y c l) s g (λ m. m) (λ h. absurd (not_nil e h.0))
  Step-GoneMeans {p} (produce_refused t rest e y x) s g =
      still_means (produce_refused t rest e y x) s g (λ m. m) (λ h. (refl, h.1))
  Step-GoneMeans {p} (take t rest front back e f) s g =
      still_means (take t rest front back e f) s g (old_gone p.workers front back _ _ e refl)
        (λ h. absurd (not_nil f h.1))
  Step-GoneMeans {p} (acquire_permit t front back e c u pos) s g =
      still_means (acquire_permit t front back e c u pos) s g
        (old_gone p.workers front back _ _ e refl) (λ h. h)
  Step-GoneMeans {p} (cancel_waiting t front back e c) s g =
      still_means (cancel_waiting t front back e c) s g (old_gone p.workers front back _ _ e refl)
        (λ h. h)
  Step-GoneMeans {p} (check_taken t front back e c u) s g =
      still_means (check_taken t front back e c u) s g (old_gone p.workers front back _ _ e refl)
        (λ h. h)
  Step-GoneMeans {p} (cancel_taken t front back e c) s g =
      still_means (cancel_taken t front back e c) s g (old_gone p.workers front back _ _ e refl)
        (λ h. h)
  Step-GoneMeans {p} (check_permitted t front back e c u) s g =
      still_means (check_permitted t front back e c u) s g
        (old_gone p.workers front back _ _ e refl) (λ h. h)
  Step-GoneMeans {p} (cancel_permitted t front back e c) s g =
      still_means (cancel_permitted t front back e c) s g (old_gone p.workers front back _ _ e refl)
        (λ h. h)
  Step-GoneMeans {p} (work t r front back e x) s g =
      still_means (work t r front back e x) s g (old_gone p.workers front back _ _ e refl) (λ h. h)
  Step-GoneMeans {p} (send (i, ok r) front back e l) s g =
      still_means (send (i, ok r) front back e l) s g (old_gone p.workers front back _ _ e refl)
        (λ h. h)
  Step-GoneMeans {p} (send (i, err x) front back e l) s g =
      λ _. inr (λ task. in_message (i, err x) (in_middle p.messages [] (i, err x)) tt)
  Step-GoneMeans {p} (leave front back e x y) s g = λ _. inl (x, y)
  Step-GoneMeans {p} (collect m rest e) s g = still_means (collect m rest e) s g (λ k. k) (λ h. h)
  Step-GoneMeans {p} cancel s g = still_means cancel s g (λ k. k) (λ h. h)
  Step-GoneMeans {p} (set_paused b) s g = still_means (set_paused b) s g (λ k. k) (λ h. h)
