-- ===== src/Scheduler/Pool/Accounted.antt =====
-- No task of crates/dedupe-core/src/scheduler.rs is lost: where each is, in any state.
use mathlib.Core.List.{Memᴰ}
use mathlib.Core.List.Memᴰ.{head, tail}
use safe_duplicate_finder.Base.{
  ℕ, zero, suc, ◌≡◌, refl, ◌⊎◌, inl, inr, Option, some, none, List, [], ◌∷◌, ◌++◌, get_elem?, arith,
}
use safe_duplicate_finder.Error.{DedupeError, ok, err}
use safe_duplicate_finder.Scheduler.{VolumeJob, Collected, set_at, receive}
use safe_duplicate_finder.Scheduler.Slots.{Slots, IsResultOf}
use safe_duplicate_finder.Scheduler.Pool.{
  Task, Message, Worker, idle, taken, waiting, permitted, working, sending, gone, Pool,
}

module _ {A : Type 0} where
  -- Another member in one place of a list.
  pub in_middle : (front back : List A) (x : A) → Memᴰ x (front ++ (x ∷ back))
  in_middle [] back x = head refl
  in_middle (f ∷ front) back x = tail (in_middle front back x)

  pub replaced :
      (front back : List A) (w w' x : A)
      → Memᴰ x (front ++ (w ∷ back))
      → (x ≡ w) ⊎ Memᴰ x (front ++ (w' ∷ back))
  replaced [] back w w' x (head e) = inl e
  replaced [] back w w' x (tail m) = inr (tail m)
  replaced (f ∷ front) back w w' x (head e) = inr (head e)
  replaced (f ∷ front) back w w' x (tail m) = elim (replaced front back w w' x m) [
    | inl e ↦ inl e
    | inr n ↦ inr (tail n)
  ]

-- A failure anywhere accounts for every task, as it will be the pool's result.
abbrev pub MessageHas : {T R : Type 0} → Message R → Task T → Type 0
MessageHas (i, ok r) task = i ≡ task.0
MessageHas (i, err e) task = Unit

abbrev pub WorkerHas : {T R : Type 0} → Worker T R → Task T → Type 0
WorkerHas idle task = ⊥
WorkerHas (taken other) task = other ≡ task
WorkerHas (waiting other) task = other ≡ task
WorkerHas (permitted other) task = other ≡ task
WorkerHas (working other) task = other ≡ task
WorkerHas (sending m) task = MessageHas m task
WorkerHas gone task = ⊥

abbrev pub SlotHas : {R : Type 0} → Collected R → ℕ → Type 0
SlotHas {R} c i =
    ((e : DedupeError) × (c.first_error ≡ some e))
    ⊎ ((r : R) × (get_elem? c.ordered i ≡ some (some r)))

module _ {R : Type 0} where
  get-set_at :
      (slots : List (Option R)) (i j : ℕ) (v r : R)
      → get_elem? slots j ≡ some (some r)
      → (r' : R) × (get_elem? (set_at i v slots) j ≡ some (some r'))
  unfolding set_at
  get-set_at [] i j v r h = (r, h)
  get-set_at (s ∷ slots) zero zero v r h = (v, refl)
  get-set_at (s ∷ slots) zero (suc j) v r h = (r, h)
  get-set_at (s ∷ slots) (suc i) zero v r h = (r, h)
  get-set_at (s ∷ slots) (suc i) (suc j) v r h = get-set_at slots i j v r h

  -- What is received stays.
  pub receive-SlotHas :
      (m : Message R) (c : Collected R) (i : ℕ) → SlotHas c i → SlotHas (receive m c) i
  unfolding receive
  receive-SlotHas m c i (inl (e, h)) = inl (e, kept m)
    where
      kept : (m : Message R) → (receive m c).first_error ≡ some e
      kept (j, ok r) = simp (h, receive) refl
      kept (j, err x) = simp (h, receive) refl
  receive-SlotHas (j, ok v) c i (inr (r, h)) = by_error c.first_error refl
    where
      by_error : (o : Option DedupeError) → c.first_error ≡ o → SlotHas (receive (j, ok v) c) i
      by_error none f = simp (f, receive) (inr (get-set_at c.ordered j i v r h))
      by_error (some x) f = inl (x, simp (f, receive) refl)
  receive-SlotHas (j, err x) c i (inr (r, h)) = by_error c.first_error refl
    where
      by_error : (o : Option DedupeError) → c.first_error ≡ o → SlotHas (receive (j, err x) c) i
      by_error none f = inl (x, simp (f, receive) refl)
      by_error (some y) f = inl (y, simp (f, receive) refl)

module _ {T R : Type 0} where
  -- A task that a worker has taken, or what became of it.
  pub data Further (p : Pool T R) (task : Task T) : Type 0 where
    in_worker : (w : Worker T R) → Memᴰ w p.workers → WorkerHas w task → Further p task
    in_message : (m : Message R) → Memᴰ m p.messages → MessageHas m task → Further p task
    in_slot : SlotHas p.collected task.0 → Further p task

  pub data Accounted (p : Pool T R) (task : Task T) : Type 0 where
    in_pending : Memᴰ task p.pending → Accounted p task
    in_queue : Memᴰ task p.queue → Accounted p task
    further : Further p task → Accounted p task

  set_at-get :
      (Q : T → R → Type 0) (jobs : List (VolumeJob T)) (slots : List (Option R)) (i : ℕ) (v : R)
      (job : VolumeJob T)
      → Slots Q jobs slots
      → get_elem? jobs i ≡ some job
      → get_elem? (set_at i v slots) i ≡ some (some v)
  unfolding set_at
  set_at-get Q [] slots i v job h e = absurd (ground (arith, e))
  set_at-get Q (j ∷ jobs) [] i v job h e = absurd h
  set_at-get Q (j ∷ jobs) (s ∷ slots) zero v job h e = refl
  set_at-get Q (j ∷ jobs) (s ∷ slots) (suc i) v job (_, h) e = set_at-get Q jobs slots i v job h e

  -- What a message says is in the slot when it is received.
  pub received-SlotHas :
      (Q : T → R → Type 0) (jobs : List (VolumeJob T)) (m : Message R) (c : Collected R)
      (task : Task T)
      → IsResultOf Q jobs m
      → Slots Q jobs c.ordered
      → MessageHas m task
      → SlotHas (receive m c) task.0
  unfolding receive
  received-SlotHas Q jobs (i, ok v) c task (job, e, q) s h = by_error c.first_error refl
    where
      by_error : (o : Option DedupeError) → c.first_error ≡ o → SlotHas (receive (i, ok v) c) task.0
      by_error none f =
          simp (f, receive) (inr (v, rw (← h) (set_at-get Q jobs c.ordered i v job s e)))
      by_error (some x) f = inl (x, simp (f, receive) refl)
  received-SlotHas Q jobs (i, err x) c task k s h = by_error c.first_error refl
    where
      by_error :
          (o : Option DedupeError) → c.first_error ≡ o → SlotHas (receive (i, err x) c) task.0
      by_error none f = inl (x, simp (f, receive) refl)
      by_error (some y) f = inl (y, simp (f, receive) refl)
