-- ===== src/Control.antt =====
-- crates/dedupe-core/src/control.rs: the control token, with one worker at its checkpoint and any
-- number of threads that call `pause`, `resume` and `cancel`. A step is one access to the shared
-- state: an atomic load or store, a critical section, a wait, a notification.
pub mod Safety
pub mod Wakeups
use safe_duplicate_finder.Base.{
  ℕ, suc, ◌≡◌, Bool, true, false, not, Option, none, some, if◌then◌else◌,
}

-- Where the worker stands in `checkpoint`.
pub data Pc : Type 0 where
  entering : Pc  -- before the first test of `cancelled`
  locking : Pc  -- before `lock.lock()`
  testing_pause : Pc  -- at the head of the loop, with the lock
  testing_cancel : Pc  -- the second part of the condition, with the lock
  about_to_wait : Pc  -- before `signal.wait`, with the lock
  parked : Pc  -- in `signal.wait`, without the lock
  woken : Pc  -- notified, before it has the lock again
  leaving : Pc  -- behind the loop, with the lock
  finished : (passed : Bool) → Pc  -- returned `Ok` or `Err(Cancelled)`

-- `notifying` counts the calls that have stored their flag and not yet called `notify_all`.
pub record Token : Type 0 where
  pub cancelled : Bool
  pub paused : Bool
  pub notifying : ℕ
  pub worker : Pc

unfoldable pub holds_lock : Pc → Bool
holds_lock testing_pause = true
holds_lock testing_cancel = true
holds_lock about_to_wait = true
holds_lock leaving = true
holds_lock _ = false

-- The worker's next step. In the wait it has none.
unfoldable pub next : Bool → Bool → Pc → Option Pc
next cancelled paused entering = some (if cancelled then finished false else locking)
next cancelled paused locking = some testing_pause
next cancelled paused testing_pause = some (if paused then testing_cancel else leaving)
next cancelled paused testing_cancel = some (if cancelled then leaving else about_to_wait)
next cancelled paused about_to_wait = some parked
next cancelled paused parked = none
next cancelled paused woken = some testing_pause
next cancelled paused leaving = some (finished (not cancelled))
next cancelled paused (finished _) = some entering

-- `notify_all`, for the worker
unfoldable pub wake : Pc → Pc
wake parked = woken
wake other = other

abbrev pub set_paused : Token → Token
set_paused t = record t { paused = true }

abbrev pub set_resumed : Token → Token
set_resumed t = record t { paused = false; notifying = suc t.notifying }

abbrev pub set_cancelled : Token → Token
set_cancelled t = record t { cancelled = true; notifying = suc t.notifying }

abbrev pub moved : Token → Pc → Token
moved t pc = record t { worker = pc }

-- `pause` and `resume` take the lock to store their flag, `cancel` does not.
pub data Step (t : Token) : Token → Type 0 where
  pause : holds_lock t.worker ≡ false → Step t (set_paused t)
  resume : holds_lock t.worker ≡ false → Step t (set_resumed t)
  cancel : Step t (set_cancelled t)
  notify_all :
      (n : ℕ) → t.notifying ≡ suc n → Step t (record t { notifying = n; worker = wake t.worker })
  work : (pc : Pc) → next t.cancelled t.paused t.worker ≡ some pc → Step t (moved t pc)

-- `ControlToken::new()`, with the worker before its checkpoint
abbrev pub new_token : Token
new_token = record { cancelled = false; paused = false; notifying = 0; worker = entering }

pub data Run (t : Token) : Token → Type 0 where
  here : Run t t
  after : {u v : Token} → Run t u → Step u v → Run t v

abbrev pub Reach : Token → Type 0
Reach t = Run new_token t
