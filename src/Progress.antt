-- ===== src/Progress.antt =====
-- crates/dedupe-core/src/progress.rs: the counters of a scan, and the newest-value channel of each
-- observer.
pub mod Exact
pub mod Newest
use Prim.Native.Nat.{◌%◌}
use safe_duplicate_finder.Base.{
  ℕ, ◌+◌, Bool, true, false, Option, none, some, List, [], ◌∷◌, ◌++◌, saturating_add,
}

pub record ProgressSnapshot : Type 0 where
  pub discovered_files : ℕ
  pub processed_files : ℕ
  pub bytes_read : ℕ
  pub errors : ℕ
  pub skipped : ℕ
  pub unstable : ℕ

-- The counters show the snapshot that is taken when no call is under way.
abbrev pub ProgressCounters : Type 0
ProgressCounters = ProgressSnapshot

abbrev pub no_progress : ProgressCounters
no_progress = record {
  discovered_files = 0;
  processed_files = 0;
  bytes_read = 0;
  errors = 0;
  skipped = 0;
  unstable = 0;
}

-- The methods of `ProgressCounters` that change it.
pub data CounterCall : Type 0 where
  count_discovered count_processed count_error count_skipped count_unstable : CounterCall
  add_bytes add_errors add_unstable : ℕ → CounterCall

-- `fetch_add(1)` wraps around.
abbrev pub fetch_add_one : ℕ → ℕ
fetch_add_one n = (n + 1) % 18446744073709551616

unfoldable pub apply_call : CounterCall → ProgressCounters → ProgressCounters
apply_call count_discovered c = record c { discovered_files = fetch_add_one c.discovered_files }
apply_call count_processed c = record c { processed_files = fetch_add_one c.processed_files }
apply_call count_error c = record c { errors = fetch_add_one c.errors }
apply_call count_skipped c = record c { skipped = fetch_add_one c.skipped }
apply_call count_unstable c = record c { unstable = fetch_add_one c.unstable }
apply_call (add_bytes bytes) c = record c { bytes_read = saturating_add c.bytes_read bytes }
apply_call (add_errors count) c = record c { errors = saturating_add c.errors count }
apply_call (add_unstable count) c = record c { unstable = saturating_add c.unstable count }

-- The calls of all threads, each an atomic access, in the order in which they happen.
unfoldable pub apply_calls : List CounterCall → ProgressCounters → ProgressCounters
apply_calls [] c = c
apply_calls (call ∷ calls) c = apply_calls calls (apply_call call c)

-- A channel with room for one snapshot, and whether its receiver is still there.
pub record ProgressSubscriber : Type 0 where
  pub waiting : Option ProgressSnapshot
  pub alive : Bool

unfoldable pub subscribe : List ProgressSubscriber → List ProgressSubscriber
subscribe subscribers = subscribers ++ (record { waiting = none; alive = true } ∷ [])

-- `try_send` on a channel with room for one: what it then holds, or that it is full
abbrev pub try_send : ProgressSnapshot → Option ProgressSnapshot → Option (Option ProgressSnapshot)
try_send snapshot none = some (some snapshot)
try_send snapshot (some _) = none

abbrev pub sent_or :
    Option ProgressSnapshot → Option (Option ProgressSnapshot) → Option ProgressSnapshot
sent_or before none = before
sent_or before (some now) = now

-- A full channel is drained, and the snapshot is sent again.
unfoldable pub offer : ProgressSnapshot → Option ProgressSnapshot → Option ProgressSnapshot
offer snapshot waiting = sent_or (sent_or none (try_send snapshot none)) (try_send snapshot waiting)

unfoldable pub publish : ProgressSnapshot → List ProgressSubscriber → List ProgressSubscriber
publish snapshot [] = []
publish snapshot (subscriber ∷ subscribers) = elim subscriber.alive [
  | false ↦ publish snapshot subscribers
  | true ↦
      record subscriber { waiting = offer snapshot subscriber.waiting }
      ∷ publish snapshot subscribers
]
