-- ===== src/Progress/Exact.antt =====
-- The counters of crates/dedupe-core/src/progress.rs count exactly, in any order of the calls.
use safe_duplicate_finder.Base.{ℕ, ◌+◌, ◌<◌, ◌≡◌, List, [], ◌∷◌, arith}
use safe_duplicate_finder.Progress.{
  ProgressSnapshot, ProgressCounters, no_progress, CounterCall, count_discovered, count_processed,
  count_error, count_skipped, count_unstable, add_bytes, add_errors, add_unstable, apply_call,
  apply_calls,
}

-- What the calls report, added up, which does not depend on their order.
abbrev pub reported : List CounterCall → ProgressSnapshot
reported [] = no_progress
reported (count_discovered ∷ calls) =
    let r = reported calls in record r { discovered_files = 1 + r.discovered_files }
reported (count_processed ∷ calls) =
    let r = reported calls in record r { processed_files = 1 + r.processed_files }
reported (count_error ∷ calls) = let r = reported calls in record r { errors = 1 + r.errors }
reported (count_skipped ∷ calls) = let r = reported calls in record r { skipped = 1 + r.skipped }
reported (count_unstable ∷ calls) = let r = reported calls in record r { unstable = 1 + r.unstable }
reported (add_bytes n ∷ calls) =
    let r = reported calls in record r { bytes_read = n + r.bytes_read }
reported (add_errors n ∷ calls) = let r = reported calls in record r { errors = n + r.errors }
reported (add_unstable n ∷ calls) = let r = reported calls in record r { unstable = n + r.unstable }

abbrev pub limit : ℕ
limit = 18446744073709551616

-- Nothing overflows.
abbrev pub Fits : ProgressSnapshot → ProgressSnapshot → Type 0
Fits c r =
    (c.discovered_files + r.discovered_files < limit)
    × (c.processed_files + r.processed_files < limit)
    × (c.bytes_read + r.bytes_read < limit)
    × (c.errors + r.errors < limit)
    × (c.skipped + r.skipped < limit)
    × (c.unstable + r.unstable < limit)

abbrev pub Sums : ProgressSnapshot → ProgressSnapshot → ProgressSnapshot → Type 0
Sums c r s =
    (s.discovered_files ≡ c.discovered_files + r.discovered_files)
    × (s.processed_files ≡ c.processed_files + r.processed_files)
    × (s.bytes_read ≡ c.bytes_read + r.bytes_read)
    × (s.errors ≡ c.errors + r.errors)
    × (s.skipped ≡ c.skipped + r.skipped)
    × (s.unstable ≡ c.unstable + r.unstable)

-- One call more, when the total fits.
apply_call-Fits :
    (call : CounterCall) (calls : List CounterCall) (c : ProgressCounters)
    → Fits c (reported (call ∷ calls))
    → Fits (apply_call call c) (reported calls)
unfolding apply_call
apply_call-Fits count_discovered calls c (a, b, d, e, f, g) = (omega (arith, a), b, d, e, f, g)
apply_call-Fits count_processed calls c (a, b, d, e, f, g) = (a, omega (arith, b), d, e, f, g)
apply_call-Fits count_error calls c (a, b, d, e, f, g) = (a, b, d, omega (arith, e), f, g)
apply_call-Fits count_skipped calls c (a, b, d, e, f, g) = (a, b, d, e, omega (arith, f), g)
apply_call-Fits count_unstable calls c (a, b, d, e, f, g) = (a, b, d, e, f, omega (arith, g))
apply_call-Fits (add_bytes n) calls c (a, b, d, e, f, g) = (a, b, ground (arith, d), e, f, g)
apply_call-Fits (add_errors n) calls c (a, b, d, e, f, g) = (a, b, d, ground (arith, e), f, g)
apply_call-Fits (add_unstable n) calls c (a, b, d, e, f, g) = (a, b, d, e, f, ground (arith, g))

apply_call-Sums :
    (call : CounterCall) (calls : List CounterCall) (c s : ProgressCounters)
    → Fits c (reported (call ∷ calls))
    → Sums (apply_call call c) (reported calls) s
    → Sums c (reported (call ∷ calls)) s
unfolding apply_call
apply_call-Sums count_discovered calls c s h (a, b, d, e, f, g) =
    (omega (arith, a, h.0), b, d, e, f, g)
apply_call-Sums count_processed calls c s h (a, b, d, e, f, g) =
    (a, omega (arith, b, h.1), d, e, f, g)
apply_call-Sums count_error calls c s h (a, b, d, e, f, g) = (a, b, d, omega (arith, e, h.3), f, g)
apply_call-Sums count_skipped calls c s h (a, b, d, e, f, g) =
    (a, b, d, e, omega (arith, f, h.4), g)
apply_call-Sums count_unstable calls c s h (a, b, d, e, f, g) =
    (a, b, d, e, f, omega (arith, g, h.5))
apply_call-Sums (add_bytes n) calls c s h (a, b, d, e, f, g) =
    (a, b, ground (arith, d, h.2), e, f, g)
apply_call-Sums (add_errors n) calls c s h (a, b, d, e, f, g) =
    (a, b, d, ground (arith, e, h.3), f, g)
apply_call-Sums (add_unstable n) calls c s h (a, b, d, e, f, g) =
    (a, b, d, e, f, ground (arith, g, h.5))

apply_calls-Sums :
    (calls : List CounterCall) (c : ProgressCounters)
    → Fits c (reported calls)
    → Sums c (reported calls) (apply_calls calls c)
unfolding apply_calls
apply_calls-Sums [] c h =
    (omega arith, omega arith, omega arith, omega arith, omega arith, omega arith)
apply_calls-Sums (call ∷ calls) c h =
    apply_call-Sums call calls c (apply_calls calls (apply_call call c)) h
      (apply_calls-Sums calls (apply_call call c) (apply_call-Fits call calls c h))

-- While no total reaches 2^64, the counters of a scan show exactly what the calls reported, in
-- whatever order the threads made them: no report is lost, none counts twice or elsewhere.
pub apply_calls-reported :
    (calls : List CounterCall)
    → Fits no_progress (reported calls)
    → Sums no_progress (reported calls) (apply_calls calls no_progress)
apply_calls-reported calls h = apply_calls-Sums calls no_progress h
