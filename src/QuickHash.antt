-- ===== src/QuickHash.antt =====
-- crates/dedupe-core/src/quick_hash.rs: the sampled digest. `usize` has 64 bits, so that the
-- conversion of a length never fails.
pub mod Offsets
pub mod Digest
use Prim.Native.Nat.{◌/◌, min, compare}
use safe_duplicate_finder.Base.{
  ℕ, ◌-◌, Bool, true, false, List, [], ◌∷◌, Text, sort_by, leb, ◌==◌, if◌then◌else◌, saturating_add,
}
use safe_duplicate_finder.Paths.{FilePath}
use safe_duplicate_finder.Model.{HashResult, quick_blake3_v1}
use safe_duplicate_finder.Metadata.{is_stable}
use safe_duplicate_finder.Ports.{Ports, Sys, snapshot, checkpoint, open_for_sampling, read_exact_at}
use safe_duplicate_finder.Ports.Monad.{Action, ◌>>=◌, ◌>>◌, pure}
use safe_duplicate_finder.PermanentDelete.Strings.{to_le_bytes}

abbrev pub sample_bytes : ℕ
sample_bytes = 65536

-- `Vec::dedup`: equal neighbours become one.
unfoldable pub dedup_after : ℕ → List ℕ → List ℕ
dedup_after last [] = []
dedup_after last (x ∷ xs) = elim (x == last) [
  | true ↦ dedup_after last xs
  | false ↦ x ∷ dedup_after x xs
]

unfoldable pub dedup : List ℕ → List ℕ
unfolding dedup_after
dedup [] = []
dedup (x ∷ xs) = x ∷ dedup_after x xs

unfoldable pub sample_offsets : ℕ → List ℕ
unfolding dedup sort_by
sample_offsets size =
    let middle = size / 2 - sample_bytes / 2 in
    let tail = size - sample_bytes in
    if leb size sample_bytes then 0 ∷ [] else dedup (sort_by compare (0 ∷ middle ∷ tail ∷ []))

-- How much is read at an offset.
abbrev pub wanted_at : ℕ → ℕ → ℕ
wanted_at size offset = min sample_bytes (size - offset)

-- "safe-dedupe sampled quick hash v1"
abbrev pub quick_context : Text
quick_context =
    115 ∷ 97 ∷ 102 ∷ 101 ∷ 45 ∷ 100 ∷ 101 ∷ 100 ∷ 117 ∷ 112 ∷ 101 ∷ 32 ∷ 115 ∷ 97 ∷ 109 ∷ 112 ∷ 108
    ∷ 101 ∷ 100 ∷ 32 ∷ 113 ∷ 117 ∷ 105 ∷ 99 ∷ 107 ∷ 32 ∷ 104 ∷ 97 ∷ 115 ∷ 104 ∷ 32 ∷ 118 ∷ 49 ∷ []

module _ {E H : Type 0} (ports : Ports E H) where
  -- The loop over the offsets, with the hasher and the bytes read so far.
  unfoldable pub sample_loop : FilePath → ℕ → List ℕ → H → ℕ → Action (Sys E) (H × ℕ)
  sample_loop path size [] hasher bytes_read = pure (hasher, bytes_read)
  sample_loop path size (offset ∷ offsets) hasher bytes_read = do
    checkpoint ports
    buffer ← read_exact_at ports path offset (wanted_at size offset)
    let at_offset = ports.blake3_update hasher (to_le_bytes offset)
    let sized = ports.blake3_update at_offset (to_le_bytes (wanted_at size offset))
    sample_loop path size offsets (ports.blake3_update sized buffer)
        (saturating_add bytes_read (wanted_at size offset))

  unfoldable pub hash_file : FilePath → Action (Sys E) HashResult
  hash_file path = do
    checkpoint ports
    before ← snapshot ports path
    open_for_sampling ports path
    (hasher, bytes_read) ←
        sample_loop path before.size_bytes (sample_offsets before.size_bytes)
          (ports.blake3_update (ports.blake3_derive_key quick_context)
            (to_le_bytes before.size_bytes))
          0
    after ← snapshot ports path
    pure (record {
      algorithm = quick_blake3_v1;
      digest = ports.blake3_finalize hasher;
      bytes_read = bytes_read;
      snapshot_before = before.snapshot_token;
      snapshot_after = after.snapshot_token;
      stable = is_stable before after;
    })
