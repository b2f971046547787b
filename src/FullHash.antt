-- ===== src/FullHash.antt =====
-- crates/dedupe-core/src/full_hash.rs: the streaming digests of a whole file.
pub mod Streaming
use safe_duplicate_finder.Base.{
  ℕ, Bool, true, false, Option, none, some, List, [], ◌∷◌, Text, length, saturating_add, ◌==◌,
  if◌then◌else◌,
}
use safe_duplicate_finder.Paths.{FilePath}
use safe_duplicate_finder.Error.{state, quick_hash_in_full_stream}
use safe_duplicate_finder.Model.{
  HashAlgorithm, quick_blake3_v1, blake3_full, sha256_full, HashResult, FileMetadataSnapshot,
}
use safe_duplicate_finder.Metadata.{is_stable}
use safe_duplicate_finder.Ports.{
  Ports, Sys, Read, chunk, read_fails, snapshot, checkpoint, open_file,
}
use safe_duplicate_finder.Ports.Monad.{Action, ◌>>=◌, ◌>>◌, pure, raise}

module _ {E H : Type 0} (ports : Ports E H) where
  -- One of the two read loops, with the hasher's state and the bytes counted so far.
  unfoldable pub read_loop : (H → Text → H) → List Read → H → ℕ → Action (Sys E) (H × ℕ)
  read_loop update [] hasher bytes_read = checkpoint ports >> pure (hasher, bytes_read)
  read_loop update (read_fails e ∷ reads) hasher bytes_read = checkpoint ports >> raise e
  read_loop update (chunk [] ∷ reads) hasher bytes_read =
      checkpoint ports >> pure (hasher, bytes_read)
  read_loop update (chunk (b ∷ bs) ∷ reads) hasher bytes_read = do
    checkpoint ports
    read_loop update reads (update hasher (b ∷ bs)) (saturating_add bytes_read (length (b ∷ bs)))

  -- The `match algorithm`, after the file is open.
  unfoldable pub digest_stream : HashAlgorithm → List Read → Action (Sys E) (Text × ℕ)
  digest_stream blake3_full reads = do
    (hasher, bytes_read) ← read_loop ports.blake3_update reads ports.blake3_new 0
    pure (ports.blake3_finalize hasher, bytes_read)
  digest_stream sha256_full reads = do
    (hasher, bytes_read) ← read_loop ports.sha256_update reads ports.sha256_new 0
    pure (ports.sha256_finalize hasher, bytes_read)
  digest_stream quick_blake3_v1 reads = raise (state quick_hash_in_full_stream)

  unfoldable pub hash_stream : FilePath → HashAlgorithm → Action (Sys E) HashResult
  hash_stream path algorithm = do
    checkpoint ports
    before ← snapshot ports path
    reads ← open_file ports path
    (digest, bytes_read) ← digest_stream algorithm reads
    after ← snapshot ports path
    pure (record {
      algorithm = algorithm;
      digest = digest;
      bytes_read = bytes_read;
      snapshot_before = before.snapshot_token;
      snapshot_after = after.snapshot_token;
      stable = is_stable before after;
    })

  unfoldable pub blake3_file : FilePath → Action (Sys E) HashResult
  blake3_file path = hash_stream path blake3_full

  unfoldable pub sha256_file : FilePath → Action (Sys E) HashResult
  sha256_file path = hash_stream path sha256_full
