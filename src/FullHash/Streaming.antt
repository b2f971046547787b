-- ===== src/FullHash/Streaming.antt =====
-- What the digests of crates/dedupe-core/src/full_hash.rs are digests of.
use safe_duplicate_finder.Base.{
  ℕ, ◌+◌, ◌<◌, ◌≡◌, refl, Bool, true, false, List, [], ◌∷◌, ◌++◌, Text, length, length-append,
  saturating_add, arith, ◌∙◌, ap, sym,
}
use safe_duplicate_finder.Paths.{FilePath}
use safe_duplicate_finder.Model.{
  HashAlgorithm, quick_blake3_v1, blake3_full, sha256_full, HashResult, FileMetadataSnapshot,
}
use safe_duplicate_finder.Metadata.{is_stable}
use safe_duplicate_finder.Ports.{
  Ports, Sys, Event, snapped, opened, sampled, Read, chunk, read_fails,
}
use safe_duplicate_finder.Ports.Hoare.{Post, returns, fails, Post-then, Post-mono}
use safe_duplicate_finder.Ports.Calls.{snapshot-Post, checkpoint-Post, open_file-Post}
use safe_duplicate_finder.FullHash.{read_loop, digest_stream, hash_stream}

-- The bytes that a sequence of reads gives, up to the end of the file.
pub contents : List Read → Text
contents [] = []
contents (read_fails e ∷ reads) = []
contents (chunk [] ∷ reads) = []
contents (chunk (b ∷ bs) ∷ reads) = (b ∷ bs) ++ contents reads

-- The reads came to the end of the file: none of them failed before it.
pub reads_to_end : List Read → Bool
reads_to_end [] = true
reads_to_end (read_fails e ∷ reads) = false
reads_to_end (chunk [] ∷ reads) = true
reads_to_end (chunk (b ∷ bs) ∷ reads) = reads_to_end reads

-- What is documented of the hashers: feeding two pieces is feeding them in one.
pub record HasherLaws {E H : Type 0} (ports : Ports E H) : Type 0 where
  pub blake3_update-append :
      (h : H) (a b : Text)
      → ports.blake3_update (ports.blake3_update h a) b ≡ ports.blake3_update h (a ++ b)
  pub blake3_update-nil : (h : H) → ports.blake3_update h [] ≡ h
  pub sha256_update-append :
      (h : H) (a b : Text)
      → ports.sha256_update (ports.sha256_update h a) b ≡ ports.sha256_update h (a ++ b)
  pub sha256_update-nil : (h : H) → ports.sha256_update h [] ≡ h

-- The trace went on by looking at files, and by nothing else.
pub data Observed (t : List Event) : List Event → Type 0 where
  unseen : Observed t t
  saw_snapshot :
      {u : List Event} {path : FilePath} {s : FileMetadataSnapshot}
      → Observed t u
      → Observed t (snapped path s ∷ u)
  saw_file :
      {u : List Event} {path : FilePath} {reads : List Read}
      → Observed t u
      → Observed t (opened path reads ∷ u)
  saw_sample :
      {u : List Event} {path : FilePath} {offset : ℕ} {bytes : Text}
      → Observed t u
      → Observed t (sampled path offset bytes ∷ u)

pub Observed-trans : {t u v : List Event} → Observed t u → Observed u v → Observed t v
Observed-trans o unseen = o
Observed-trans o (saw_snapshot p) = saw_snapshot (Observed-trans o p)
Observed-trans o (saw_file p) = saw_file (Observed-trans o p)
Observed-trans o (saw_sample p) = saw_sample (Observed-trans o p)

pub saturating_add_twice :
    (n a b : ℕ) → saturating_add (saturating_add n a) b ≡ saturating_add n (a + b)
saturating_add_twice n a b = ground arith

pub saturating_add_bound : (a b : ℕ) → saturating_add a b < 18446744073709551616
saturating_add_bound a b = ground arith

module _ {E H : Type 0} (ports : Ports E H) (laws : HasherLaws ports) where
  -- The digest of some bytes by an algorithm, fed to the hasher in one piece.
  pub content_digest : HashAlgorithm → Text → Text
  content_digest blake3_full bytes =
      ports.blake3_finalize (ports.blake3_update ports.blake3_new bytes)
  content_digest sha256_full bytes =
      ports.sha256_finalize (ports.sha256_update ports.sha256_new bytes)
  content_digest quick_blake3_v1 bytes = []

  -- Both loops: the hasher is fed the contents, and their length is counted up to 2^64 - 1.
  read_loop-Post :
      (update : H → Text → H)
      → ((h : H) (a b : Text) → update (update h a) b ≡ update h (a ++ b))
      → ((h : H) → update h [] ≡ h)
      → (reads : List Read) (h : H) (n : ℕ) (s : Sys E) → n < 18446744073709551616
      → Post
          (λ r s'.
            (r.0 ≡ update h (contents reads))
            × (r.1 ≡ saturating_add n (length (contents reads)))
            × (s'.trace ≡ s.trace)
            × (reads_to_end reads ≡ true))
          (λ e s'. s'.trace ≡ s.trace)
          (read_loop ports update reads h n s)
  unfolding read_loop contents reads_to_end
  read_loop-Post update app unit [] h n s small =
      Post-then _ _ (checkpoint-Post ports s) (λ _ s' t. returns (rw unit, ground arith, t, refl))
        (λ _ _ t. t)
  read_loop-Post update app unit (read_fails e ∷ reads) h n s small =
      Post-then _ _ (checkpoint-Post ports s) (λ _ s' t. fails t) (λ _ _ t. t)
  read_loop-Post update app unit (chunk [] ∷ reads) h n s small =
      Post-then _ _ (checkpoint-Post ports s) (λ _ s' t. returns (rw unit, ground arith, t, refl))
        (λ _ _ t. t)
  read_loop-Post update app unit (chunk (b ∷ bs) ∷ reads) h n s small =
      Post-then _ _ (checkpoint-Post ports s)
        (λ _ s' t.
          Post-mono _
            (read_loop-Post update app unit reads (update h (b ∷ bs))
              (saturating_add n (length (b ∷ bs))) s' (saturating_add_bound n _))
            (λ r s'' g. (
              g.0 ∙ app h (b ∷ bs) (contents reads),
              g.1
                  ∙ saturating_add_twice n (length (b ∷ bs)) (length (contents reads))
                  ∙ ap (saturating_add n) (sym (length-append (b ∷ bs) (contents reads))),
              g.2 ∙ t,
              g.3,
            ))
            (λ e s'' g. g ∙ t))
        (λ _ _ t. t)

  -- A digest that is returned is that of all the bytes between two looks at the file: the reads
  -- came to its end.
  pub record Hashed (algorithm : HashAlgorithm) (path : FilePath) (t : List Event) (r : HashResult)
      (t' : List Event) : Type 0 where
    pub before : FileMetadataSnapshot
    pub reads : List Read
    pub after : FileMetadataSnapshot
    pub seen : t' ≡ snapped path after ∷ opened path reads ∷ snapped path before ∷ t
    pub ended : reads_to_end reads ≡ true
    pub digest_of_contents : r.digest ≡ content_digest algorithm (contents reads)
    pub counted : r.bytes_read ≡ saturating_add 0 (length (contents reads))
    pub stable_iff : r.stable ≡ is_stable before after

  digest_stream-Post :
      (algorithm : HashAlgorithm) (reads : List Read) (s : Sys E)
      → Post
          (λ r s'.
            (r.0 ≡ content_digest algorithm (contents reads))
            × (r.1 ≡ saturating_add 0 (length (contents reads)))
            × (s'.trace ≡ s.trace)
            × (reads_to_end reads ≡ true))
          (λ e s'. s'.trace ≡ s.trace)
          (digest_stream ports algorithm reads s)
  unfolding digest_stream content_digest
  digest_stream-Post blake3_full reads s =
      Post-then _ _
        (read_loop-Post ports.blake3_update laws.blake3_update-append laws.blake3_update-nil reads
          ports.blake3_new 0 s (omega arith))
        (λ r s' g. returns (ap ports.blake3_finalize g.0, g.1, g.2, g.3)) (λ e s' g. g)
  digest_stream-Post sha256_full reads s =
      Post-then _ _
        (read_loop-Post ports.sha256_update laws.sha256_update-append laws.sha256_update-nil reads
          ports.sha256_new 0 s (omega arith))
        (λ r s' g. returns (ap ports.sha256_finalize g.0, g.1, g.2, g.3)) (λ e s' g. g)
  digest_stream-Post quick_blake3_v1 reads s = fails refl

  -- A full hash that is returned has read the file to its end, no read having failed before it, and
  -- digests exactly the bytes that the file gave, however the reads cut them, between two snapshots
  -- that say whether it was stable. Failed or not, it only looks at files.
  pub hash_stream-digest :
      (path : FilePath) (algorithm : HashAlgorithm) (s : Sys E)
      → Post
          (λ r s'. Hashed algorithm path s.trace r s'.trace)
          (λ e s'. Observed s.trace s'.trace)
          (hash_stream ports path algorithm s)
  unfolding hash_stream
  hash_stream-digest path algorithm s =
      Post-then _ _ (checkpoint-Post ports s)
        (λ _ s₁ t₁.
          Post-then _ _ (snapshot-Post ports s₁ path)
            (λ before s₂ t₂.
              Post-then _ _ (open_file-Post ports s₂ path)
                (λ reads s₃ t₃.
                  Post-then _ _ (digest_stream-Post algorithm reads s₃)
                    (λ r s₄ t₄.
                      Post-then _ _ (snapshot-Post ports s₄ path)
                        (λ after s₅ t₅. returns (record {
                          before = before;
                          reads = reads;
                          after = after;
                          seen = rw (t₅, t₄.2, t₃, t₂, t₁);
                          ended = t₄.3;
                          digest_of_contents = t₄.0;
                          counted = t₄.1;
                          stable_iff = refl;
                        }))
                        (λ e s₅ t₅. rw (t₅, t₄.2, t₃, t₂, t₁) (saw_file (saw_snapshot unseen))))
                    (λ e s₄ t₄. rw (t₄, t₃, t₂, t₁) (saw_file (saw_snapshot unseen))))
                (λ e s₃ t₃. rw (t₃, t₂, t₁) (saw_snapshot unseen)))
            (λ e s₂ t₂. rw (t₂, t₁) unseen))
        (λ e s₁ t₁. rw t₁ unseen)

  pub Hashed-Observed :
      {algorithm : HashAlgorithm} {path : FilePath} {t : List Event} {r : HashResult}
      {t' : List Event}
      → Hashed algorithm path t r t'
      → Observed t t'
  Hashed-Observed h = rw (h.seen) (saw_snapshot (saw_file (saw_snapshot unseen)))
