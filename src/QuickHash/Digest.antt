-- ===== src/QuickHash/Digest.antt =====
-- What the digest of crates/dedupe-core/src/quick_hash.rs is a digest of.
use safe_duplicate_finder.Base.{
  ℕ, ◌+◌, ◌<◌, ◌≡◌, refl, ◌∙◌, ap, sym, List, [], ◌∷◌, ◌++◌, map, All, Text, saturating_add, arith,
}
use safe_duplicate_finder.Paths.{FilePath}
use safe_duplicate_finder.Error.{ok}
use safe_duplicate_finder.Model.{HashResult, FileMetadataSnapshot}
use safe_duplicate_finder.Metadata.{is_stable}
use safe_duplicate_finder.Ports.{Ports, Sys, Event, snapped, sampled}
use safe_duplicate_finder.Ports.Hoare.{Post, returns, Post-then, Post-mono}
use safe_duplicate_finder.Ports.Calls.{
  snapshot-Post, checkpoint-Post, open_for_sampling-Post, read_exact_at-Post,
}
use safe_duplicate_finder.FullHash.Streaming.{
  HasherLaws, Observed, unseen, saw_snapshot, saw_sample, Observed-trans, saturating_add_twice,
  saturating_add_bound,
}
use safe_duplicate_finder.PermanentDelete.Strings.{to_le_bytes}
use safe_duplicate_finder.QuickHash.{
  sample_offsets, wanted_at, quick_context, sample_loop, hash_file,
}

-- An offset, and the bytes that were read there.
abbrev pub Sample : Type 0
Sample = ℕ × Text

-- All that is fed to the hasher after the size: each sample behind its offset and its length.
abbrev pub encoded : ℕ → List Sample → Text
encoded size [] = []
encoded size ((offset, bytes) ∷ samples) =
    to_le_bytes offset ++ (to_le_bytes (wanted_at size offset) ++ (bytes ++ encoded size samples))

abbrev pub wanted_total : ℕ → List ℕ → ℕ
wanted_total size [] = 0
wanted_total size (offset ∷ offsets) = wanted_at size offset + wanted_total size offsets

module _ {E H : Type 0} (ports : Ports E H) where
  -- The file gave the bytes of the sample.
  abbrev pub GaveSample : FilePath → ℕ → Sample → Type 0
  GaveSample path size sample =
      (e : E) × ((ports.read_at path sample.0 (wanted_at size sample.0) e).0 ≡ ok sample.1)

  -- The reads of the samples, in their order, behind the events so far.
  abbrev pub sampled_events : FilePath → List Sample → List Event → List Event
  sampled_events path [] t = t
  sampled_events path ((offset, bytes) ∷ samples) t =
      sampled_events path samples (sampled path offset bytes ∷ t)

  -- A quick hash that is returned: the two snapshots are those that the run took around the reads of
  -- the samples, and it did nothing else.
  pub record QuickHashed (path : FilePath) (t : List Event) (r : HashResult) (t' : List Event)
      : Type 0 where
    pub before : FileMetadataSnapshot
    pub after : FileMetadataSnapshot
    pub samples : List Sample
    pub seen : t' ≡ snapped path after ∷ sampled_events path samples (snapped path before ∷ t)
    pub at_offsets : map (λ s. s.0) samples ≡ sample_offsets before.size_bytes
    pub given : All (GaveSample path before.size_bytes) samples
    pub digest_of_samples :
        r.digest
        ≡ ports.blake3_finalize (
            ports.blake3_update
              (ports.blake3_derive_key quick_context)
              (to_le_bytes before.size_bytes ++ encoded before.size_bytes samples))
    pub counted :
        r.bytes_read
        ≡ saturating_add 0 (wanted_total before.size_bytes (sample_offsets before.size_bytes))
    pub stable_iff : r.stable ≡ is_stable before after

  -- The loop over some offsets, from a hasher and a count on.
  record LoopDone (path : FilePath) (size : ℕ) (offsets : List ℕ) (h : H) (n : ℕ) (t : List Event)
      (r : H × ℕ) (t' : List Event) : Type 0 where
    pub samples : List Sample
    pub at_offsets : map (λ s. s.0) samples ≡ offsets
    pub given : All (GaveSample path size) samples
    pub fed : r.0 ≡ ports.blake3_update h (encoded size samples)
    pub counted : r.1 ≡ saturating_add n (wanted_total size offsets)
    pub observed : Observed t t'
    pub read_in : t' ≡ sampled_events path samples t

  module _ (laws : HasherLaws ports) where
    fed_more :
        (h : H) (a b c d : Text)
        → ports.blake3_update
            (ports.blake3_update (ports.blake3_update (ports.blake3_update h a) b) c)
            d
          ≡ ports.blake3_update h (a ++ (b ++ (c ++ d)))
    fed_more h a b c d =
        laws.blake3_update-append (ports.blake3_update (ports.blake3_update h a) b) c d
        ∙ laws.blake3_update-append (ports.blake3_update h a) b (c ++ d)
        ∙ laws.blake3_update-append h a (b ++ (c ++ d))

    sample_loop-Post :
        (path : FilePath) (size : ℕ) (offsets : List ℕ) (h : H) (n : ℕ) (s : Sys E)
        → n < 18446744073709551616
        → Post
            (λ r s'. LoopDone path size offsets h n s.trace r s'.trace)
            (λ e s'. Observed s.trace s'.trace)
            (sample_loop ports path size offsets h n s)
    unfolding sample_loop
    sample_loop-Post path size [] h n s small = returns (record {
      samples = [];
      at_offsets = refl;
      given = tt;
      fed = sym (laws.blake3_update-nil h);
      counted = ground (arith, small);
      observed = unseen;
      read_in = refl;
    })
    sample_loop-Post path size (offset ∷ offsets) h n s small =
        Post-then _ _ (checkpoint-Post ports s)
          (λ _ s₁ t₁.
            Post-then _ _ (read_exact_at-Post ports s₁ path offset (wanted_at size offset))
              (λ bytes s₂ g.
                let seen : Observed s.trace s₂.trace = rw (g.1, t₁) (saw_sample unseen) in
                Post-mono _
                  (sample_loop-Post path size offsets _ (saturating_add n (wanted_at size offset))
                    s₂ (saturating_add_bound n _))
                  (λ r s₃ d. record {
                    samples = (offset, bytes) ∷ d.samples;
                    at_offsets = ap (◌∷◌ offset) d.at_offsets;
                    given = (g.0, d.given);
                    fed = d.fed ∙ fed_more h _ _ bytes (encoded size d.samples);
                    counted =
                        d.counted
                        ∙ saturating_add_twice n (wanted_at size offset)
                            (wanted_total size offsets);
                    observed = Observed-trans seen d.observed;
                    read_in =
                        d.read_in
                        ∙ ap (sampled_events path d.samples)
                            (g.1 ∙ ap (◌∷◌ (sampled path offset bytes)) t₁);
                  })
                  (λ e s₃ o. Observed-trans seen o))
              (λ e s₂ t₂. rw (t₂, t₁) unseen))
          (λ e s₁ t₁. rw t₁ unseen)

    -- A quick hash that is returned has taken a snapshot of the file, read one sample of it at each of
    -- the offsets for the size in the snapshot, in their order, taken a second snapshot, and done
    -- nothing else. It digests that size and exactly the bytes that these reads gave, with their
    -- places and lengths, counts them, and says that it is stable as the two snapshots do. Failed or
    -- not, it only looks at files.
    pub hash_file-QuickHashed :
        (path : FilePath) (s : Sys E)
        → Post
            (λ r s'. QuickHashed path s.trace r s'.trace × Observed s.trace s'.trace)
            (λ e s'. Observed s.trace s'.trace)
            (hash_file ports path s)
    unfolding hash_file
    hash_file-QuickHashed path s =
        Post-then _ _ (checkpoint-Post ports s)
          (λ _ s₁ t₁.
            Post-then _ _ (snapshot-Post ports s₁ path)
              (λ before s₂ t₂.
                let seen : Observed s.trace s₂.trace = rw (t₂, t₁) (saw_snapshot unseen) in
                Post-then _ _ (open_for_sampling-Post ports s₂ path)
                  (λ _ s₃ t₃.
                    Post-then _ _
                      (sample_loop-Post path before.size_bytes (sample_offsets before.size_bytes) _
                        0 s₃ (omega arith))
                      (λ r s₄ d.
                        let seen₄ = Observed-trans seen (rw t₃ at d.observed) in
                        Post-then _ _ (snapshot-Post ports s₄ path)
                          (λ after s₅ t₅. returns (
                            record {
                              before = before;
                              after = after;
                              samples = d.samples;
                              seen =
                                  t₅
                                  ∙ ap (◌∷◌ (snapped path after)) (
                                      d.read_in
                                      ∙ ap (sampled_events path d.samples)
                                          (t₃ ∙ t₂ ∙ ap (◌∷◌ (snapped path before)) t₁));
                              at_offsets = d.at_offsets;
                              given = d.given;
                              digest_of_samples = ap ports.blake3_finalize (
                                  d.fed
                                  ∙ laws.blake3_update-append _ (to_le_bytes before.size_bytes) _);
                              counted = d.counted;
                              stable_iff = refl;
                            },
                            rw t₅ (saw_snapshot seen₄),
                          ))
                          (λ e s₅ t₅. rw t₅ seen₄))
                      (λ e s₄ o. Observed-trans seen (rw t₃ at o)))
                  (λ e s₃ t₃. rw t₃ seen))
              (λ e s₂ t₂. rw (t₂, t₁) unseen))
          (λ e s₁ t₁. rw t₁ unseen)
