-- ===== src/Metadata/Token.antt =====
-- crates/dedupe-core/src/metadata.rs: the token of a snapshot, and what it is a hash of.
use Prim.Native.Nat.{◌-◌, ◌/◌, ◌%◌}
use safe_duplicate_finder.Base.{
  ℕ, zero, suc, ◌<◌, ◌≡◌, ◌∙◌, ap, sym, Option, none, some, [], ◌∷◌, ◌++◌, ℤ, pos, negsuc, Text,
  text_eq, text_eq→eq, text_eq_refl, Bool-cases, ◌≢◌, ◌⊎◌, inl, inr, arith,
}
use safe_duplicate_finder.Model.{FileIdentity}
use mathlib.Core.Bool.{false≢true}
use safe_duplicate_finder.Ports.{Ports}
use safe_duplicate_finder.FullHash.Streaming.{HasherLaws}
use safe_duplicate_finder.PermanentDelete.Strings.{little_endian, to_le_bytes}

-- "safe-dedupe metadata snapshot v1"
abbrev pub token_context : Text
token_context =
    115 ∷ 97 ∷ 102 ∷ 101 ∷ 45 ∷ 100 ∷ 101 ∷ 100 ∷ 117 ∷ 112 ∷ 101 ∷ 32 ∷ 109 ∷ 101 ∷ 116 ∷ 97 ∷ 100
    ∷ 97 ∷ 116 ∷ 97 ∷ 32 ∷ 115 ∷ 110 ∷ 97 ∷ 112 ∷ 115 ∷ 104 ∷ 111 ∷ 116 ∷ 32 ∷ 118 ∷ 49 ∷ []

-- `i128` as 128 bits, in two's complement
unfoldable pub as_u128 : ℤ → ℕ
as_u128 (pos n) = n
as_u128 (negsuc n) = 340282366920938463463374607431768211455 - n

abbrev pub i128_to_le_bytes : ℤ → Text
i128_to_le_bytes n = little_endian 16 (as_u128 n)

module _ {E H : Type 0} (ports : Ports E H) where
  unfoldable pub feed_identity : Option FileIdentity → H → H
  feed_identity none hasher = hasher
  feed_identity (some identity) hasher =
      ports.blake3_update
        (ports.blake3_update (ports.blake3_update hasher identity.volume_id) (0 ∷ []))
        identity.file_id

  unfoldable pub snapshot_token : Option FileIdentity → ℕ → ℤ → Text
  snapshot_token identity size_bytes modified_ns = ports.blake3_finalize (
      ports.blake3_update
        (ports.blake3_update (feed_identity identity (ports.blake3_derive_key token_context))
          (to_le_bytes size_bytes))
        (i128_to_le_bytes modified_ns))

-- What fits into so many bytes.
abbrev Below : ℕ → ℕ → Type 0
Below zero n = n ≡ 0
Below (suc width) n = Below width (n / 256)

head_inj : {a b : ℕ} {xs ys : Text} → a ∷ xs ≡ b ∷ ys → a ≡ b
head_inj h = cc

tail_inj : {a b : ℕ} {xs ys : Text} → a ∷ xs ≡ b ∷ ys → xs ≡ ys
tail_inj h = cc

same_number : (n m : ℕ) → n % 256 ≡ m % 256 → n / 256 ≡ m / 256 → n ≡ m
same_number n m h k = omega (arith, h, k)

-- Numbers that fit are written apart, whatever follows them.
little_endian-apart :
    (width n m : ℕ) (xs ys : Text)
    → Below width n
    → Below width m
    → little_endian width n ++ xs ≡ little_endian width m ++ ys
    → (n ≡ m) × (xs ≡ ys)
unfolding little_endian
little_endian-apart zero n m xs ys h k e = (h ∙ sym k, e)
little_endian-apart (suc width) n m xs ys h k e =
    let rest = little_endian-apart width (n / 256) (m / 256) xs ys h k (tail_inj e) in
    (same_number n m (head_inj e) rest.0, rest.1)

Below-u64 : (n : ℕ) → n < 18446744073709551616 → Below 8 n
Below-u64 n h = omega (arith, h)

Below-u128 : (n : ℕ) → n < 340282366920938463463374607431768211456 → Below 16 n
Below-u128 n h = omega (arith, h)

append_inj : (xs ys zs : Text) → xs ++ ys ≡ xs ++ zs → ys ≡ zs
append_inj [] ys zs h = h
append_inj (x ∷ xs) ys zs h = append_inj xs ys zs (tail_inj h)

-- The values of an `i128`.
abbrev pub IsI128 : ℤ → Type 0
IsI128 (pos n) = n < 170141183460469231731687303715884105728
IsI128 (negsuc n) = n < 170141183460469231731687303715884105728

as_u128-bound : (n : ℤ) → IsI128 n → as_u128 n < 340282366920938463463374607431768211456
unfolding as_u128
as_u128-bound (pos n) h = omega (arith, h)
as_u128-bound (negsuc n) h = omega (arith, h)

as_u128-inj : (n m : ℤ) → IsI128 n → IsI128 m → as_u128 n ≡ as_u128 m → n ≡ m
unfolding as_u128
as_u128-inj (pos n) (pos m) h k e = ap pos e
as_u128-inj (pos n) (negsuc m) h k e = absurd (omega (arith, h, k, e))
as_u128-inj (negsuc n) (pos m) h k e = absurd (omega (arith, h, k, e))
as_u128-inj (negsuc n) (negsuc m) h k e = ap negsuc (omega (arith, h, k, e))

-- All that the token is a hash of.
abbrev identity_bytes : Option FileIdentity → Text
identity_bytes none = []
identity_bytes (some identity) = identity.volume_id ++ (0 ∷ identity.file_id)

abbrev token_bytes : Option FileIdentity → ℕ → ℤ → Text
token_bytes identity size modified =
    identity_bytes identity ++ (to_le_bytes size ++ i128_to_le_bytes modified)

token_bytes-apart :
    (identity : Option FileIdentity) (size size' : ℕ) (modified modified' : ℤ)
    → size < 18446744073709551616
    → size' < 18446744073709551616
    → IsI128 modified
    → IsI128 modified'
    → token_bytes identity size modified ≡ token_bytes identity size' modified'
    → (size ≡ size') × (modified ≡ modified')
unfolding to_le_bytes
token_bytes-apart identity size size' modified modified' s s' m m' e =
    let sizes =
      little_endian-apart 8 size size' (i128_to_le_bytes modified) (i128_to_le_bytes modified')
        (Below-u64 size s) (Below-u64 size' s') (append_inj (identity_bytes identity) _ _ e) in
    let times =
      little_endian-apart 16 (as_u128 modified) (as_u128 modified') [] []
        (Below-u128 _ (as_u128-bound modified m)) (Below-u128 _ (as_u128-bound modified' m'))
        (ap (λ x. x ++ []) sizes.1) in
    (sizes.0, as_u128-inj modified modified' m m' times.0)

module _ {E H : Type 0} (ports : Ports E H) where
  abbrev hash_of : Text → Text
  hash_of bytes =
      ports.blake3_finalize (ports.blake3_update (ports.blake3_derive_key token_context) bytes)

  -- Two texts that the hash does not tell apart.
  pub record Collision : Type 0 where
    pub left : Text
    pub right : Text
    pub differ : left ≢ right
    pub same_hash : hash_of left ≡ hash_of right

  module _ (laws : HasherLaws ports) where
    feed_identity-bytes :
        (identity : Option FileIdentity) (h : H)
        → feed_identity ports identity h ≡ ports.blake3_update h (identity_bytes identity)
    unfolding feed_identity
    feed_identity-bytes none h = sym (laws.blake3_update-nil h)
    feed_identity-bytes (some identity) h =
        laws.blake3_update-append (ports.blake3_update h identity.volume_id) (0 ∷ [])
          identity.file_id
        ∙ laws.blake3_update-append h identity.volume_id (0 ∷ identity.file_id)

    snapshot_token-bytes :
        (identity : Option FileIdentity) (size : ℕ) (modified : ℤ)
        → snapshot_token ports identity size modified ≡ hash_of (token_bytes identity size modified)
    unfolding snapshot_token
    snapshot_token-bytes identity size modified = ap ports.blake3_finalize (
        laws.blake3_update-append _ (to_le_bytes size) (i128_to_le_bytes modified)
        ∙ ap (λ h. ports.blake3_update h (to_le_bytes size ++ i128_to_le_bytes modified))
            (feed_identity-bytes identity _)
        ∙ laws.blake3_update-append _ (identity_bytes identity)
            (to_le_bytes size ++ i128_to_le_bytes modified))

    -- Two snapshots of one identity with equal tokens have the same size and the same time of the
    -- last change, or else they are a collision of the hash.
    pub snapshot_token-apart :
        (identity : Option FileIdentity) (size size' : ℕ) (modified modified' : ℤ)
        → size < 18446744073709551616
        → size' < 18446744073709551616
        → IsI128 modified
        → IsI128 modified'
        → snapshot_token ports identity size modified
          ≡ snapshot_token ports identity size' modified'
        → ((size ≡ size') × (modified ≡ modified')) ⊎ Collision
    snapshot_token-apart identity size size' modified modified' s s' m m' e =
        let a = token_bytes identity size modified in
        let b = token_bytes identity size' modified' in
        elim (Bool-cases (text_eq a b)) [
          | inl same ↦ inl (
              token_bytes-apart identity size size' modified modified' s s' m m'
                (text_eq→eq a b same))
          | inr other ↦ inr (record {
            left = a;
            right = b;
            differ = λ same. false≢true (sym other ∙ rw same (text_eq_refl b));
            same_hash =
                sym (snapshot_token-bytes identity size modified)
                ∙ e
                ∙ snapshot_token-bytes identity size' modified';
          })
        ]
