-- ===== src/Metadata.antt =====
-- crates/dedupe-core/src/metadata.rs: the stability comparison, and the token in Token.
pub mod Token
use safe_duplicate_finder.Base.{Bool, ◌&&◌, ◌==◌, text_eq, eqb_ℤ}
use safe_duplicate_finder.Model.{FileMetadataSnapshot, identity_opt_eq}

unfoldable pub is_stable : FileMetadataSnapshot → FileMetadataSnapshot → Bool
is_stable before after =
    text_eq before.snapshot_token after.snapshot_token
    && identity_opt_eq before.identity after.identity
    && before.size_bytes == after.size_bytes
    && eqb_ℤ before.modified_ns after.modified_ns
