-- ===== src/Tests/World.antt =====
-- The calls of crates/dedupe-core/src/ports.rs in a world of one kind of file: every path shows the
-- same two bytes, the hashers keep what they are fed, and the environment is a stored batch.
use mathlib.Core.List.{append_assoc, append-nil}
use safe_duplicate_finder.Base.{
  zero, suc, List, [], ◌∷◌, ◌++◌, some, none, pos, Text, Bool, true, ℕ,
}
use safe_duplicate_finder.Paths.{FilePath, Component, normal, path_eq}
use safe_duplicate_finder.PathNormalization.{Platform}
use safe_duplicate_finder.Error.{ok}
use safe_duplicate_finder.Model.{
  Uuid, FileIdentity, FileMetadataSnapshot, regular, readable, HashResult, HashAlgorithm,
  blake3_full, sha256_full, DuplicateMember, DuplicateGroup, strict, manual, awaiting_policy,
  FileTransaction, quarantine_kind, TransactionState,
}
use safe_duplicate_finder.DeletionModel.{
  DeletionEntry, PermanentDeleteBatch, PermanentDeleteItem, immediate, prepared,
}
use safe_duplicate_finder.DeletionModel as Deletion
use safe_duplicate_finder.Ports.{Ports, Sys, chunk}
use safe_duplicate_finder.Ports.Monad.{Holding}
use safe_duplicate_finder.FullHash.Streaming.{HasherLaws}
use safe_duplicate_finder.PermanentDelete.{confirmation_phrase, digest_token, digest_selection}

abbrev pub path : ℕ → FilePath
path n = record { os_str = n ∷ []; components = normal (n ∷ []) ∷ [] }

abbrev pub names : List Component → Text
names [] = []
names (normal t ∷ cs) = 92 ∷ t ++ names cs
names (_ ∷ cs) = 92 ∷ names cs

-- A platform with one directory to stand in and no letters to fold.
abbrev pub platform : Platform
platform = record {
  current_dir = ok (path 97);
  is_absolute = λ _. true;
  join = λ _ p. p;
  lossy = names;
  nfc = λ t. t;
  to_lowercase = λ t. t;
}

abbrev pub identity : FileIdentity
identity = record { volume_id = 1 ∷ []; file_id = 2 ∷ [] }

abbrev pub snapshot_at : FilePath → FileMetadataSnapshot
snapshot_at p = record {
  path = p;
  normalized_path = p.os_str;
  normalized_name = p.os_str;
  extension = none;
  size_bytes = 2;
  created_ns = none;
  modified_ns = pos 3;
  identity = some identity;
  link_kind = regular;
  hardlink_count = some 1;
  access_status = readable;
  snapshot_token = 9 ∷ [];
}

abbrev pub bytes : Text
bytes = 1 ∷ 2 ∷ []

abbrev pub digest_of : ℕ → ℕ → Text
digest_of zero b = []
digest_of (suc n) b = b ∷ digest_of n b

abbrev pub world : Ports PermanentDeleteBatch Text
world = record {
  take_snapshot = λ p e. (ok (snapshot_at p), e);
  pass_checkpoint = λ e. (ok tt, e);
  cancel_token = λ e. e;
  move_file = λ _ _ _ e. (ok tt, e);
  delete_file = λ _ e. (ok tt, e);
  create_record = λ _ e. (ok tt, e);
  append_transition = λ _ _ _ _ e. (ok tt, e);
  create_deletion = λ b e. (ok tt, b);
  load_deletion = λ _ e. (ok e, e);
  append_batch = λ _ _ _ e. (ok tt, e);
  append_item = λ _ _ _ _ e. (ok tt, e);
  open_stream = λ _ e. (ok (chunk bytes ∷ []), e);
  open_handle = λ _ e. (ok tt, e);
  read_at = λ _ offset wanted e. (ok (digest_of wanted 3), e);
  path_exists = λ p e. (path_eq p (path 2), e);
  fresh_uuid = λ e. (7, e);
  utc_now = λ e. (pos 5, e);
  blake3_new = [];
  blake3_derive_key = λ context. context;
  blake3_update = λ h piece. h ++ piece;
  blake3_finalize = λ h. h;
  sha256_new = [];
  sha256_update = λ h piece. h ++ piece;
  sha256_finalize = λ h. h;
}

pub world_laws : HasherLaws world
world_laws = record {
  blake3_update-append = append_assoc;
  blake3_update-nil = append-nil;
  sha256_update-append = append_assoc;
  sha256_update-nil = append-nil;
}

abbrev pub hashed : HashAlgorithm → HashResult
hashed algorithm = record {
  algorithm = algorithm;
  digest = bytes;
  bytes_read = 2;
  snapshot_before = 9 ∷ [];
  snapshot_after = 9 ∷ [];
  stable = Bool.true;
}

abbrev pub member : ℕ → DuplicateMember
member n = record {
  file = record {
    metadata = snapshot_at (path n);
    blake3 = hashed blake3_full;
    sha256 = hashed sha256_full;
  };
  action = manual;
  reason = awaiting_policy;
}

abbrev pub group : DuplicateGroup
group = record {
  id = 4;
  mode = strict;
  size_bytes = 2;
  normalized_name = none;
  blake3 = bytes;
  sha256 = bytes;
  members = member 1 ∷ member 2 ∷ member 3 ∷ [];
}

abbrev pub transaction : TransactionState → FileTransaction
transaction found = record {
  id = 10;
  project_id = 11;
  session_id = some 12;
  plan_item_id = some 13;
  kind = quarantine_kind;
  state = found;
  source = path 1;
  destination = path 2;
  identity = identity;
  size_bytes = 2;
  blake3 = bytes;
  sha256 = bytes;
  snapshot_token = 9 ∷ [];
  started_at = pos 5;
}

abbrev pub uuid_bytes : Uuid → Text
uuid_bytes id = id ∷ []

abbrev pub entry : ℕ → DeletionEntry
entry n = record {
  id = n;
  project_id = 11;
  quarantine_path = path n;
  identity = identity;
  size_bytes = 2;
  blake3 = bytes;
  sha256 = bytes;
  retain_until = pos 100;
}

abbrev pub entries : List DeletionEntry
entries = entry 1 ∷ entry 2 ∷ []

-- Two entries that are selected in the other order than that of their ids.
abbrev pub selected : List DeletionEntry
selected =
    record (entry 2) { blake3 = digest_of 32 1; sha256 = digest_of 32 2 }
    ∷ record (entry 1) { blake3 = digest_of 32 1; sha256 = digest_of 32 2 }
    ∷ []

abbrev pub token : Text
token = 5 ∷ 6 ∷ []

abbrev pub batch : PermanentDeleteBatch
batch = record {
  id = 20;
  project_id = 11;
  state = prepared;
  mode = immediate;
  token_digest = digest_token world token;
  selection_digest = digest_selection world uuid_bytes entries;
  confirmation_phrase = confirmation_phrase 2 4 immediate;
  entry_count = 2;
  total_bytes = 4;
  created_at = pos 5;
  expires_at = pos 50;
  items =
      record { entry = entry 1; state = Deletion.planned }
      ∷ record { entry = entry 2; state = Deletion.planned }
      ∷ [];
}

abbrev pub idle : Sys PermanentDeleteBatch
idle = record { env = batch; trace = [] }

abbrev pub holding : FileTransaction → Holding FileTransaction (Sys PermanentDeleteBatch)
holding t = record { held = t; rest = idle }
