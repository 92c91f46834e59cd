-- ===== src/Quarantine.antt =====
-- `QuarantineService` (backend/app/security/quarantine/quarantine_service.py) with its storage
-- (backend/app/security/quarantine/quarantine_storage.py). What `open` finds at a path, SHA-256 of a
-- file's bytes and `json.dumps` are parameters. Times are in microseconds.
pub mod Service
pub mod Items
pub mod Release
pub mod Trail
pub mod Tests
use reserach.Base.{
  ℕ, ◌+◌, Bool, true, false, String, Option, none, some, List, [], ◌∷◌, keep, first, last?, ◌==◌,
  not, if◌then◌else◌,
}
use reserach.Base.Dict.{Dict}
use reserach.Base.Float.{Float}
use reserach.Ledger.{AuditBlock, Sha}
use reserach.Malware.{Bytes, Math, Model, Clamav, ScanResult}

-- `quarantine_status`
pub data Status : Type 0 where
  quarantined released deleted : Status

abbrev pub is_deleted : Status → Bool
is_deleted deleted = true
is_deleted _ = false

-- A row of `quarantine_items`; the digest is `none` for the empty text, where there were no bytes. The
-- identifier in the storage is `q_` with a random number. Defaults that the service leaves alone are
-- left out.
pub record QuarantineItem (Score Digest : Type 0) : Type 0 where
  pub id : ℕ
  pub transfer_id : Option String
  pub user_id : Option ℕ
  pub original_filename : String
  pub safe_identifier : ℕ
  pub sha256 : Option Digest
  pub file_size : ℕ
  pub detection_engine : String
  pub detection_name : Option String
  pub malware_score : Option Score
  pub quarantine_reason : String
  pub quarantine_status : Status
  pub reviewed_at : Option ℕ
  pub reviewed_by : Option String
  pub released_at : Option ℕ
  pub deleted_at : Option ℕ

-- The files of the quarantine directory, the rows, and the audit blocks.
pub record Quarantine (Score Digest : Type 0) : Type 0 where
  pub files : Dict ℕ Bytes
  pub items : List (QuarantineItem Score Digest)
  pub blocks : List (AuditBlock Digest)

-- What a caller of `quarantine_file` hands over: the bytes of an existing `file_path`, which is moved
-- away, `file_bytes`, or neither.
pub data Upload : Type 0 where
  at_path in_hand : Bytes → Upload
  nothing : Upload

module _ (f : Float) where
  -- The `details` of an audit event.
  pub data Details (Digest : Type 0) : Type 0 where
    malware_quarantined :
        (quarantine_id : ℕ) (user_id : Option ℕ) (filename : String) (sha256 : Option Digest)
        (engine reason : String)
        → Details Digest
    quarantine_rescan :
        (quarantine_id : ℕ) (admin : String) (new_result : ScanResult f Digest) → Details Digest
    quarantine_release_denied : (quarantine_id : ℕ) (reason : String) → Details Digest
    quarantine_released : (quarantine_id : ℕ) (admin : String) → Details Digest
    quarantine_deleted : (quarantine_id : ℕ) (admin : String) → Details Digest

  abbrev pub event_type : {Digest : Type 0} → Details Digest → String
  event_type (malware_quarantined i u n s e r) = "MALWARE_QUARANTINED"
  event_type (quarantine_rescan i a r) = "QUARANTINE_RESCAN"
  event_type (quarantine_release_denied i r) = "QUARANTINE_RELEASE_DENIED"
  event_type (quarantine_released i a) = "QUARANTINE_RELEASED"
  event_type (quarantine_deleted i a) = "QUARANTINE_DELETED"

  -- What the service gets from outside: the hashes, what `open` finds at the path that some bytes
  -- spell (`none` where it raises), the scanner's environment, and the JSON text of the details.
  pub record World (Digest : Type 0) : Type 0 where
    pub sha : Sha Digest
    pub hash_bytes : Bytes → Digest
    pub open_path : Bytes → Option Bytes
    pub math : Math f
    pub model : Option (Model f)
    pub fail_closed : Bool
    pub clamav : Clamav
    pub dumps : Details Digest → String

-- What a call returns or raises; `open_raised` is the exception of `open` inside the scan.
pub data Answer : Type 0 where
  stored : ℕ → Answer
  rescanned done_release done_delete : Answer
  item_not_found integrity_failed still_malicious : Answer
  file_not_found open_raised : Answer

module _ {Score Digest : Type 0} where
  abbrev pub has_id : ℕ → QuarantineItem Score Digest → Bool
  has_id item_id item = item.id == item_id

  -- `get_item`: `.filter(QuarantineItem.id == item_id).first()`
  unfoldable pub get_item :
      ℕ → List (QuarantineItem Score Digest) → Option (QuarantineItem Score Digest)
  get_item item_id items = first (has_id item_id) items

  -- The row of this primary key, after its fields were set and committed.
  unfoldable pub save_item :
      QuarantineItem Score Digest
      → List (QuarantineItem Score Digest)
      → List (QuarantineItem Score Digest)
  save_item item [] = []
  save_item item (row ∷ rows) =
      let rest = save_item item rows in if has_id item.id row then item ∷ rest else row ∷ rest

  -- `get_quarantine_list`
  unfoldable pub get_quarantine_list :
      List (QuarantineItem Score Digest) → List (QuarantineItem Score Digest)
  get_quarantine_list items =
      keep (λ (item : QuarantineItem Score Digest). not (is_deleted item.quarantine_status)) items

  -- The next primary key of a table from which no row is deleted.
  unfoldable pub next_item_id : List (QuarantineItem Score Digest) → ℕ
  next_item_id items = elim (last? items) [ none ↦ 1 | some item ↦ item.id + 1 ]
