-- ===== src/Quarantine/Service.antt =====
-- The operations of `QuarantineService`
-- (backend/app/security/quarantine/quarantine_service.py). Failures of the database are not modelled.
use Prim.Native.String.{◌++◌ as text_append}
use reserach.Base.{
  ℕ, Bool, true, false, String, Option, none, some, List, [], ◌∷◌, ◌++◌, keep, length, ◌==◌, not,
  nat_eq, if◌then◌else◌,
}
use reserach.Base.Dict.{Dict, lookup, insert}
use reserach.Base.Float.{Float}
use reserach.Ledger.{AuditBlock, joined, local_only, tip_hash, next_id}
use reserach.Malware.{Bytes, Verdict, malicious, ScanResult, scan_full_file}
use reserach.Quarantine.{
  QuarantineItem, Quarantine, Upload, at_path, in_hand, nothing, Details, malware_quarantined,
  quarantine_rescan, quarantine_release_denied, quarantine_released, quarantine_deleted, event_type,
  World, Answer, stored, rescanned, done_release, done_delete, item_not_found, integrity_failed,
  still_malicious, file_not_found, open_raised, quarantined, released, deleted, get_item, save_item,
  next_item_id,
}

abbrev pub is_malicious_verdict : Verdict → Bool
is_malicious_verdict malicious = true
is_malicious_verdict _ = false

-- What lands in the quarantine directory.
unfoldable pub uploaded : Upload → Option Bytes
uploaded (at_path bytes) = some bytes
uploaded (in_hand bytes) = some bytes
uploaded nothing = none

-- `save_to_quarantine`
unfoldable pub save_to_quarantine : ℕ → Upload → Dict ℕ Bytes → Dict ℕ Bytes
unfolding uploaded
save_to_quarantine safe_id upload files = elim (uploaded upload) [
  | none ↦ files
  | some bytes ↦ insert nat_eq safe_id bytes files
]

-- `load_from_quarantine`; `none` is `FileNotFoundError`.
unfoldable pub load_from_quarantine : ℕ → Dict ℕ Bytes → Option Bytes
load_from_quarantine safe_id files = lookup nat_eq safe_id files

-- `delete_from_quarantine`
unfoldable pub delete_from_quarantine : ℕ → Dict ℕ Bytes → Dict ℕ Bytes
delete_from_quarantine safe_id files = keep (λ (entry : ℕ × Bytes). not (entry.0 == safe_id)) files

module _ (f : Float) {Digest : Type 0} (w : World f Digest) where
  abbrev pub Item : Type 0
  Item = QuarantineItem f.F Digest

  abbrev pub State : Type 0
  State = Quarantine f.F Digest

  -- The digest of the row: bytes in hand are hashed only where there are some.
  unfoldable pub digest_of : Upload → Option Digest
  digest_of (at_path bytes) = some (w.hash_bytes bytes)
  digest_of (in_hand []) = none
  digest_of (in_hand (b ∷ bytes)) = some (w.hash_bytes (b ∷ bytes))
  digest_of nothing = none

  unfoldable pub size_of : Upload → ℕ
  size_of (at_path bytes) = length bytes
  size_of (in_hand bytes) = length bytes
  size_of nothing = 0

  -- The block of `_log_audit_event`: its hash is that of the three texts joined.
  unfoldable pub audit_block : ℕ → Details f Digest → List (AuditBlock Digest) → AuditBlock Digest
  audit_block now details blocks =
      let previous_hash = tip_hash w.sha blocks in
      let details_json = w.dumps details in
      record {
        id = next_id blocks;
        event_type = event_type f details;
        details_json = details_json;
        previous_hash = previous_hash;
        block_hash =
            w.sha.sha256 (joined previous_hash (text_append (event_type f details) details_json));
        created_at = now;
        blockchain_network_id = none;
        blockchain_contract_address = none;
        blockchain_transaction_hash = none;
        blockchain_block_number = none;
        blockchain_block_hash = none;
        blockchain_status = local_only;
        anchor_timestamp = none;
      }

  -- `_log_audit_event`
  unfoldable pub log_audit_event : ℕ → Details f Digest → State → State
  log_audit_event now details q = record q {
    blocks = q.blocks ++ audit_block now details q.blocks ∷ [];
  }

  -- The arguments of `quarantine_file` besides the bytes.
  pub record Request : Type 0 where
    pub user_id : Option ℕ
    pub original_filename : String
    pub detection_engine : String
    pub reason : String
    pub detection_name : Option String
    pub malware_score : Option f.F
    pub transfer_id : Option String

  unfoldable pub new_item : ℕ → Request → Upload → ℕ → Item
  unfolding digest_of size_of
  new_item safe_id r upload id = record {
    id = id;
    transfer_id = r.transfer_id;
    user_id = r.user_id;
    original_filename = r.original_filename;
    safe_identifier = safe_id;
    sha256 = digest_of upload;
    file_size = size_of upload;
    detection_engine = r.detection_engine;
    detection_name = r.detection_name;
    malware_score = r.malware_score;
    quarantine_reason = r.reason;
    quarantine_status = quarantined;
    reviewed_at = none;
    reviewed_by = none;
    released_at = none;
    deleted_at = none;
  }

  -- `quarantine_file`, with the random identifier given.
  unfoldable pub quarantine_file : ℕ → ℕ → Request → Upload → State → Answer × State
  unfolding new_item save_to_quarantine next_item_id log_audit_event
  quarantine_file now safe_id r upload q =
      let item = new_item safe_id r upload (next_item_id q.items) in
      (
        stored item.id,
        log_audit_event now
            (malware_quarantined item.id r.user_id r.original_filename item.sha256
              r.detection_engine r.reason)
            (record q {
              files = save_to_quarantine safe_id upload q.files;
              items = q.items ++ item ∷ [];
            }),
      )

  -- `MalwareDetectionService.scan_full_file(file_bytes, …)`: the bytes stand where the path is meant.
  unfoldable pub scan_item : Item → Bytes → Option (ScanResult f Digest)
  scan_item item file_bytes =
      scan_full_file f w.math w.hash_bytes w.model w.fail_closed w.clamav (w.open_path file_bytes)
        item.original_filename

  -- The end of `rescan_item`, after the scan.
  unfoldable pub finish_rescan :
      ℕ → String → Item → Option (ScanResult f Digest) → State → Answer × State
  unfolding log_audit_event save_item
  finish_rescan now admin item none q = (open_raised, q)
  finish_rescan now admin item (some scan_result) q = (
    rescanned,
    log_audit_event now (quarantine_rescan item.id admin scan_result) (record q {
      items = save_item (record item { reviewed_at = some now; reviewed_by = some admin }) q.items;
    }),
  )

  -- `rescan_item`
  unfoldable pub rescan_item : ℕ → ℕ → String → State → Answer × State
  unfolding get_item load_from_quarantine scan_item finish_rescan
  rescan_item now item_id admin q = elim (get_item item_id q.items) [
    | none ↦ (item_not_found, q)
    | some item ↦ elim (load_from_quarantine item.safe_identifier q.files) [
      | none ↦ (file_not_found, q)
      | some file_bytes ↦ finish_rescan now admin item (scan_item item file_bytes) q
    ]
  ]

  -- The end of `release_item`, after the scan.
  unfoldable pub finish_release :
      ℕ → String → Item → Option (ScanResult f Digest) → State → Answer × State
  unfolding log_audit_event save_item
  finish_release now admin item none q = (open_raised, q)
  finish_release now admin item (some scan_result) q =
      if is_malicious_verdict scan_result.verdict
      then (
        still_malicious,
        log_audit_event now (quarantine_release_denied item.id "Still malicious") q,
      )
      else (
        done_release,
        log_audit_event now (quarantine_released item.id admin) (record q {
          items =
              save_item
                (record item {
                  quarantine_status = released;
                  released_at = some now;
                  reviewed_by = some admin;
                })
                q.items;
        }),
      )

  -- `current_sha256 == item.sha256`
  unfoldable pub same_digest : Digest → Option Digest → Bool
  same_digest current none = false
  same_digest current (some expected) = w.sha.eq.beq current expected

  -- `release_item`
  unfoldable pub release_item : ℕ → ℕ → String → State → Answer × State
  unfolding get_item load_from_quarantine same_digest scan_item finish_release log_audit_event
  release_item now item_id admin q = elim (get_item item_id q.items) [
    | none ↦ (item_not_found, q)
    | some item ↦ elim (load_from_quarantine item.safe_identifier q.files) [
      | none ↦ (file_not_found, q)
      | some file_bytes ↦
          if same_digest (w.hash_bytes file_bytes) item.sha256
          then finish_release now admin item (scan_item item file_bytes) q
          else (
            integrity_failed,
            log_audit_event now (quarantine_release_denied item.id "Hash mismatch") q,
          )
    ]
  ]

  -- `delete_item`
  unfoldable pub delete_item : ℕ → ℕ → String → State → Answer × State
  unfolding get_item delete_from_quarantine save_item log_audit_event
  delete_item now item_id admin q = elim (get_item item_id q.items) [
    | none ↦ (item_not_found, q)
    | some item ↦ (
      done_delete,
      log_audit_event now (quarantine_deleted item.id admin) (record q {
        files = delete_from_quarantine item.safe_identifier q.files;
        items =
            save_item (record item { quarantine_status = deleted; deleted_at = some now }) q.items;
      }),
    )
  ]
