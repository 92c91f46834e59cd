-- ===== src/Ledger.antt =====
-- The audit ledger: the table `audit_blocks` (backend/app/database/models.py), and what
-- backend/app/services/blockchain_service.py needs from outside: SHA-256, the blockchain node.
pub mod Append
pub mod Verify
pub mod Guard
pub mod Chain
pub mod Tamper
pub mod Faults
pub mod Anchoring
pub mod History
pub mod Symbolic
mod Tests
use reserach.Base.{ℕ, String, Option, none, some, List, ◌+◌, ◌≡◌, Eq, last?}

-- `blockchain_status`
pub data Status : Type 0 where
  local_only confirmed failed : Status

-- What is hashed: the canonical JSON text of the four fields that `_calculate_hash` dumps with
-- sorted keys, or the text that `QuarantineService._log_audit_event` joins from the previous hash
-- and the two other texts.
pub data Preimage (Digest : Type 0) : Type 0 where
  canonical :
      (details_json event_type : String) (previous_hash : Digest) (timestamp : ℕ) → Preimage Digest
  joined : (previous_hash : Digest) (rest : String) → Preimage Digest

-- SHA-256 in hex with its equality test, and the 64 zeros before the first block.
pub record Sha (Digest : Type 0) : Type 0 where
  pub eq : Eq Digest
  pub zeros : Digest
  pub sha256 : Preimage Digest → Digest

-- Collision resistance, stated as injectivity.
abbrev pub CollisionFree : {Digest : Type 0} → Sha Digest → Type 0
CollisionFree {Digest} s = (a b : Preimage Digest) → s.sha256 a ≡ s.sha256 b → a ≡ b

-- A row of `audit_blocks`; times are in microseconds. The fields from `blockchain_network_id` on
-- are those that anchoring fills in.
pub record AuditBlock (Digest : Type 0) : Type 0 where
  pub id : ℕ
  pub event_type : String
  pub details_json : String
  pub previous_hash : Digest
  pub block_hash : Digest
  pub created_at : ℕ
  pub blockchain_network_id : Option String
  pub blockchain_contract_address : Option String
  pub blockchain_transaction_hash : Option String
  pub blockchain_block_number : Option ℕ
  pub blockchain_block_hash : Option String
  pub blockchain_status : Status
  pub anchor_timestamp : Option ℕ

module _ {Digest : Type 0} (s : Sha Digest) where
  -- `_calculate_hash`
  unfoldable pub calculate_hash : String → String → Digest → ℕ → Digest
  calculate_hash event_type details_json previous_hash timestamp =
      s.sha256 (canonical details_json event_type previous_hash timestamp)

  -- `previous.block_hash if previous else "0" * 64`
  unfoldable pub tip_hash : List (AuditBlock Digest) → Digest
  tip_hash blocks = elim (last? blocks) [ none ↦ s.zeros | some previous ↦ previous.block_hash ]

-- The next primary key of a table from which no row is ever deleted.
unfoldable pub next_id : {Digest : Type 0} → List (AuditBlock Digest) → ℕ
next_id blocks = elim (last? blocks) [ none ↦ 1 | some previous ↦ previous.id + 1 ]
