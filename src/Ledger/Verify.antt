-- ===== src/Ledger/Verify.antt =====
-- `BlockchainService.verify_chain` (backend/app/services/blockchain_service.py). The answers of the
-- contract and of the node are parameters; `verified_at` and the fixed messages are left out.
use reserach.Base.{
  ℕ, ◌+◌, ◌-◌, Bool, true, false, not, String, Option, none, some, List, [], ◌∷◌, length, ◌==◌,
  if◌then◌else◌,
}
use reserach.Ledger.{AuditBlock, Sha, confirmed, calculate_hash}

-- `contract.functions.anchors(block.id).call()`: the event hash of the anchor, `none` for the empty
-- text, or an exception.
pub data Anchor (Digest : Type 0) : Type 0 where
  event_hash : Option Digest → Anchor Digest
  call_raised : Anchor Digest

-- The contract and `get_transaction_receipt`, whose answer is a status or an exception (`none`).
pub record Chain (Digest : Type 0) : Type 0 where
  pub anchors : ℕ → Anchor Digest
  pub receipt_status : String → Option ℕ

pub data Reason : Type 0 where
  previous_hash_mismatch block_hash_mismatch onchain_anchor_missing : Reason
  onchain_hash_mismatch onchain_tx_failed onchain_receipt_not_found : Reason
  onchain_verification_exception : Reason

pub data Verdict : Type 0 where
  empty valid invalid verification_error : Verdict

-- The dictionary that `verify_chain` returns.
pub record Report : Type 0 where
  pub valid : Bool
  pub status : Verdict
  pub checked_records : ℕ
  pub invalid_record_id : Option ℕ
  pub invalid_sequence : Option ℕ
  pub reason : Option Reason

abbrev pub rejects : Reason → Verdict
rejects onchain_verification_exception = verification_error
rejects _ = invalid

unfoldable pub reject : ℕ → ℕ → Reason → Report
reject sequence id reason = record {
  valid = false;
  status = rejects reason;
  checked_records = sequence - 1;
  invalid_record_id = some id;
  invalid_sequence = some sequence;
  reason = some reason;
}

module _ {Digest : Type 0} (s : Sha Digest) where
  -- "1. Off-chain Database Verification"
  unfoldable pub check_database : Digest → AuditBlock Digest → Option Reason
  unfolding calculate_hash
  check_database expected_previous block =
      if not (s.eq.beq block.previous_hash expected_previous)
      then some previous_hash_mismatch
      else if not (
          s.eq.beq
            (calculate_hash s block.event_type block.details_json block.previous_hash
              block.created_at)
            block.block_hash)
      then some block_hash_mismatch
      else none

  -- "Verify transaction receipt exists and was successful"; an empty hash skips it.
  unfoldable pub check_receipt : Chain Digest → Option String → Option Reason
  check_receipt chain none = none
  check_receipt chain (some transaction_hash) = elim (chain.receipt_status transaction_hash) [
    | none ↦ some onchain_receipt_not_found
    | some status ↦ if status == 1 then none else some onchain_tx_failed
  ]

  unfoldable pub check_anchor : Chain Digest → AuditBlock Digest → Anchor Digest → Option Reason
  unfolding check_receipt
  check_anchor chain block call_raised = some onchain_verification_exception
  check_anchor chain block (event_hash none) = some onchain_anchor_missing
  check_anchor chain block (event_hash (some chain_event_hash)) =
      if s.eq.beq chain_event_hash
        (calculate_hash s block.event_type block.details_json block.previous_hash block.created_at)
      then check_receipt chain block.blockchain_transaction_hash
      else some onchain_hash_mismatch

  -- "2. On-chain Verification": only where the node and the contract are there (`some`), and only
  -- for confirmed blocks.
  unfoldable pub check_chain : Option (Chain Digest) → AuditBlock Digest → Option Reason
  unfolding check_anchor
  check_chain none block = none
  check_chain (some chain) block = elim block.blockchain_status [
    | confirmed ↦ check_anchor chain block (chain.anchors block.id)
    | _ ↦ none
  ]

  unfoldable pub check_block : Option (Chain Digest) → Digest → AuditBlock Digest → Option Reason
  check_block chain expected_previous block = elim (check_database expected_previous block) [
    | some reason ↦ some reason
    | none ↦ check_chain chain block
  ]

  -- `for sequence, block in enumerate(blocks, start=1)`: `none` when the loop runs to its end.
  unfoldable pub verify_from :
      Option (Chain Digest) → Digest → ℕ → List (AuditBlock Digest) → Option Report
  verify_from chain expected_previous sequence [] = none
  verify_from chain expected_previous sequence (block ∷ blocks) =
      let rest = verify_from chain block.block_hash (sequence + 1) blocks in
      elim (check_block chain expected_previous block) [
        | some reason ↦ some (reject sequence block.id reason)
        | none ↦ rest
      ]

  abbrev pub empty_report : Report
  empty_report = record {
    valid = true;
    status = empty;
    checked_records = 0;
    invalid_record_id = none;
    invalid_sequence = none;
    reason = none;
  }

  abbrev pub valid_report : ℕ → Report
  valid_report n = record {
    valid = true;
    status = valid;
    checked_records = n;
    invalid_record_id = none;
    invalid_sequence = none;
    reason = none;
  }

  unfoldable pub verify_chain : Option (Chain Digest) → List (AuditBlock Digest) → Report
  verify_chain chain [] = empty_report
  verify_chain chain (block ∷ blocks) = elim (verify_from chain s.zeros 1 (block ∷ blocks)) [
    | some report ↦ report
    | none ↦ valid_report (length (block ∷ blocks))
  ]
