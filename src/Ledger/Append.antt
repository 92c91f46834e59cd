-- ===== src/Ledger/Append.antt =====
-- `BlockchainService._get_web3`, `get_contract` and `append_block`
-- (backend/app/services/blockchain_service.py). The node is a parameter: each attempt of the retry
-- loop is given what the node answered. Failures of the database itself are not modelled.
use reserach.Base.{
  ℕ, zero, suc, ◌+◌, Bool, true, false, String, none, some, List, [], ◌∷◌, ◌++◌, ◌==◌,
  if◌then◌else◌,
}
use reserach.Ledger.{
  AuditBlock, Sha, local_only, confirmed, failed, calculate_hash, tip_hash, next_id,
}

-- The environment variables.
pub record Settings : Type 0 where
  pub blockchain_enabled : Bool
  pub blockchain_required : Bool
  pub signer_private_key : Bool
  pub blockchain_chain_id : String

-- `_web3`: the class variable that keeps the handle between calls.
pub record Handle : Type 0 where
  pub web3 : Bool

-- `_get_web3`: the handle is stored before the connection is tested. The result is whether a handle
-- is returned.
unfoldable pub get_web3 : Settings → Bool → Handle → Bool × Handle
get_web3 env is_connected h =
    if env.blockchain_enabled
    then (if h.web3
        then (true, h)
        else if is_connected
        then (true, record { web3 = true })
        else (false, record { web3 = true }))
    else (false, h)

-- A receipt of `wait_for_transaction_receipt`, with the hash of its transaction.
pub record Receipt : Type 0 where
  pub status : ℕ
  pub transaction_hash : String
  pub block_number : ℕ
  pub block_hash : String
  pub mined_at : ℕ

-- What one attempt meets: the idempotency check finds an anchor, finds none or raises, and then the
-- transaction is mined or something raises.
pub data Probe : Type 0 where
  anchored not_anchored probe_raised : Probe

pub data Transaction : Type 0 where
  mined : Receipt → Transaction
  raised : Transaction

-- What the call meets outside: whether a handle and a contract are available, the contract's
-- address, and the answers to each attempt.
pub record Node : Type 0 where
  pub w3 : Bool
  pub contract : Bool
  pub contract_address : String
  pub probe : ℕ → Probe
  pub transaction : ℕ → Transaction

-- What the caller gets: the block, or `RuntimeError`.
pub data Outcome : Type 0 where
  returned runtime_error : Outcome

-- How a round of the retry loop ends: the loop is left, or goes on.
pub data Round (Digest : Type 0) : Type 0 where
  stop : Outcome → AuditBlock Digest → Round Digest
  again : AuditBlock Digest → Round Digest

abbrev pub max_retries : ℕ
max_retries = 3

module _ {Digest : Type 0} where
  -- `receipt.status == 1`: the anchor's fields are filled in.
  unfoldable pub confirm : Settings → Node → Receipt → AuditBlock Digest → AuditBlock Digest
  confirm env node receipt block = record block {
    blockchain_network_id = some env.blockchain_chain_id;
    blockchain_contract_address = some node.contract_address;
    blockchain_transaction_hash = some receipt.transaction_hash;
    blockchain_block_number = some receipt.block_number;
    blockchain_block_hash = some receipt.block_hash;
    blockchain_status = confirmed;
    anchor_timestamp = some receipt.mined_at;
  }

  unfoldable pub fail : AuditBlock Digest → AuditBlock Digest
  fail block = record block { blockchain_status = failed }

  -- One round of the loop, with whether it is the last one. An exception, and a mined transaction
  -- with another status than 1, end the loop only on the last round; the `RuntimeError` for a
  -- reverted required transaction lands in the `except` of the same round, which raises again.
  unfoldable pub attempt_once : Settings → Node → Bool → ℕ → AuditBlock Digest → Round Digest
  unfolding confirm fail
  attempt_once env node is_last attempt block = elim (node.probe attempt) [
    | anchored ↦ stop returned block
    | _ ↦ elim (node.transaction attempt) [
      | mined receipt ↦
          if receipt.status == 1
          then stop returned (confirm env node receipt block)
          else if is_last
          then stop (if env.blockchain_required then runtime_error else returned) (fail block)
          else again (fail block)
      | raised ↦
          if is_last
          then stop (if env.blockchain_required then runtime_error else returned) (fail block)
          else again block
    ]
  ]

  -- `for attempt in range(max_retries)`, with the rounds left.
  unfoldable pub anchor_loop :
      Settings → Node → ℕ → ℕ → AuditBlock Digest → Outcome × AuditBlock Digest
  anchor_loop env node zero attempt block = (returned, block)
  anchor_loop env node (suc rounds) attempt block =
      elim (attempt_once env node (rounds == 0) attempt block) [
        | stop outcome b ↦ (outcome, b)
        | again b ↦ anchor_loop env node rounds (attempt + 1) b
      ]

  -- "Attempt Blockchain Anchoring"
  unfoldable pub anchor : Settings → Node → AuditBlock Digest → Outcome × AuditBlock Digest
  anchor env node block =
      if env.blockchain_enabled
      then (if node.w3
          then (if env.signer_private_key
              then (if node.contract
                  then anchor_loop env node max_retries 0 block
                  else (if env.blockchain_required then runtime_error else returned, block))
              else (if env.blockchain_required then runtime_error else returned, block))
          else (if env.blockchain_required then runtime_error else returned, block))
      else (returned, block)

module _ {Digest : Type 0} (s : Sha Digest) where
  -- The row that is added before any anchoring.
  unfoldable pub new_block : String → String → ℕ → List (AuditBlock Digest) → AuditBlock Digest
  unfolding calculate_hash tip_hash next_id
  new_block event_type details_json now blocks =
      let previous_hash = tip_hash s blocks in
      record {
        id = next_id blocks;
        event_type = event_type;
        details_json = details_json;
        previous_hash = previous_hash;
        block_hash = calculate_hash s event_type details_json previous_hash now;
        created_at = now;
        blockchain_network_id = none;
        blockchain_contract_address = none;
        blockchain_transaction_hash = none;
        blockchain_block_number = none;
        blockchain_block_hash = none;
        blockchain_status = local_only;
        anchor_timestamp = none;
      }

  -- `append_block`: the row is committed before the anchoring, so it stays when that raises.
  unfoldable pub append_block :
      Settings
      → Node
      → String
      → String
      → ℕ
      → List (AuditBlock Digest)
      → Outcome × List (AuditBlock Digest)
  append_block env node event_type details_json now blocks =
      let (outcome, block) = anchor env node (new_block event_type details_json now blocks) in
      (outcome, blocks ++ block ∷ [])
