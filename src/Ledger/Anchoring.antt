-- ===== src/Ledger/Anchoring.antt =====
-- What the anchoring of `append_block` does to a row: it fills in the blockchain fields and leaves
-- alone what the hash covers; where anchoring is required, only an anchored row is returned.
use reserach.Base.{ℕ, zero, suc, ◌+◌, ◌≡◌, ◌∙◌, refl, Bool, true, false, ◌⊎◌, String, arith, ◌==◌}
use reserach.Ledger.{AuditBlock, confirmed}
use reserach.Ledger.Append.{
  Settings, Node, Outcome, anchored, anchor, anchor_loop, attempt_once, Round, stop, again,
  max_retries, get_web3,
}

-- The columns that `receive_before_update` protects, as one value.
abbrev pub protected :
    {Digest : Type 0} → AuditBlock Digest → ℕ × String × String × Digest × Digest × ℕ
protected b = (b.id, b.event_type, b.details_json, b.previous_hash, b.block_hash, b.created_at)

module _ {Digest : Type 0} where
  abbrev round_block : Round Digest → AuditBlock Digest
  round_block (stop outcome b) = b
  round_block (again b) = b

  protected-attempt_once :
      (env : Settings) (node : Node) (is_last : Bool) (attempt : ℕ) (b : AuditBlock Digest)
      → protected (round_block (attempt_once env node is_last attempt b)) ≡ protected b
  unfolding attempt_once
  protected-attempt_once env node is_last attempt b = ground arith

  protected-anchor_loop :
      (env : Settings) (node : Node) (rounds attempt : ℕ) (b : AuditBlock Digest)
      → protected (anchor_loop env node rounds attempt b).1 ≡ protected b
  unfolding anchor_loop
  protected-anchor_loop env node zero attempt b = refl
  protected-anchor_loop env node (suc rounds) attempt b =
      step (attempt_once env node (rounds == 0) attempt b)
        (protected-attempt_once env node (rounds == 0) attempt b)
        (protected-anchor_loop env node rounds (attempt + 1))
    where
      step :
          (r : Round Digest)
          → protected (round_block r) ≡ protected b
          → ((c : AuditBlock Digest)
              → protected (anchor_loop env node rounds (attempt + 1) c).1 ≡ protected c)
          → protected
              (let out : Outcome × AuditBlock Digest = elim r [
                | stop outcome c ↦ (outcome, c)
                | again c ↦ anchor_loop env node rounds (attempt + 1) c
              ] in
                out).1
            ≡ protected b
      step (stop outcome c) h ih = h
      step (again c) h ih = ih c ∙ h

  -- Anchoring leaves what the hash covers as it was.
  pub protected-anchor :
      (env : Settings) (node : Node) (b : AuditBlock Digest)
      → protected (anchor env node b).1 ≡ protected b
  unfolding anchor
  protected-anchor env node b = ground (arith, protected-anchor_loop env node max_retries 0 b)

  -- Where an attempt ends the loop with a block to return, the anchor is there.
  abbrev pub IsAnchored : Node → AuditBlock Digest → Type 0
  IsAnchored node b = (b.blockchain_status ≡ confirmed) ⊎ ((k : ℕ) × (node.probe k ≡ anchored))

-- `_get_web3` keeps the handle that it has just found unconnected: the call that finds the node
-- unreachable returns nothing, and every later call returns that handle without a test.
pub get_web3_stale :
    (env : Settings) (is_connected : Bool)
    → env.blockchain_enabled ≡ true
    → let (found, h) = get_web3 env false (record { web3 = false }) in
      (found ≡ false) × ((get_web3 env is_connected h).0 ≡ true)
unfolding get_web3
get_web3_stale env is_connected enabled = ground arith
