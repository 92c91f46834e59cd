-- ===== src/Quarantine/Trail.antt =====
-- The audit events of the quarantine against the ledger's own hash: `_log_audit_event` joins three
-- texts, `BlockchainService` hashes a JSON object.
use reserach.Base.{ℕ, ◌≡◌, false, List, [], ◌∷◌, ◌++◌, Bool-cases, inl, inr, none, append_assoc}
use reserach.Base.Float.{Float}
use reserach.Ledger.{AuditBlock, CollisionFree, calculate_hash}
use reserach.Ledger.Verify.{verify_chain}
use reserach.Ledger.Chain.{own_hash, LinkedFrom, verify_chain_iff}
use reserach.Quarantine.{World, Details}
use reserach.Quarantine.Service.{audit_block, log_audit_event, State}

module _ (f : Float) {Digest : Type 0} (w : World f Digest) (secure : CollisionFree w.sha) where
  -- The hash of such a block is never the one that its fields call for.
  own_hash-audit_block :
      (now : ℕ) (details : Details f Digest) (blocks : List (AuditBlock Digest))
      → own_hash w.sha (audit_block f w now details blocks)
        ≡ (audit_block f w now details blocks).block_hash
      → ⊥
  unfolding audit_block calculate_hash
  own_hash-audit_block now details blocks h = cc (secure _ _ h)

  not_linked :
      (now : ℕ) (details : Details f Digest) (tip : List (AuditBlock Digest)) (p : Digest)
      (blocks later : List (AuditBlock Digest))
      → LinkedFrom w.sha p (blocks ++ audit_block f w now details tip ∷ later)
      → ⊥
  not_linked now details tip p [] later h = own_hash-audit_block now details tip h.1
  not_linked now details tip p (b ∷ blocks) later h =
      not_linked now details tip b.block_hash blocks later h.2

  -- One quarantine event breaks the ledger for good: whatever the ledger was before and whatever is
  -- appended later, `verify_chain` (with no node to ask) rejects it.
  pub log_audit_event_breaks :
      (now : ℕ) (details : Details f Digest) (q : State f w) (later : List (AuditBlock Digest))
      → (verify_chain w.sha none ((log_audit_event f w now details q).blocks ++ later)).valid
        ≡ false
  unfolding log_audit_event
  log_audit_event_breaks now details q later =
      let a = audit_block f w now details q.blocks in
      elim (Bool-cases (verify_chain w.sha none ((q.blocks ++ a ∷ []) ++ later)).valid) [
        | inl accepted ↦
            let linked = (verify_chain_iff w.sha ((q.blocks ++ a ∷ []) ++ later)).0 accepted in
            absurd (
              not_linked now details q.blocks w.sha.zeros q.blocks later
                (rw (append_assoc q.blocks (a ∷ []) later) at linked))
        | inr rejected ↦ rejected
      ]
