-- ===== src/Ledger/History.antt =====
-- A ledger that only `append_block` has written verifies, whatever the node answered meanwhile.
use reserach.Base.{
  ℕ, ◌+◌, ◌≡◌, refl, sym, ◌∙◌, ap, true, String, none, List, [], ◌∷◌, length, length-append, arith,
}
use reserach.Ledger.{AuditBlock, Sha, tip_hash}
use reserach.Ledger.Append.{Settings, Node, anchor, new_block, append_block}
use reserach.Ledger.Verify.{verify_chain}
use reserach.Ledger.Chain.{
  own_hash, IsLinked, LinkedFrom-append, tip_from-eq-tip_hash, verify_chain_iff,
  verify_chain-IsLinked,
}
use reserach.Ledger.Anchoring.{protected, protected-anchor}

-- One call of `append_block`, with what the node answers to it.
pub record Event : Type 0 where
  pub env : Settings
  pub node : Node
  pub event_type : String
  pub details_json : String
  pub now : ℕ

module _ {Digest : Type 0} (s : Sha Digest) where
  -- The calls in turn; a call that raises has written its row all the same.
  unfoldable pub append_all : List Event → List (AuditBlock Digest) → List (AuditBlock Digest)
  append_all [] blocks = blocks
  append_all (e ∷ es) blocks =
      append_all es (append_block s e.env e.node e.event_type e.details_json e.now blocks).1

  own_hash-protected :
      (b c : AuditBlock Digest) → protected c ≡ protected b → own_hash s c ≡ own_hash s b
  own_hash-protected b c h = cc (ap (λ t. t.1) h, ap (λ t. t.2) h, ap (λ t. t.3) h, ap (λ t. t.5) h)

  append_block-IsLinked :
      (env : Settings) (node : Node) (e d : String) (now : ℕ) (blocks : List (AuditBlock Digest))
      → IsLinked s blocks
      → IsLinked s (append_block s env node e d now blocks).1
  unfolding append_block
  append_block-IsLinked env node e d now blocks h =
      let fresh = new_block s e d now blocks in
      let kept = protected-anchor env node fresh in
      LinkedFrom-append s s.zeros blocks (anchor env node fresh).1 h
        (ap (λ t. t.3) kept ∙ previous ∙ sym (tip_from-eq-tip_hash s blocks))
        (own_hash-protected fresh (anchor env node fresh).1 kept ∙ own ∙ sym (ap (λ t. t.4) kept))
    where
      previous : (new_block s e d now blocks).previous_hash ≡ tip_hash s blocks
      previous = unfold new_block in refl

      own : own_hash s (new_block s e d now blocks) ≡ (new_block s e d now blocks).block_hash
      own = unfold new_block in refl

  append_all-IsLinked :
      (es : List Event) (blocks : List (AuditBlock Digest))
      → IsLinked s blocks
      → IsLinked s (append_all es blocks)
  unfolding append_all
  append_all-IsLinked [] blocks h = h
  append_all-IsLinked (e ∷ es) blocks h =
      append_all-IsLinked es _
        (append_block-IsLinked e.env e.node e.event_type e.details_json e.now blocks h)

  length-append_all :
      (es : List Event) (blocks : List (AuditBlock Digest))
      → length (append_all es blocks) ≡ length blocks + length es
  unfolding append_all append_block
  length-append_all [] blocks = omega arith
  length-append_all (e ∷ es) blocks = omega (
    arith,
    length-append_all es (append_block s e.env e.node e.event_type e.details_json e.now blocks).1,
    length-append blocks
        ((anchor e.env e.node (new_block s e.event_type e.details_json e.now blocks)).1 ∷ []),
  )

  -- After any calls of `append_block` on an empty table, failed anchorings and raises included,
  -- `verify_chain` (with no node to ask) reports a valid ledger and counts one record for each call.
  pub verify_chain-append_all :
      (es : List Event)
      → ((verify_chain s none (append_all es [])).valid ≡ true)
        × ((verify_chain s none (append_all es [])).checked_records ≡ length es)
  verify_chain-append_all es =
      let linked = append_all-IsLinked es [] tt in
      (
        (verify_chain_iff s (append_all es [])).1 linked,
        verify_chain-IsLinked s (append_all es []) linked ∙ length-append_all es [] ∙ omega arith,
      )
