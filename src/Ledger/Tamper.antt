-- ===== src/Ledger/Tamper.antt =====
-- Tamper evidence: the hash of the last block fixes every block before it.
use reserach.Base.{
  ℕ, ◌≡◌, refl, sym, ◌∙◌, ap, String, true, none, List, [], ◌∷◌, map, arith, length,
}
use reserach.Ledger.{AuditBlock, Sha, Preimage, canonical, CollisionFree, calculate_hash, tip_hash}
use reserach.Ledger.Verify.{verify_chain}
use reserach.Ledger.Chain.{own_hash, LinkedFrom, tip_from, tip_from-eq-tip_hash, verify_chain_iff}

-- What a block says: all that the hash covers, and the hash.
abbrev pub content : {Digest : Type 0} → AuditBlock Digest → String × String × Digest × Digest × ℕ
content b = (b.event_type, b.details_json, b.previous_hash, b.block_hash, b.created_at)

module _ {Digest : Type 0} where
  -- The fields of a canonical preimage; a joined text has none, and stands for itself.
  abbrev field_details : Preimage Digest → String
  field_details (canonical d e p t) = d
  field_details (Preimage.joined p r) = r

  abbrev field_event : Preimage Digest → String
  field_event (canonical d e p t) = e
  field_event (Preimage.joined p r) = r

  abbrev field_previous : Preimage Digest → Digest
  field_previous (canonical d e p t) = p
  field_previous (Preimage.joined p r) = p

  abbrev field_time : Preimage Digest → ℕ
  field_time (canonical d e p t) = t
  field_time (Preimage.joined p r) = 0

module _ {Digest : Type 0} (s : Sha Digest) (collision_free : CollisionFree s) where
  -- Equal hashes come from equal blocks.
  content_of_hash :
      (b c : AuditBlock Digest)
      → own_hash s b ≡ b.block_hash
      → own_hash s c ≡ c.block_hash
      → b.block_hash ≡ c.block_hash
      → content b ≡ content c
  unfolding calculate_hash
  content_of_hash b c hb hc e =
      let same = collision_free _ _ (hb ∙ e ∙ sym hc) in
      cc (e, ap field_details same, ap field_event same, ap field_previous same, ap field_time same)

  contents_of_tip :
      (p q : Digest) (bs cs : List (AuditBlock Digest))
      → LinkedFrom s p bs
      → LinkedFrom s q cs
      → length bs ≡ length cs
      → tip_from s p bs ≡ tip_from s q cs
      → (map content bs ≡ map content cs) × (p ≡ q)
  contents_of_tip p q [] [] hb hc n e = (refl, e)
  contents_of_tip p q [] (c ∷ cs) hb hc n e = absurd (omega arith)
  contents_of_tip p q (b ∷ bs) [] hb hc n e = absurd (omega arith)
  contents_of_tip p q (b ∷ bs) (c ∷ cs) hb hc n e =
      let rest = contents_of_tip b.block_hash c.block_hash bs cs hb.2 hc.2 (omega arith) e in
      let first = content_of_hash b c hb.1 hc.1 rest.1 in
      (cc (rest.0, first), sym hb.0 ∙ ap (λ t. t.2) first ∙ hc.0)

  -- Under a collision-free hash, two ledgers that `verify_chain` accepts (with no node to ask), of the
  -- same number of records and with the same last hash, hold the same events, details, links and
  -- times, record by record: rewriting any earlier record changes the last hash.
  pub tamper_evident :
      (bs cs : List (AuditBlock Digest))
      → (verify_chain s none bs).valid ≡ true
      → (verify_chain s none cs).valid ≡ true
      → length bs ≡ length cs
      → tip_hash s bs ≡ tip_hash s cs
      → map content bs ≡ map content cs
  tamper_evident bs cs hb hc n e =
      (contents_of_tip s.zeros s.zeros bs cs ((verify_chain_iff s bs).0 hb)
        ((verify_chain_iff s cs).0 hc) n
        (tip_from-eq-tip_hash s bs ∙ e ∙ sym (tip_from-eq-tip_hash s cs))).0
