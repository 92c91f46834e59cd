-- ===== src/Ledger/Chain.antt =====
-- What the ledger promises: each block links to the one before it and carries its own hash.
-- `verify_chain` without a node accepts exactly the linked ledgers, and `append_block` keeps them linked.
use reserach.Base.{
  ℕ, ◌+◌, ◌≡◌, refl, ◌∙◌, ◌↔◌, true, false, Option, none, some, List, [], ◌∷◌, ◌++◌, inl, inr,
  arith, Option-cases, beq→eq, length,
}
use reserach.Ledger.{AuditBlock, Sha, calculate_hash, tip_hash}
use reserach.Ledger.Verify.{
  Chain, check_database, check_block, check_chain, verify_from, verify_chain, reject, Report,
}

module _ {Digest : Type 0} (s : Sha Digest) where
  -- The hash that a block's own fields call for.
  abbrev pub own_hash : AuditBlock Digest → Digest
  own_hash b = calculate_hash s b.event_type b.details_json b.previous_hash b.created_at

  -- From the digest `p` on, every block names its predecessor's hash and carries its own.
  abbrev pub LinkedFrom : Digest → List (AuditBlock Digest) → Type 0
  LinkedFrom p [] = Unit
  LinkedFrom p (b ∷ bs) =
      (b.previous_hash ≡ p) × (own_hash b ≡ b.block_hash) × LinkedFrom b.block_hash bs

  abbrev pub IsLinked : List (AuditBlock Digest) → Type 0
  IsLinked blocks = LinkedFrom s.zeros blocks

  -- The digest that a block after `blocks` has to name.
  abbrev pub tip_from : Digest → List (AuditBlock Digest) → Digest
  tip_from p [] = p
  tip_from p (b ∷ bs) = tip_from b.block_hash bs

  pub LinkedFrom-append :
      (p : Digest) (bs : List (AuditBlock Digest)) (b : AuditBlock Digest)
      → LinkedFrom p bs
      → b.previous_hash ≡ tip_from p bs
      → own_hash b ≡ b.block_hash
      → LinkedFrom p (bs ++ b ∷ [])
  LinkedFrom-append p [] b h e k = (e, k, tt)
  LinkedFrom-append p (c ∷ bs) b h e k = (h.0, h.1, LinkedFrom-append c.block_hash bs b h.2 e k)

  tip_from-cons :
      (p : Digest) (b : AuditBlock Digest) (bs : List (AuditBlock Digest))
      → tip_from p (b ∷ bs) ≡ tip_hash s (b ∷ bs)
  unfolding tip_hash
  tip_from-cons p b [] = refl
  tip_from-cons p b (c ∷ bs) = tip_from-cons b.block_hash c bs

  pub tip_from-eq-tip_hash : (bs : List (AuditBlock Digest)) → tip_from s.zeros bs ≡ tip_hash s bs
  unfolding tip_hash
  tip_from-eq-tip_hash [] = refl
  tip_from-eq-tip_hash (b ∷ bs) = tip_from-cons s.zeros b bs

  -- One row passes the database checks exactly when it is linked.
  pub check_database_iff :
      (p : Digest) (b : AuditBlock Digest)
      → (check_database s p b ≡ none) ↔ ((b.previous_hash ≡ p) × (own_hash b ≡ b.block_hash))
  unfolding check_database
  check_database_iff p b = (forward, backward)
    where
      forward : check_database s p b ≡ none → (b.previous_hash ≡ p) × (own_hash b ≡ b.block_hash)
      forward h =
          ground (arith, beq→eq s.eq b.previous_hash p, beq→eq s.eq (own_hash b) b.block_hash)

      backward : (b.previous_hash ≡ p) × (own_hash b ≡ b.block_hash) → check_database s p b ≡ none
      backward h = rw ((s.eq.beq_iff _ _).1 h.0, (s.eq.beq_iff _ _).1 h.1)

  -- Without a node only the database checks are made.
  pub check_block-local :
      (p : Digest) (b : AuditBlock Digest) → check_block s none p b ≡ check_database s p b
  unfolding check_block check_chain
  check_block-local p b = ground arith

  verify_from→LinkedFrom :
      (p : Digest) (n : ℕ) (bs : List (AuditBlock Digest))
      → verify_from s none p n bs ≡ none
      → LinkedFrom p bs
  unfolding verify_from
  verify_from→LinkedFrom p n [] h = tt
  verify_from→LinkedFrom p n (b ∷ bs) h = elim (Option-cases (check_database s p b)) [
    | inl fits ↦
        let parts = (check_database_iff p b).0 fits in
        let rest = rw (check_block-local p b ∙ fits, verify_from) at h in
        (parts.0, parts.1, verify_from→LinkedFrom b.block_hash (n + 1) bs rest)
    | inr (reason, found) ↦ cc (rw (check_block-local p b ∙ found, verify_from) at h)
  ]

  LinkedFrom→verify_from :
      (p : Digest) (n : ℕ) (bs : List (AuditBlock Digest))
      → LinkedFrom p bs
      → verify_from s none p n bs ≡ none
  unfolding verify_from
  LinkedFrom→verify_from p n [] h = refl
  LinkedFrom→verify_from p n (b ∷ bs) h =
      rw (check_block-local p b ∙ (check_database_iff p b).1 (h.0, h.1), verify_from)
        (LinkedFrom→verify_from b.block_hash (n + 1) bs h.2)

  -- Every report that the loop returns early is a rejection.
  pub verify_from-rejects :
      (chain : Option (Chain Digest)) (p : Digest) (n : ℕ) (bs : List (AuditBlock Digest))
      (r : Report)
      → verify_from s chain p n bs ≡ some r
      → r.valid ≡ false
  unfolding verify_from reject
  verify_from-rejects chain p n [] r h = cc
  verify_from-rejects chain p n (b ∷ bs) r h =
      ground (arith, verify_from-rejects chain b.block_hash (n + 1) bs r)

  verify_chain→verify_from :
      (b : AuditBlock Digest) (bs : List (AuditBlock Digest))
      → (verify_chain s none (b ∷ bs)).valid ≡ true
      → verify_from s none s.zeros 1 (b ∷ bs) ≡ none
  unfolding verify_chain
  verify_chain→verify_from b bs h = elim (Option-cases (verify_from s none s.zeros 1 (b ∷ bs))) [
    | inl through ↦ through
    | inr (r, e) ↦ cc (verify_from-rejects none s.zeros 1 (b ∷ bs) r e, rw (e, verify_chain) at h)
  ]

  -- Without a node, `verify_chain` reports a valid ledger exactly when every block names its
  -- predecessor's hash (the zeros, for the first) and carries the hash of its own fields.
  pub verify_chain_iff :
      (blocks : List (AuditBlock Digest))
      → ((verify_chain s none blocks).valid ≡ true) ↔ IsLinked blocks
  unfolding verify_chain
  verify_chain_iff [] = (λ _. tt, λ _. refl)
  verify_chain_iff (b ∷ bs) = (
    λ h. verify_from→LinkedFrom s.zeros 1 (b ∷ bs) (verify_chain→verify_from b bs h),
    λ h. rw (LinkedFrom→verify_from s.zeros 1 (b ∷ bs) h, verify_chain),
  )

  pub verify_chain-IsLinked :
      (blocks : List (AuditBlock Digest))
      → IsLinked blocks
      → (verify_chain s none blocks).checked_records ≡ length blocks
  unfolding verify_chain
  verify_chain-IsLinked [] h = refl
  verify_chain-IsLinked (b ∷ bs) h = rw (LinkedFrom→verify_from s.zeros 1 (b ∷ bs) h, verify_chain)
