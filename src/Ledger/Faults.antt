-- ===== src/Ledger/Faults.antt =====
-- Where `verify_chain` stops: at the first record that does not link, and nowhere else.
use reserach.Base.{
  ℕ, suc, ◌+◌, ◌≡◌, refl, ◌∙◌, ap, none, some, List, [], ◌∷◌, ◌++◌, inl, inr, arith, length,
  Option-cases, false, some_inj,
}
use mathlib.Core.Path.{subst}
use reserach.Ledger.{AuditBlock, Sha}
use reserach.Ledger.Verify.{check_database, verify_from, verify_chain, reject, Report, Reason}
use reserach.Ledger.Chain.{own_hash, LinkedFrom, tip_from, check_database_iff, check_block-local}

add_suc_one : (n : ℕ) → suc n + 1 ≡ suc (n + 1)
add_suc_one n = omega arith

module _ {Digest : Type 0} (s : Sha Digest) where
  -- The record at which the reading of `bs` from the digest `p` breaks off.
  pub record FirstFault (p : Digest) (bs : List (AuditBlock Digest)) (n : ℕ) (r : Report)
      : Type 0 where
    pub good : List (AuditBlock Digest)
    pub bad : AuditBlock Digest
    pub rest : List (AuditBlock Digest)
    pub split : bs ≡ good ++ (bad ∷ rest)
    pub good_linked : LinkedFrom s p good
    pub bad_unlinked :
        ¬ ((bad.previous_hash ≡ tip_from s p good) × (own_hash s bad ≡ bad.block_hash))
    pub checked : r.checked_records ≡ n + length good
    pub record_id : r.invalid_record_id ≡ some bad.id
    pub sequence : r.invalid_sequence ≡ some (suc (n + length good))

  FirstFault-here :
      (p : Digest) (n : ℕ) (b : AuditBlock Digest) (bs : List (AuditBlock Digest)) (reason : Reason)
      → check_database s p b ≡ some reason
      → FirstFault p (b ∷ bs) n (reject (suc n) b.id reason)
  unfolding reject
  FirstFault-here p n b bs reason found = record {
    good = [];
    bad = b;
    rest = bs;
    split = refl;
    good_linked = tt;
    bad_unlinked = λ h. cc (found, (check_database_iff s p b).1 h);
    checked = omega arith;
    record_id = refl;
    sequence = ap some (omega arith);
  }

  FirstFault-later :
      (p : Digest) (n : ℕ) (b : AuditBlock Digest) (bs : List (AuditBlock Digest)) (r : Report)
      → check_database s p b ≡ none
      → FirstFault b.block_hash bs (n + 1) r
      → FirstFault p (b ∷ bs) n r
  FirstFault-later p n b bs r fits f =
      let parts = (check_database_iff s p b).0 fits in
      record {
        good = b ∷ f.good;
        bad = f.bad;
        rest = f.rest;
        split = ap (λ t. b ∷ t) f.split;
        good_linked = (parts.0, parts.1, f.good_linked);
        bad_unlinked = f.bad_unlinked;
        checked = f.checked ∙ omega arith;
        record_id = f.record_id;
        sequence = f.sequence ∙ ap some (omega arith);
      }

  verify_from-FirstFault :
      (p : Digest) (n : ℕ) (bs : List (AuditBlock Digest)) (r : Report)
      → verify_from s none p (suc n) bs ≡ some r
      → FirstFault p bs n r
  unfolding verify_from
  verify_from-FirstFault p n [] r h = absurd (cc)
  verify_from-FirstFault p n (b ∷ bs) r h = elim (Option-cases (check_database s p b)) [
    | inl fits ↦
        let rest = rw (check_block-local s p b ∙ fits, verify_from) at h in
        FirstFault-later p n b bs r fits
          (verify_from-FirstFault b.block_hash (n + 1) bs r (rw add_suc_one at rest))
    | inr (reason, found) ↦
        subst (λ x. FirstFault p (b ∷ bs) n x)
          (some_inj (rw (check_block-local s p b ∙ found, verify_from) at h))
          (FirstFault-here p n b bs reason found)
  ]

  -- With no node to ask, whenever `verify_chain` does not report a valid ledger, its report points at
  -- the first record that breaks the chain: the records before it are linked, it is not, and the count
  -- of checked records, the record's id and its sequence number are those of that place.
  pub verify_chain-FirstFault :
      (blocks : List (AuditBlock Digest))
      → (verify_chain s none blocks).valid ≡ false
      → FirstFault s.zeros blocks 0 (verify_chain s none blocks)
  unfolding verify_chain
  verify_chain-FirstFault [] h = absurd (cc)
  verify_chain-FirstFault (b ∷ bs) h = elim (Option-cases (verify_from s none s.zeros 1 (b ∷ bs))) [
    | inl through ↦ absurd (cc (rw (through, verify_chain) at h))
    | inr (r, e) ↦ rw (e, verify_chain) (verify_from-FirstFault s.zeros 0 (b ∷ bs) r e)
  ]
