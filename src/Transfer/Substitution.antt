-- ===== src/Transfer/Substitution.antt =====
-- The order of the checks in `internal_encrypt` (backend/app/routes/internal_engine_routes.py): the key that
-- is presented is stored before the signature is verified with it.
use reserach.Base.{
  ◌≡◌, ◌≢◌, refl, sym, ap, ◌∙◌, Bool, true, false, String, Option, none, some, one_of, string_eq,
  str_eq, str_eq_refl, Bool-cases, inl, inr,
}
use reserach.Base.Float.{Float}
use reserach.Base.Dict.{lookup}
use reserach.Privacy.Features.{Real}
use reserach.Pfce.Download.{is_given}
use reserach.Mitm.{is_revoked, TrustedClientKey, verify_public_key}
use reserach.Mitm.Keys.{IsAnswer, verify_public_key-IsAnswer}
use reserach.Transfer.{
  suffix, Upload, Refusal, signature_invalid, signature_verification_failed, Result, accepted,
  rejected, Action, refuse, then_do, World, Outside, audit,
}
use reserach.Transfer.Admission.{
  critical_extensions, actual_hash, signature_holds, fingerprint_of, check_extension, check_given,
  check_file_hash, check_key, check_client_signature, admit_upload,
}
use reserach.Transfer.Encryption.{internal_encrypt}

true-ne-false : ◌≢◌ {A = Bool} true false
true-ne-false h = cc

answered-stored :
    (current : String) (before : Option TrustedClientKey) (answer : Bool × String)
    (after : Option TrustedClientKey)
    → IsAnswer current before (answer, after)
    → answer.0 ≡ true
    → (key : TrustedClientKey) × (after ≡ some key) × (key.fingerprint ≡ current)
answered-stored current none answer after (accepts, stored) h = (_, stored, refl)
answered-stored current (some row) answer after (stops, goes) h =
    elim (Bool-cases (is_revoked row.status)) [
      | inl revoked ↦
          absurd (true-ne-false (sym h ∙ ap (λ (a : Bool × String). a.0) (stops revoked).0))
      | inr fine ↦ (goes fine).1
    ]

module _ (f : Float) (r : Real f) (Digest Model : Type 0) (x : Outside f r Digest Model) where
  abbrev W : Type 0
  W = World f r Digest Model

  refused-always :
      (result : Result Unit) (v : W)
      → (e : Refusal) × (then_do (λ _. refuse {A = Unit} signature_invalid) (result, v)
          ≡ (rejected e, v))
  refused-always (accepted a) v = (signature_invalid, refl)
  refused-always (rejected e) v = (e, refl)

  abbrev noted : Upload → W → Result Unit × W
  noted q w =
      let fingerprint = fingerprint_of f r Digest Model x q in
      audit f r Digest Model x (signature_verification_failed fingerprint)
        (record w { client_keys = (verify_public_key q.sender_id fingerprint w.client_keys).1 })

  admit_upload-unsigned :
      (q : Upload) (w : W)
      → one_of (suffix q.safe_name) critical_extensions ≡ false
      → is_given q.client_signature ≡ true
      → is_given q.sender_public_key_spki ≡ true
      → actual_hash f r Digest Model x q ≡ q.original_file_sha256
      → (verify_public_key q.sender_id (fingerprint_of f r Digest Model x q) w.client_keys).0.0
        ≡ true
      → signature_holds f r Digest Model x q ≡ false
      → admit_upload f r Digest Model x q w
        ≡ then_do (λ _. refuse {A = Unit} signature_invalid) (noted q w)
  unfolding admit_upload check_extension check_given check_file_hash check_key
      check_client_signature
  admit_upload-unsigned q w allowed signed keyed intact known bad =
      let same : str_eq (actual_hash f r Digest Model x q) q.original_file_sha256 ≡ true =
        rw intact (str_eq_refl q.original_file_sha256) in
      rw (allowed, signed, keyed, same, known, bad) refl

  noted-keys :
      (q : Upload) (w : W)
      → (noted q w).1.client_keys
        ≡ (verify_public_key q.sender_id (fingerprint_of f r Digest Model x q) w.client_keys).1
  unfolding audit
  noted-keys q w = refl

  refused_at_once :
      {A : Type 0} (g : Unit → Action W A) (m : Action W Unit) (w v : W) (e : Refusal)
      → m w ≡ (rejected e, v)
      → then_do g (m w) ≡ (rejected e, v)
  refused_at_once g m w v e h = ap (then_do g) h

  -- A request that passes the checks before that of the signature, and whose signature does not verify,
  -- is refused, and still its key becomes the trusted key of the sender that it names, whatever key was
  -- stored for that sender, unless a revoked one, which the check of the key refuses.
  pub key_stored_unsigned :
      (q : Upload) (w : World f r Digest Model)
      → one_of (suffix q.safe_name) critical_extensions ≡ false
      → is_given q.client_signature ≡ true
      → is_given q.sender_public_key_spki ≡ true
      → actual_hash f r Digest Model x q ≡ q.original_file_sha256
      → (verify_public_key q.sender_id (fingerprint_of f r Digest Model x q) w.client_keys).0.0
        ≡ true
      → signature_holds f r Digest Model x q ≡ false
      → (e : Refusal) × (later : World f r Digest Model) × (internal_encrypt f r Digest Model x q w
          ≡ (rejected e, later))
        × ((key : TrustedClientKey) × (lookup string_eq q.sender_id later.client_keys ≡ some key)
            × (key.fingerprint ≡ fingerprint_of f r Digest Model x q))
  unfolding internal_encrypt
  key_stored_unsigned q w allowed signed keyed intact known bad =
      let fingerprint = fingerprint_of f r Digest Model x q in
      let (e, refused) = refused-always (noted q w).0 (noted q w).1 in
      let (key, stored, same) =
        answered-stored fingerprint (lookup string_eq q.sender_id w.client_keys)
          (verify_public_key q.sender_id fingerprint w.client_keys).0
          (lookup string_eq q.sender_id (verify_public_key q.sender_id fingerprint w.client_keys).1)
          (verify_public_key-IsAnswer q.sender_id fingerprint w.client_keys) known in
      (
        e,
        (noted q w).1,
        refused_at_once _ (admit_upload f r Digest Model x q) w (noted q w).1 e
            (admit_upload-unsigned q w allowed signed keyed intact known bad ∙ refused),
        (key, ap (lookup string_eq q.sender_id) (noted-keys q w) ∙ stored, same),
      )
