-- ===== src/Transfer/Admission.antt =====
-- `internal_encrypt` (backend/app/routes/internal_engine_routes.py) up to the verification of the client's
-- signature.
use Prim.Native.String.{◌++◌ as text_append}
use reserach.Base.{
  ℕ, Bool, not, ◌||◌, String, Option, none, some, List, [], ◌∷◌, length, one_of, str_eq, ◌==◌,
  if◌then◌else◌,
}
use reserach.Base.Float.{Float}
use reserach.Privacy.Features.{Real}
use reserach.Mitm.{verify_public_key}
use reserach.Pfce.Download.{is_given, line}
use reserach.Transfer.{
  Upload, extension_blocked, signature_required, hash_mismatch, key_substituted, signature_invalid,
  transfer_blocked, integrity_failure, public_key_substitution_attempt,
  signature_verification_failed, suffix, Action, refuse, ◌>>◌, when, World, Outside, audit,
}

abbrev pub critical_extensions : List String
critical_extensions = ".exe" ∷ ".bat" ∷ ".sh" ∷ []

-- `file.size`, or where it is missing or 0 the number of bytes.
abbrev pub size_or : Option ℕ → ℕ → ℕ
size_or none actual_size = actual_size
size_or (some size) actual_size = if size == 0 then actual_size else size

module _ (f : Float) (r : Real f) (Digest Model : Type 0) (x : Outside f r Digest Model) where
  abbrev pub file_size : Upload → ℕ
  file_size q = size_or q.size (length q.bytes)

  abbrev pub actual_hash : Upload → String
  actual_hash q = x.hexdigest (x.primitives.sha256 q.bytes)

  abbrev pub fingerprint_of : Upload → String
  fingerprint_of q = x.get_spki_fingerprint q.sender_public_key_spki

  -- "UPCE-TRANSFER-SIGNATURE-V1"
  unfoldable pub signed_payload : Upload → String
  signed_payload q = text_append "UPCE-TRANSFER-SIGNATURE-V1\n" (
      line "transfer_id=" q.transfer_id (
        line "sender_id=" q.sender_id (
          line "receiver_id=" q.receiver_id (
            line "file_sha256=" q.original_file_sha256 (
              line "file_size=" (x.primitives.str (file_size q))
                (line "issued_at=" q.issued_at (text_append "nonce=" q.client_nonce)))))))

  -- "1. Hard Block for Critical Extensions"
  unfoldable pub check_extension : Upload → Action (World f r Digest Model) Unit
  unfolding audit suffix
  check_extension q =
      let ext = suffix q.safe_name in
      when (one_of ext critical_extensions)
        (audit f r Digest Model x (transfer_blocked ext) >> refuse extension_blocked)

  unfoldable pub check_given : Upload → Action (World f r Digest Model) Unit
  check_given q =
      when (not (is_given q.client_signature) || not (is_given q.sender_public_key_spki))
        (refuse signature_required)

  unfoldable pub check_file_hash : Upload → Action (World f r Digest Model) Unit
  unfolding audit
  check_file_hash q =
      when (not (str_eq (actual_hash q) q.original_file_sha256))
        (audit f r Digest Model x (integrity_failure (actual_hash q)) >> refuse hash_mismatch)

  -- The trusted key of the sender, which the check may replace.
  unfoldable pub check_key : Upload → Action (World f r Digest Model) Unit
  unfolding audit verify_public_key
  check_key q w =
      let ((is_trusted, expected), keys) =
        verify_public_key q.sender_id (fingerprint_of q) w.client_keys in
      when (not is_trusted)
        (audit f r Digest Model x (public_key_substitution_attempt expected (fingerprint_of q))
          >> refuse key_substituted)
        (record w { client_keys = keys })

  abbrev pub signature_holds : Upload → Bool
  signature_holds q =
      x.verify_client_signature (signed_payload q) q.client_signature q.sender_public_key_spki

  unfoldable pub check_client_signature : Upload → Action (World f r Digest Model) Unit
  unfolding audit signed_payload
  check_client_signature q = when (not (signature_holds q)) (
      audit f r Digest Model x (signature_verification_failed (fingerprint_of q))
      >> refuse signature_invalid)

  unfoldable pub admit_upload : Upload → Action (World f r Digest Model) Unit
  unfolding check_extension check_given check_file_hash check_key check_client_signature
  admit_upload q = do
    check_extension q
    check_given q
    check_file_hash q
    check_key q
    check_client_signature q
