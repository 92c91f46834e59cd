-- ===== src/Pfce/Download.antt =====
-- `process_download_stream` of `PFCEEngine` (backend/app/services/pfce_engine.py): a generator, that
-- yields the fragments' bytes until it ends or raises.
use Prim.Native.String.{◌++◌ as text_append}
use reserach.Base.{
  ℕ, ◌+◌, Bool, true, false, not, String, Option, none, some, List, [], ◌∷◌, leb, str_eq,
  if◌then◌else◌,
}
use reserach.Malware.{Bytes}
use reserach.Prekeys.{EcdhPrekey, get_and_delete_prekey}
use reserach.Pfce.{
  Cipher, aes_gcm, chacha20_poly1305, Signature, FragmentInfo, Metadata, Package, Primitives,
}
use reserach.Pfce.Upload.{KeyEngine}

-- The reasons that `_log_failure` writes, then the exceptions without one: a missing file of the
-- archive, and what `recover_transfer_security`, RSA and the decryption raise.
pub data Failure : Type 0 where
  signature_missing signer_id_missing signer_id_mismatch unsupported_signature_algorithm : Failure
  key_size_too_small key_fingerprint_mismatch signature_invalid : Failure
  ciphertext_hash_mismatch hybrid_unwrap_failed no_key_wrap integrity_check_failed : Failure
  missing_fragment_file recovery_raised rsa_raised decryption_raised : Failure

pub data Checked (A : Type 0) : Type 0 where
  ok : A → Checked A
  refused : Failure → Checked A

-- What the trusted key of a sender gives: its size in bits, the fingerprint of a public key, and the
-- verification of RSA-PSS signatures.
pub record Verifier : Type 0 where
  pub get_public_key_size : String → ℕ
  pub get_spki_fingerprint : String → String
  pub verify_pfce_signature : String → String → String → Bool

-- What the generator yields, and the exception that ends it.
pub record Download : Type 0 where
  pub yielded : List Bytes
  pub failure : Option Failure

-- Python's truth of a text.
abbrev pub is_given : String → Bool
is_given s = not (str_eq s "")

abbrev pub require : Bool → Failure → Checked Unit → Checked Unit
require true failure rest = rest
require false failure rest = refused failure

abbrev pub line : String → String → String → String
line key value rest = text_append key (text_append value (text_append "\n" rest))

-- An entry of the archive.
abbrev pub read_entry : List (String × Bytes) → String → Option Bytes
read_entry [] name = none
read_entry (e ∷ entries) name = if str_eq e.0 name then some e.1 else read_entry entries name

abbrev pub cipher_of : Option String → Cipher
cipher_of none = aes_gcm
cipher_of (some name) = if str_eq name "ChaCha20-Poly1305" then chacha20_poly1305 else aes_gcm

module _ {Digest : Type 0} where
  abbrev pub total_size : List (FragmentInfo Digest) → ℕ
  total_size [] = 0
  total_size (f ∷ fragments) = f.size + total_size fragments

  -- `sorted(…, key=lambda x: x["fragment_id"])`, which is stable.
  unfoldable pub insert_by_id :
      FragmentInfo Digest → List (FragmentInfo Digest) → List (FragmentInfo Digest)
  insert_by_id f [] = f ∷ []
  insert_by_id f (g ∷ rest) =
      let later = insert_by_id f rest in
      if leb f.fragment_id g.fragment_id then f ∷ g ∷ rest else g ∷ later

  unfoldable pub sort_by_id : List (FragmentInfo Digest) → List (FragmentInfo Digest)
  unfolding insert_by_id
  sort_by_id [] = []
  sort_by_id (f ∷ fragments) = insert_by_id f (sort_by_id fragments)

module _ {Digest : Type 0} (p : Primitives Digest) where
  -- The public text that belongs to the private one.
  abbrev pub prekey_pub_pem_str : Option String → Checked (Option String)
  prekey_pub_pem_str none = ok none
  prekey_pub_pem_str (some private_pem) =
      if is_given private_pem
      then elim (p.public_key_pem private_pem) [
        | none ↦ refused recovery_raised
        | some public_pem ↦ ok (some public_pem)
      ]
      else ok none

  module _ {Hybrid Keys : Type 0} where
    -- "Extract Hybrid Transfer-Level KEK using UPCE"
    unfoldable pub recover_kek :
        Option (KeyEngine Hybrid Keys)
        → String
        → String
        → Metadata Digest Hybrid
        → Option String
        → Keys
        → Checked (Option Bytes)
    recover_kek none receiver_id transfer_id metadata private_pem keys = ok none
    recover_kek (some upce) receiver_id transfer_id metadata private_pem keys =
        elim metadata.hybrid [
          | none ↦ ok none
          | some h ↦
              if upce.enabled h
              then elim (prekey_pub_pem_str private_pem) [
                | refused failure ↦ refused failure
                | ok public_pem ↦
                    elim (upce.recover_transfer_security metadata.sender_id receiver_id transfer_id
                      h private_pem public_pem keys) [
                        | none ↦ refused recovery_raised
                        | some kek ↦ ok kek
                      ]
              ]
              else ok none
        ]

  -- "UPCE-TRANSFER-SIGNATURE-V1"; without a size of its own, it takes the sum of the sizes.
  unfoldable pub canonical_payload : Signature Digest → String → List (FragmentInfo Digest) → String
  canonical_payload s receiver_id fragments =
      let sig_file_size : ℕ = elim s.file_size [ none ↦ total_size fragments | some size ↦ size ] in
      text_append "UPCE-TRANSFER-SIGNATURE-V1\n" (
        line "transfer_id=" s.transfer_id (
          line "sender_id=" s.signer_id (
            line "receiver_id=" receiver_id (
              line "file_sha256=" s.original_file_sha256 (
                line "file_size=" (p.str sig_file_size)
                  (line "issued_at=" s.signed_at (text_append "nonce=" s.nonce)))))))

  module _ {Hybrid : Type 0} (v : Verifier) where
    -- The checks before any fragment is read.
    unfoldable pub check_signed :
        Metadata Digest Hybrid → String → String → Signature Digest → Checked Unit
    unfolding canonical_payload
    check_signed metadata receiver_id sender_public_key_spki s =
        require (is_given s.signer_id) signer_id_missing (
          require (str_eq s.signer_id metadata.sender_id) signer_id_mismatch (
            require (str_eq s.algorithm "RSA-PSS-SHA256") unsupported_signature_algorithm (
              require (leb 2048 (v.get_public_key_size s.signer_id)) key_size_too_small (
                require (str_eq s.key_fingerprint (v.get_spki_fingerprint sender_public_key_spki))
                  key_fingerprint_mismatch
                  (require
                    (v.verify_pfce_signature (canonical_payload s receiver_id metadata.fragments)
                      s.signature sender_public_key_spki)
                    signature_invalid (ok tt))))))

    unfoldable pub check_signature : Metadata Digest Hybrid → String → String → Checked Unit
    unfolding check_signed
    check_signature metadata receiver_id sender_public_key_spki = elim metadata.signature [
      | none ↦ refused signature_missing
      | some s ↦ check_signed metadata receiver_id sender_public_key_spki s
    ]

  unfoldable pub unwrap_key_with_rsa : String → Option Bytes → Checked Bytes
  unwrap_key_with_rsa receiver_id none = refused no_key_wrap
  unwrap_key_with_rsa receiver_id (some encrypted_key) =
      elim (p.rsa_decrypt receiver_id encrypted_key) [
        | none ↦ refused rsa_raised
        | some key ↦ ok key
      ]

  unfoldable pub unwrap_hybrid_key : Bytes → Bytes → Bytes → Checked Bytes
  unwrap_hybrid_key kek wrapped nonce = elim (p.decrypt aes_gcm kek nonce wrapped) [
    | none ↦ refused hybrid_unwrap_failed
    | some key ↦ ok key
  ]

  -- With the transfer's key where both parts of the wrapped key are there, else with RSA.
  unfoldable pub unwrap_key : Option Bytes → String → FragmentInfo Digest → Checked Bytes
  unfolding unwrap_key_with_rsa unwrap_hybrid_key
  unwrap_key hybrid_kek receiver_id f =
      let by_rsa = unwrap_key_with_rsa receiver_id f.encrypted_key in
      elim hybrid_kek [
        | none ↦ by_rsa
        | some kek ↦ elim f.hybrid_wrapped_key [
          | none ↦ by_rsa
          | some wrapped ↦ elim f.hybrid_wrap_nonce [
            | none ↦ by_rsa
            | some nonce ↦ unwrap_hybrid_key kek wrapped nonce
          ]
        ]
      ]

  abbrev pub matches : Option Digest → Digest → Bool
  matches none actual = true
  matches (some expected) actual = p.digest_eq.beq actual expected

  unfoldable pub check_hash : FragmentInfo Digest → Option Bytes → Checked Bytes
  check_hash f none = refused decryption_raised
  check_hash f (some chunk) =
      if p.digest_eq.beq (p.sha256 chunk) f.hash then ok chunk else refused integrity_check_failed

  unfoldable pub decrypt_fragment : FragmentInfo Digest → Bytes → Checked Bytes → Checked Bytes
  unfolding check_hash
  decrypt_fragment f encrypted_chunk (refused failure) = refused failure
  decrypt_fragment f encrypted_chunk (ok aes_key) =
      check_hash f (p.decrypt (cipher_of f.cipher_algorithm) aes_key f.nonce encrypted_chunk)

  unfoldable pub open_fragment :
      Option Bytes → String → List (String × Bytes) → FragmentInfo Digest → Checked Bytes
  unfolding unwrap_key decrypt_fragment
  open_fragment hybrid_kek receiver_id entries f = elim (read_entry entries f.filename) [
    | none ↦ refused missing_fragment_file
    | some encrypted_chunk ↦
        if matches f.ciphertext_sha256 (p.sha256 encrypted_chunk)
        then decrypt_fragment f encrypted_chunk (unwrap_key hybrid_kek receiver_id f)
        else refused ciphertext_hash_mismatch
  ]

  -- The loop over the fragments.
  unfoldable pub yield_fragments :
      Option Bytes → String → List (String × Bytes) → List (FragmentInfo Digest) → Download
  unfolding open_fragment
  yield_fragments hybrid_kek receiver_id entries [] = record { yielded = []; failure = none }
  yield_fragments hybrid_kek receiver_id entries (f ∷ fragments) =
      let later = yield_fragments hybrid_kek receiver_id entries fragments in
      elim (open_fragment hybrid_kek receiver_id entries f) [
        | refused failure ↦ record { yielded = []; failure = some failure }
        | ok chunk ↦ record { yielded = chunk ∷ later.yielded; failure = later.failure }
      ]

  module _ {Hybrid : Type 0} where
    unfoldable pub yield_with : String → Package Digest Hybrid → Checked (Option Bytes) → Download
    unfolding yield_fragments sort_by_id
    yield_with receiver_id pkg (refused failure) = record { yielded = []; failure = some failure }
    yield_with receiver_id pkg (ok hybrid_kek) =
        yield_fragments hybrid_kek receiver_id pkg.entries (sort_by_id pkg.metadata.fragments)

    -- What is yielded, and the table of prekeys with the transfer's prekey deleted.
    unfoldable pub process_download_stream :
        {Keys : Type 0}
        → Verifier
        → Option (KeyEngine Hybrid Keys)
        → String
        → String
        → String
        → Package Digest Hybrid
        → Keys
        → List EcdhPrekey
        → Download × List EcdhPrekey
    unfolding check_signature recover_kek yield_with
    process_download_stream v engine transfer_id receiver_id sender_public_key_spki pkg keys table =
        let (prekey_private_pem, later) = get_and_delete_prekey receiver_id transfer_id table in
        elim (check_signature v pkg.metadata receiver_id sender_public_key_spki) [
          | refused failure ↦ (record { yielded = []; failure = some failure }, table)
          | ok _ ↦ (
            yield_with receiver_id pkg
                (recover_kek engine receiver_id transfer_id pkg.metadata prekey_private_pem keys),
            later,
          )
        ]
