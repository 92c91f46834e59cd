-- ===== src/Upce.antt =====
-- `UniversalPolymorphicCryptoEngine` (backend/app/services/upce_quantum_service.py): the key of a transfer,
-- agreed on by ECDH with a one-time prekey of the receiver and by ML-KEM with his active key pair. Base64
-- is left out, as in Mlkem; elliptic curves, HKDF and JSON are parameters. The wiping of intermediate
-- secrets is not modelled here, and the printed lines are left out.
pub mod Policy
pub mod Framing
pub mod Recovery
pub mod Transfer
mod Tests
use reserach.Base.{
  ℕ, ◌+◌, ◌*◌, ◌/◌, ◌%◌, Bool, true, false, ◌&&◌, ◌||◌, not, String, Option, none, some, List, [],
  ◌∷◌, ◌++◌, ◌==◌, length, str_eq, if◌then◌else◌,
}
use reserach.Malware.{Bytes}
use reserach.Pfce.{Primitives}
use reserach.Pfce.Upload.{KeyEngine}
use reserach.Pfce.Download.{is_given}
use reserach.Mlkem.{
  Result, returned, raised, Error, MasterKeySetting, Kem, PqcKey, KeyDraw, PublicKeyInfo,
  get_active_public_key, generate_keypair, encapsulate, decapsulate,
}

-- The libraries: ECDH on P-256 over PEM texts, `json.dumps` with sorted keys, HKDF-SHA256 for 32 bytes from
-- a salt, an info and the key material, texts as UTF-8, and digests as hexadecimal texts or as bytes.
pub record Libraries (Digest Private Public : Type 0) : Type 0 where
  pub load_pem_private_key : String → Option Private
  pub load_pem_public_key : String → Option Public
  pub public_key : Private → Public
  pub public_bytes : Public → String
  pub exchange : Private → Public → Option Bytes
  pub utf8 : String → Bytes
  pub hexdigest : Digest → String
  pub digest : Digest → Bytes
  pub json_dumps : List (String × String) → Bytes
  pub hkdf : Option Bytes → Option Bytes → Bytes → Bytes

-- The metadata that goes into the package; without hybrid keys it is `{"enabled": False}`.
pub record HybridMetadata : Type 0 where
  pub enabled : Bool
  pub mode : String
  pub classical_algorithm : String
  pub pq_algorithm : String
  pub kdf : String
  pub version : ℕ
  pub receiver_key_version : ℕ
  pub kem_ciphertext : Bytes
  pub ecdh_ephemeral_public : String

-- `struct.pack(">I", n)`: four bytes, for n below 2 ^ 32; longer secrets do not occur.
abbrev pub pack_u32 : ℕ → Bytes
pack_u32 n = ((n / 16_777_216) % 256) ∷ ((n / 65_536) % 256) ∷ ((n / 256) % 256) ∷ (n % 256) ∷ []

-- "Use length-prefixed encoding to prevent ambiguous boundary collisions"
unfoldable pub input_key_material : Bytes → Bytes → Bytes
input_key_material ecdh_secret mlkem_secret =
    (pack_u32 (length ecdh_secret) ++ ecdh_secret)
    ++ (pack_u32 (length mlkem_secret) ++ mlkem_secret)

-- What `initialize_transfer_security` draws: for a missing key pair, the encapsulation and the ephemeral
-- private key.
pub record Draws (Private : Type 0) : Type 0 where
  pub key_draw : KeyDraw
  pub coins : Bytes
  pub ephemeral_private : Private

module _ {Digest Private Public : Type 0} (p : Primitives Digest)
    (l : Libraries Digest Private Public) where
  unfoldable pub generate_canonical_transcript :
      String → String → String → Bytes → Bytes → Bytes → Bytes → Bytes
  generate_canonical_transcript transfer_id sender_id receiver_id ecdh_ephemeral_pub
        ecdh_receiver_pub mlkem_ciphertext mlkem_pub =
      let hash : Bytes → String = λ bytes. l.hexdigest (p.sha256 bytes) in
      l.digest (
        p.sha256 (
          l.json_dumps (
            ("protocol_version", "UPCE-PFCE-HYBRID-KEX-V1")
            ∷ ("transfer_id", transfer_id)
            ∷ ("sender_id", sender_id)
            ∷ ("receiver_id", receiver_id)
            ∷ ("classical_algorithm", "ECDH-P256")
            ∷ ("pq_algorithm", "ML-KEM-768")
            ∷ ("kdf_algorithm", "HKDF-SHA256")
            ∷ ("ecdh_ephemeral_pub_sha256", hash ecdh_ephemeral_pub)
            ∷ ("ecdh_receiver_pub_sha256", hash ecdh_receiver_pub)
            ∷ ("mlkem_ciphertext_sha256", hash mlkem_ciphertext)
            ∷ ("mlkem_pub_sha256", hash mlkem_pub)
            ∷ [])))

  unfoldable pub derive_hybrid_kek : Bytes → Bytes → Bytes → Bytes
  unfolding input_key_material
  derive_hybrid_kek ecdh_secret mlkem_secret transcript_hash =
      let prk =
        l.hkdf (some (l.utf8 "UPCE-PFCE-HYBRID-SALT-V1")) none
          (input_key_material ecdh_secret mlkem_secret) in
      l.hkdf none (some (l.utf8 "UPCE-PFCE/KEK" ++ transcript_hash)) prk

  module _ (kem : Kem) (setting : MasterKeySetting) where
    -- With a key pair generated where the receiver has none.
    unfoldable pub receiver_pqc_info :
        KeyDraw → String → List PqcKey → Result PublicKeyInfo × List PqcKey
    unfolding get_active_public_key generate_keypair
    receiver_pqc_info d receiver_id keys = elim (get_active_public_key receiver_id keys) [
      | returned info ↦ (returned info, keys)
      | raised e ↦
          let (generated, later) = generate_keypair p kem setting receiver_id d keys in
          elim generated [
            | raised e' ↦ (raised e', later)
            | returned _ ↦ (get_active_public_key receiver_id later, later)
          ]
    ]

    -- The key of the transfer and the metadata, from the two secrets.
    abbrev pub hybrid_keys :
        Draws Private
        → String
        → String
        → String
        → String
        → PublicKeyInfo
        → Bytes × Bytes
        → Bytes
        → Bytes × HybridMetadata
    hybrid_keys d sender_id receiver_id prekey_public_pem transfer_id info
          (kem_ciphertext, mlkem_secret) ecdh_secret =
        let ephemeral_public_pem = l.public_bytes (l.public_key d.ephemeral_private) in
        (
          derive_hybrid_kek ecdh_secret mlkem_secret (
              generate_canonical_transcript transfer_id sender_id receiver_id
                (l.utf8 ephemeral_public_pem) (l.utf8 prekey_public_pem) kem_ciphertext
                info.public_key),
          record {
            enabled = true;
            mode = "HYBRID";
            classical_algorithm = "ECDH-P256";
            pq_algorithm = "ML-KEM-768";
            kdf = "HKDF-SHA256";
            version = 1;
            receiver_key_version = info.key_version;
            kem_ciphertext = kem_ciphertext;
            ecdh_ephemeral_public = ephemeral_public_pem;
          },
        )

    abbrev pub or_fail : {A B : Type 0} → Option A → (A → Option B) → Option B
    or_fail none f = none
    or_fail (some a) f = f a

    abbrev pub or_wrap : {A B : Type 0} → Result A → (A → Option B) → Option B
    or_wrap (raised e) f = none
    or_wrap (returned a) f = f a

    -- The rest of the `try`; none where a library raises.
    unfoldable pub establish :
        Draws Private
        → String
        → String
        → String
        → String
        → PublicKeyInfo
        → Option (Bytes × HybridMetadata)
    unfolding encapsulate generate_canonical_transcript derive_hybrid_kek
    establish d sender_id receiver_id prekey_public_pem transfer_id info =
        or_wrap (encapsulate p kem setting d.coins info.public_key) (λ encapsulated.
          or_fail (l.load_pem_public_key prekey_public_pem) (λ receiver_ecdh_public.
            or_fail (l.exchange d.ephemeral_private receiver_ecdh_public) (λ ecdh_secret. some (
              hybrid_keys d sender_id receiver_id prekey_public_pem transfer_id info encapsulated
                ecdh_secret))))

    abbrev pub establish_with :
        Draws Private
        → String
        → String
        → String
        → String
        → Result PublicKeyInfo
        → Option (Bytes × HybridMetadata)
    establish_with d sender_id receiver_id prekey_public_pem transfer_id (raised e) = none
    establish_with d sender_id receiver_id prekey_public_pem transfer_id (returned info) =
        establish d sender_id receiver_id prekey_public_pem transfer_id info

    -- Any exception leaves the transfer without hybrid keys, but a key pair that was generated stays.
    unfoldable pub initialize_transfer_security :
        Draws Private
        → String
        → String
        → Option String
        → String
        → List PqcKey
        → Option (Bytes × HybridMetadata) × List PqcKey
    unfolding receiver_pqc_info establish
    initialize_transfer_security d sender_id receiver_id none transfer_id keys = (none, keys)
    initialize_transfer_security d sender_id receiver_id (some prekey_public_pem) transfer_id keys =
        let (info, later) = receiver_pqc_info d.key_draw receiver_id keys in
        if is_given prekey_public_pem
        then (establish_with d sender_id receiver_id prekey_public_pem transfer_id info, later)
        else (none, keys)

    -- The `try`, which wraps every exception into `KEY_ESTABLISHMENT_POLICY_MISMATCH`.
    unfoldable pub recover_key :
        String → String → String → HybridMetadata → String → String → List PqcKey → Option Bytes
    unfolding decapsulate get_active_public_key generate_canonical_transcript derive_hybrid_kek
    recover_key sender_id receiver_id transfer_id metadata private_pem public_pem keys =
        or_wrap
          (decapsulate p kem setting metadata.kem_ciphertext receiver_id
            metadata.receiver_key_version keys)
          (λ mlkem_secret. or_wrap (get_active_public_key receiver_id keys) (λ info.
            or_fail (l.load_pem_private_key private_pem) (λ receiver_private.
              or_fail (l.load_pem_public_key metadata.ecdh_ephemeral_public)
                (λ sender_ephemeral_public.
                  or_fail (l.exchange receiver_private sender_ephemeral_public) (λ ecdh_secret.
                    some (
                      derive_hybrid_kek ecdh_secret mlkem_secret (
                        generate_canonical_transcript transfer_id sender_id receiver_id
                          (l.utf8 metadata.ecdh_ephemeral_public) (l.utf8 public_pem)
                          metadata.kem_ciphertext info.public_key)))))))

    -- None where it raises, also where the prekey is missing.
    unfoldable pub recover_transfer_security :
        String
        → String
        → String
        → HybridMetadata
        → Option String
        → Option String
        → List PqcKey
        → Option (Option Bytes)
    unfolding recover_key
    recover_transfer_security sender_id receiver_id transfer_id metadata private_pem public_pem
          keys =
        if metadata.enabled && str_eq metadata.mode "HYBRID"
        then or_fail private_pem (λ private_text. or_fail public_pem (λ public_text.
          if is_given private_text && is_given public_text
          then or_fail
              (recover_key sender_id receiver_id transfer_id metadata private_text public_text keys)
              (λ kek. some (some kek))
          else none))
        else some none

    -- What the packages take of the engine.
    unfoldable pub upce : Draws Private → KeyEngine HybridMetadata (List PqcKey)
    unfolding initialize_transfer_security recover_transfer_security
    upce d = record {
      initialize_transfer_security = initialize_transfer_security d;
      enabled = λ metadata. metadata.enabled;
      recover_transfer_security = recover_transfer_security;
    }
