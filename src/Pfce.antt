-- ===== src/Pfce.antt =====
-- The package of an encrypted transfer: `PFCEEngine` (backend/app/services/pfce_engine.py) and
-- `encrypt_file_for_receiver`, `unwrap_hybrid_key` and `unwrap_key_with_rsa` of `CryptoService`
-- (backend/app/services/crypto_service.py). Base64 is left out: a text of the metadata that encodes
-- bytes is these bytes. The audit events are the reasons of the failures.
pub mod Fragments
pub mod Upload
pub mod Download
pub mod Parts
pub mod Integrity
pub mod RoundTrip
pub mod Truncation
pub mod Rounds
pub mod Tests
use reserach.Base.{ℕ, ◌≡◌, Bool, String, Option, none, some, List, Eq, str_eq, if◌then◌else◌}
use reserach.Malware.{Bytes}

pub data Cipher : Type 0 where
  aes_gcm chacha20_poly1305 : Cipher

abbrev pub cipher_name : Cipher → String
cipher_name aes_gcm = "AES-256-GCM"
cipher_name chacha20_poly1305 = "ChaCha20-Poly1305"

-- What is read of `metadata["signature"]`; a text is "" and the size none where the key is missing.
pub record Signature (Digest : Type 0) : Type 0 where
  pub signer_id : String
  pub algorithm : String
  pub key_fingerprint : String
  pub transfer_id : String
  pub file_size : Option ℕ
  pub signed_at : String
  pub nonce : String
  pub original_file_sha256 : String
  pub signature : String

-- An element of `metadata["fragments"]`; an option is none where the key is missing or empty.
pub record FragmentInfo (Digest : Type 0) : Type 0 where
  pub fragment_id : ℕ
  pub filename : String
  pub encrypted_key : Option Bytes
  pub nonce : Bytes
  pub cipher_algorithm : Option String
  pub hybrid_wrapped_key : Option Bytes
  pub hybrid_wrap_nonce : Option Bytes
  pub hash : Digest
  pub ciphertext_sha256 : Option Digest
  pub size : ℕ

-- The metadata, where `Hybrid` is what the key-management engine adds to it.
pub record Metadata (Digest Hybrid : Type 0) : Type 0 where
  pub sender_id : String
  pub receiver_id : String
  pub hybrid : Option Hybrid
  pub fragments : List (FragmentInfo Digest)
  pub signature : Option (Signature Digest)

-- The `.pfce` file: the metadata and the entries of the archive.
pub record Package (Digest Hybrid : Type 0) : Type 0 where
  pub metadata : Metadata Digest Hybrid
  pub entries : List (String × Bytes)

-- The cryptographic library: SHA-256, authenticated encryption under a key and a nonce, RSA-OAEP with the
-- key pair of a user, and formatted texts; decryption gives none where it raises.
pub record Primitives (Digest : Type 0) : Type 0 where
  pub digest_eq : Eq Digest
  pub sha256 : Bytes → Digest
  pub encrypt : Cipher → Bytes → Bytes → Bytes → Bytes
  pub decrypt : Cipher → Bytes → Bytes → Bytes → Option Bytes
  pub rsa_encrypt : String → Bytes → Bytes → Bytes
  pub rsa_decrypt : String → Bytes → Option Bytes
  -- `f"{stored_name_prefix}_frag_{fragment_id}.enc"`
  pub fragment_name : String → ℕ → String
  pub str : ℕ → String
  -- the PEM text of the public key of a private one, none where loading it raises
  pub public_key_pem : String → Option String

-- Their documented behaviour.
pub record IsCorrect {Digest : Type 0} (p : Primitives Digest) : Type 0 where
  pub decrypt-encrypt :
      (c : Cipher) (key nonce m : Bytes) → p.decrypt c key nonce (p.encrypt c key nonce m) ≡ some m
  pub rsa_decrypt-encrypt :
      (user : String) (seed m : Bytes) → p.rsa_decrypt user (p.rsa_encrypt user seed m) ≡ some m
  pub fragment_name_inj :
      (prefix : String) (m n : ℕ) → p.fragment_name prefix m ≡ p.fragment_name prefix n → m ≡ n

-- What a round of the upload loop draws.
pub record Draw : Type 0 where
  pub chunk_size : ℕ
  pub aes_key : Bytes
  pub file_nonce : Bytes
  -- whether `random.choice` takes AES-256-GCM
  pub picks_aes : Bool
  pub oaep_seed : Bytes
  pub hybrid_wrap_nonce : Bytes
