-- ===== src/Pfce/Upload.antt =====
-- `encrypt_file_for_receiver` of `CryptoService` (backend/app/services/crypto_service.py) and
-- `process_upload` of `PFCEEngine` (backend/app/services/pfce_engine.py). The monitor's calls in the loop
-- are in Monitor; times, progress and the best-effort audit event at the end are left out.
use reserach.Base.{
  ℕ, zero, suc, ◌+◌, Bool, String, Option, none, some, List, [], ◌∷◌, map, length, lower,
  contains_any, if◌then◌else◌,
}
use reserach.Malware.{Bytes}
use reserach.Prekeys.{EcdhPrekey, Session, claim_prekey}
use reserach.Pfce.{
  Cipher, aes_gcm, chacha20_poly1305, cipher_name, Signature, FragmentInfo, Package, Primitives,
  Draw,
}
use reserach.Pfce.Fragments.{is_empty, join_chunks, read_fragment}

-- The key-management engine, over a table of key pairs: a key for a transfer with the metadata that
-- lets the receiver recover it, or none with the metadata `{"enabled": False}`. Recovering takes both PEM
-- texts of the prekey; the outer option is none where it raises.
pub record KeyEngine (Hybrid Keys : Type 0) : Type 0 where
  pub initialize_transfer_security :
      String → String → Option String → String → Keys → Option (Bytes × Hybrid) × Keys
  pub enabled : Hybrid → Bool
  pub recover_transfer_security :
      String
      → String
      → String
      → Hybrid
      → Option String
      → Option String
      → Keys
      → Option (Option Bytes)

unfoldable pub is_protected : String → Bool
is_protected classification =
    contains_any ("confidential" ∷ "restricted" ∷ "secret" ∷ "sensitive" ∷ [])
      (lower classification)

-- "Polymorphic cipher selection logic"
unfoldable pub select_cipher : String → Draw → Cipher
unfolding is_protected
select_cipher classification d =
    if is_protected classification
    then chacha20_poly1305
    else if d.picks_aes
    then aes_gcm
    else chacha20_poly1305

-- With the content of the file at `encrypted_path`.
pub record EncryptionResult : Type 0 where
  pub encrypted_file : Bytes
  pub encrypted_key : Bytes
  pub nonce : Bytes
  pub cipher_algorithm : String
  pub hybrid_wrapped_key : Option Bytes
  pub hybrid_wrap_nonce : Option Bytes

abbrev pub kek_of : {Hybrid : Type 0} → Option (Bytes × Hybrid) → Option Bytes
kek_of none = none
kek_of (some (kek, h)) = some kek

module _ {Digest : Type 0} (p : Primitives Digest) where
  unfoldable pub encrypt_file_for_receiver :
      Bytes → String → String → Option Bytes → Draw → EncryptionResult
  unfolding select_cipher
  encrypt_file_for_receiver chunk receiver_id classification hybrid_kek d = record {
    encrypted_file = p.encrypt (select_cipher classification d) d.aes_key d.file_nonce chunk;
    encrypted_key = p.rsa_encrypt receiver_id d.oaep_seed d.aes_key;
    nonce = d.file_nonce;
    cipher_algorithm = cipher_name (select_cipher classification d);
    hybrid_wrapped_key = elim hybrid_kek [
      | none ↦ none
      | some kek ↦ some (p.encrypt aes_gcm kek d.hybrid_wrap_nonce d.aes_key)
    ];
    hybrid_wrap_nonce = elim hybrid_kek [ none ↦ none | some kek ↦ some d.hybrid_wrap_nonce ];
  }

  -- A fragment: its bytes, its entry of the metadata and the file that goes into the archive.
  pub record Part : Type 0 where
    pub chunk : Bytes
    pub info : FragmentInfo Digest
    pub file : Bytes

  -- The arguments of `process_upload` that its loop uses, with the draws of each round.
  pub record Order : Type 0 where
    pub sender_id : String
    pub receiver_id : String
    pub stored_name_prefix : String
    pub classification : String
    pub draws : ℕ → Draw

  -- "Metadata Generation"
  unfoldable pub make_part : Order → Option Bytes → ℕ → Bytes → Part
  unfolding encrypt_file_for_receiver
  make_part o hybrid_kek fragment_id chunk =
      let frag_result =
        encrypt_file_for_receiver chunk o.receiver_id o.classification hybrid_kek
          (o.draws fragment_id) in
      record {
        chunk = chunk;
        info = record {
          fragment_id = fragment_id;
          filename = p.fragment_name o.stored_name_prefix fragment_id;
          encrypted_key = some frag_result.encrypted_key;
          nonce = frag_result.nonce;
          cipher_algorithm = some frag_result.cipher_algorithm;
          hybrid_wrapped_key = frag_result.hybrid_wrapped_key;
          hybrid_wrap_nonce = frag_result.hybrid_wrap_nonce;
          hash = p.sha256 chunk;
          ciphertext_sha256 = some (p.sha256 frag_result.encrypted_file);
          size = length chunk;
        };
        file = frag_result.encrypted_file;
      }

  -- The rounds that are left, the number of the next fragment and what is left of the stream.
  unfoldable pub upload_rounds : Order → Option Bytes → ℕ → ℕ → Bytes → List Part
  unfolding make_part read_fragment
  upload_rounds o hybrid_kek zero fragment_id stream = []
  upload_rounds o hybrid_kek (suc rounds) fragment_id stream =
      let read = read_fragment (o.draws fragment_id).chunk_size stream in
      let rest = upload_rounds o hybrid_kek rounds (fragment_id + 1) read.1 in
      if is_empty read.0 then [] else make_part o hybrid_kek fragment_id read.0 ∷ rest

  abbrev pub entry : Part → String × Bytes
  entry part = (part.info.filename, part.file)

  pub record PfceUploadResult (Hybrid : Type 0) : Type 0 where
    pub pfce_package : Package Digest Hybrid
    pub fragment_count : ℕ
    pub original_hash : Digest

  -- Every round but the last takes a byte of the stream, so that one more than its bytes are enough.
  unfoldable pub upload_parts : Order → Option Bytes → Bytes → List Part
  unfolding upload_rounds
  upload_parts o hybrid_kek stream = upload_rounds o hybrid_kek (suc (length stream)) 0 stream

  module _ {Hybrid : Type 0} where
    unfoldable pub package_of :
        Order
        → Option (Bytes × Hybrid)
        → Option (Signature Digest)
        → Bytes
        → PfceUploadResult Hybrid
    unfolding upload_parts
    package_of o hybrid signature stream =
        let parts = upload_parts o (kek_of hybrid) stream in
        record {
          pfce_package = record {
            metadata = record {
              sender_id = o.sender_id;
              receiver_id = o.receiver_id;
              hybrid = elim hybrid [ none ↦ none | some (kek, h) ↦ some h ];
              fragments = map (λ part. part.info) parts;
              signature = signature;
            };
            entries = map entry parts;
          };
          fragment_count = length parts;
          original_hash = p.sha256 (join_chunks (map (λ part. part.chunk) parts));
        }

    -- "Hybrid (ECDH + ML-KEM) Transfer-Level Setup using UPCE", with the public key of the claimed row.
    unfoldable pub initialize_security :
        {Keys : Type 0}
        → Option (KeyEngine Hybrid Keys)
        → Order
        → String
        → Option EcdhPrekey
        → Keys
        → Option (Bytes × Hybrid) × Keys
    initialize_security none o transfer_id claimed keys = (none, keys)
    initialize_security (some upce) o transfer_id none keys =
        upce.initialize_transfer_security o.sender_id o.receiver_id none transfer_id keys
    initialize_security (some upce) o transfer_id (some row) keys =
        upce.initialize_transfer_security o.sender_id o.receiver_id (some row.public_key_pem)
          transfer_id keys

    -- None where the trusted environment is required, which raises.
    unfoldable pub process_upload :
        {Keys : Type 0}
        → Bool
        → Session
        → Option (KeyEngine Hybrid Keys)
        → Order
        → String
        → Option (Signature Digest)
        → Bytes
        → List EcdhPrekey × Keys
        → Option (PfceUploadResult Hybrid) × (List EcdhPrekey × Keys)
    unfolding package_of initialize_security
    process_upload requires_tee e engine o transfer_id signature stream (table, keys) =
        if requires_tee
        then (none, (table, keys))
        else let (claimed, later) = claim_prekey e o.receiver_id transfer_id table in
          let (hybrid, initialized) = initialize_security engine o transfer_id claimed keys in
          (some (package_of o hybrid signature stream), (later, initialized))
