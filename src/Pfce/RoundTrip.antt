-- ===== src/Pfce/RoundTrip.antt =====
-- What the receiver downloads is what the sender uploaded.
use mathlib.Core.Path.{subst⁻¹}
use reserach.Base.{
  ℕ, zero, suc, ◌≤◌, ◌+◌, ◌≡◌, refl, ap, ◌∙◌, String, Option, none, some, List, [], ◌∷◌, map,
  length, All, All-and, beq_refl, arith, Bool-cases, inl, inr,
}
use reserach.Malware.{Bytes}
use reserach.Prekeys.{EcdhPrekey, get_and_delete_prekey}
use reserach.Pfce.{
  Cipher, aes_gcm, chacha20_poly1305, cipher_name, Signature, Primitives, IsCorrect,
}
use reserach.Pfce.Fragments.{is_empty, join_chunks, read_fragment}
use reserach.Pfce.Upload.{
  KeyEngine, select_cipher, encrypt_file_for_receiver, Part, Order, make_part, upload_rounds, entry,
  upload_parts, kek_of, package_of,
}
use reserach.Pfce.Download.{
  ok, Verifier, check_signature, sort_by_id, unwrap_key, unwrap_key_with_rsa, unwrap_hybrid_key,
  cipher_of, check_hash, decrypt_fragment, open_fragment, yield_fragments, recover_kek, yield_with,
  process_download_stream,
}
use reserach.Pfce.Integrity.{yield_fragments-step}
use reserach.Pfce.Parts.{
  chunk_of, info_of, HasEntry, upload_rounds-join_chunks, upload_rounds-HasEntry,
  upload_rounds-sorted,
}

cipher_of-cipher_name : (c : Cipher) → cipher_of (some (cipher_name c)) ≡ c
cipher_of-cipher_name aes_gcm = refl
cipher_of-cipher_name chacha20_poly1305 = refl

module _ {Digest : Type 0} (p : Primitives Digest) (o : Order p) where
  make_part-unwraps :
      (correct : IsCorrect p) (hybrid_kek : Option Bytes) (n : ℕ) (chunk : Bytes)
      → unwrap_key p hybrid_kek o.receiver_id (make_part p o hybrid_kek n chunk).info
        ≡ ok (o.draws n).aes_key
  unfolding make_part encrypt_file_for_receiver unwrap_key unwrap_key_with_rsa unwrap_hybrid_key
  make_part-unwraps correct none n chunk =
      rw (correct.rsa_decrypt-encrypt o.receiver_id (o.draws n).oaep_seed (o.draws n).aes_key) refl
  make_part-unwraps correct (some kek) n chunk =
      rw
        (
          unwrap_key,
          unwrap_hybrid_key,
          make_part,
          encrypt_file_for_receiver,
          correct.decrypt-encrypt aes_gcm kek (o.draws n).hybrid_wrap_nonce (o.draws n).aes_key,
        )
        refl

  make_part-decrypts :
      (correct : IsCorrect p) (hybrid_kek : Option Bytes) (n : ℕ) (chunk : Bytes)
      → decrypt_fragment p
          (make_part p o hybrid_kek n chunk).info
          (make_part p o hybrid_kek n chunk).file
          (ok (o.draws n).aes_key)
        ≡ ok chunk
  unfolding make_part encrypt_file_for_receiver decrypt_fragment check_hash
  make_part-decrypts correct hybrid_kek n chunk =
      let c = select_cipher o.classification (o.draws n) in
      rw (cipher_of-cipher_name c) (
        rw (correct.decrypt-encrypt c (o.draws n).aes_key (o.draws n).file_nonce chunk)
          (rw (beq_refl p.digest_eq (p.sha256 chunk)) refl))

  make_part-chunk :
      (hybrid_kek : Option Bytes) (n : ℕ) (chunk : Bytes)
      → (make_part p o hybrid_kek n chunk).chunk ≡ chunk
  unfolding make_part
  make_part-chunk hybrid_kek n chunk = refl

  make_part-opens :
      (correct : IsCorrect p) (hybrid_kek : Option Bytes) (entries : List (String × Bytes)) (n : ℕ)
      (chunk : Bytes)
      → HasEntry p o hybrid_kek entries (make_part p o hybrid_kek n chunk)
      → open_fragment p hybrid_kek o.receiver_id entries (make_part p o hybrid_kek n chunk).info
        ≡ ok chunk
  unfolding open_fragment make_part
  make_part-opens correct hybrid_kek entries n chunk here =
      let part = make_part p o hybrid_kek n chunk in
      rw
        (
          open_fragment,
          here,
          beq_refl p.digest_eq (p.sha256 part.file),
          make_part-unwraps correct hybrid_kek n chunk,
        )
        (make_part-decrypts correct hybrid_kek n chunk)

  -- A part that is opened gives its bytes.
  abbrev pub IsOpened : Option Bytes → List (String × Bytes) → Part p → Type 0
  IsOpened hybrid_kek entries part =
      open_fragment p hybrid_kek o.receiver_id entries part.info ≡ ok part.chunk

  pub upload_rounds-opens :
      (correct : IsCorrect p) (hybrid_kek : Option Bytes) (entries : List (String × Bytes))
      (rounds n : ℕ) (stream : Bytes)
      → All
          (λ part. HasEntry p o hybrid_kek entries part → IsOpened hybrid_kek entries part)
          (upload_rounds p o hybrid_kek rounds n stream)
  unfolding upload_rounds
  upload_rounds-opens correct hybrid_kek entries zero n stream = tt
  upload_rounds-opens correct hybrid_kek entries (suc rounds) n stream =
      let read = read_fragment (o.draws n).chunk_size stream in
      elim (Bool-cases (is_empty read.0)) [
        | inl nothing ↦ rw nothing tt
        | inr more ↦ rw more (
          λ here.
              subst⁻¹
                (λ c.
                  open_fragment p hybrid_kek o.receiver_id entries
                    (make_part p o hybrid_kek n read.0).info
                  ≡ ok c)
                (make_part-chunk hybrid_kek n read.0)
                (make_part-opens correct hybrid_kek entries n read.0 here),
          upload_rounds-opens correct hybrid_kek entries rounds (n + 1) read.1,
        )
      ]

  pub yield_fragments-opened :
      (hybrid_kek : Option Bytes) (entries : List (String × Bytes)) (parts : List (Part p))
      → All (IsOpened hybrid_kek entries) parts
      → yield_fragments p hybrid_kek o.receiver_id entries (map (info_of p o) parts)
        ≡ record { yielded = map (chunk_of p o) parts; failure = none }
  unfolding yield_fragments
  yield_fragments-opened hybrid_kek entries [] h = refl
  yield_fragments-opened hybrid_kek entries (part ∷ parts) h =
      yield_fragments-step p hybrid_kek o.receiver_id entries part.info (map (info_of p o) parts)
        part.chunk h.0
      ∙ ap (λ d. record { yielded = part.chunk ∷ d.yielded; failure = d.failure })
          (yield_fragments-opened hybrid_kek entries parts h.1)

  -- What is packed for an upload, opened with the same transfer key.
  yield_fragments-upload :
      (correct : IsCorrect p) (hybrid_kek : Option Bytes) (stream : Bytes)
      → ((k : ℕ) → 1 ≤ (o.draws k).chunk_size)
      → let parts = upload_parts p o hybrid_kek stream in
        let d =
          yield_fragments p hybrid_kek o.receiver_id
            (map (entry p) parts)
            (sort_by_id (map (info_of p o) parts)) in
        (d.failure ≡ none) × (join_chunks d.yielded ≡ stream)
  unfolding upload_parts
  yield_fragments-upload correct hybrid_kek stream positive =
      let rounds = suc (length stream) in
      let parts = upload_rounds p o hybrid_kek rounds 0 stream in
      let entries = map (entry p) parts in
      let opened = yield_fragments-opened hybrid_kek entries parts (
        All-and _ (HasEntry p o hybrid_kek entries) (IsOpened hybrid_kek entries) parts
          (λ part opens here. opens here)
          (upload_rounds-opens correct hybrid_kek entries rounds 0 stream)
          (upload_rounds-HasEntry p o hybrid_kek correct rounds 0 stream)) in
      rw (upload_rounds-sorted p o hybrid_kek rounds 0 stream) (
        rw opened
          (refl, upload_rounds-join_chunks p o hybrid_kek rounds 0 stream positive (omega arith)))

  module _ {Hybrid Keys : Type 0} where
    -- For any stream, any positive fragment sizes and any choice of ciphers: if the signature is accepted
    -- and the transfer key is recovered, the download of an uploaded package ends without failure, and
    -- what it yields, joined, is the stream.
    pub download-upload :
        (correct : IsCorrect p) (v : Verifier) (engine : Option (KeyEngine Hybrid Keys))
        (hybrid : Option (Bytes × Hybrid)) (signature : Option (Signature Digest))
        (transfer_id spki : String) (stream : Bytes) (keys : Keys) (table : List EcdhPrekey)
        → ((k : ℕ) → 1 ≤ (o.draws k).chunk_size)
        → let pkg = (package_of p o hybrid signature stream).pfce_package in
          check_signature p v pkg.metadata o.receiver_id spki ≡ ok tt
          → recover_kek p engine o.receiver_id transfer_id pkg.metadata
              (get_and_delete_prekey o.receiver_id transfer_id table).0
              keys
            ≡ ok (kek_of hybrid)
          → let d =
              (process_download_stream p v engine transfer_id o.receiver_id spki pkg keys
                table).0 in
            (d.failure ≡ none) × (join_chunks d.yielded ≡ stream)
    unfolding process_download_stream yield_with package_of
    download-upload correct v engine hybrid signature transfer_id spki stream keys table positive
          signed recovered =
        rw (process_download_stream, signed, recovered)
          (yield_fragments-upload correct (kek_of hybrid) stream positive)
