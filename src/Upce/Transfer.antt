-- ===== src/Upce/Transfer.antt =====
-- A whole transfer: `process_upload` and `process_download_stream` of `PFCEEngine`
-- (backend/app/services/pfce_engine.py) with `UniversalPolymorphicCryptoEngine` as their engine.
use reserach.Base.{
  some-ne-none, ℕ, ◌≤◌, ◌≡◌, refl, sym, ap, true, false, String, Option, none, some, List, All,
  str_eq, Bool-cases, Option-cases, some_inj, inl, inr,
}
use reserach.Malware.{Bytes}
use reserach.Prekeys.{EcdhPrekey, Session, claim_prekey, get_and_delete_prekey}
use reserach.Pfce.{Signature, Primitives, IsCorrect}
use reserach.Pfce.Fragments.{join_chunks}
use reserach.Pfce.Upload.{initialize_security, KeyEngine, Order, kek_of, package_of, process_upload}
use reserach.Pfce.Download.{
  is_given, ok, Verifier, check_signature, recover_kek, process_download_stream,
}
use reserach.Pfce.RoundTrip.{download-upload}
use reserach.Mlkem.{MasterKeySetting, Kem, PqcKey, KeyDraw}
use reserach.Mlkem.Histories.{IsValid}
use reserach.Mlkem.Pairs.{IsPaired, generate_all}
use reserach.Upce.{
  Libraries, HybridMetadata, Draws, initialize_transfer_security, recover_transfer_security, upce,
}
use reserach.Upce.Recovery.{IsLawful, recover-initialize}

-- The claimed prekey: its texts belong together, and the download finds it.
pub record IsClaimed {Digest Private Public : Type 0} (p : Primitives Digest)
    (l : Libraries Digest Private Public) (prekey : Private) (row : EcdhPrekey) : Type 0 where
  pub loads : l.load_pem_private_key row.private_key_pem ≡ some prekey
  pub loads_public : l.load_pem_public_key row.public_key_pem ≡ some (l.public_key prekey)
  pub derives : p.public_key_pem row.private_key_pem ≡ some row.public_key_pem
  pub given : is_given row.private_key_pem ≡ true
  pub given_public : is_given row.public_key_pem ≡ true

module _ {Digest Private Public : Type 0} (p : Primitives Digest)
    (l : Libraries Digest Private Public) (kem : Kem) (setting : MasterKeySetting)
    (correct : IsCorrect p) (lawful : IsLawful l kem) (o : Order p) (transfer_id : String)
    (prekey : Private) (row : EcdhPrekey) (claimed : IsClaimed p l prekey row) (keys : List PqcKey)
    (valid : IsValid keys) (paired : IsPaired p kem setting keys) (events : List (String × KeyDraw))
    (others : All (λ e. str_eq e.0 o.receiver_id ≡ false) events) where
  recover_kek-initialize :
      (d d' : Draws Private) (signature : Option (Signature Digest)) (stream : Bytes)
      → let (secured, initialized) =
          initialize_transfer_security p l kem setting d o.sender_id o.receiver_id
            (some row.public_key_pem)
            transfer_id
            keys in
        recover_kek p
          (some (upce p l kem setting d'))
          o.receiver_id
          transfer_id
          (package_of p o secured signature stream).pfce_package.metadata
          (some row.private_key_pem)
          (generate_all p kem setting events initialized)
        ≡ ok (kek_of secured)
  unfolding recover_kek package_of upce recover_transfer_security
  recover_kek-initialize d d' signature stream =
      let started =
        initialize_transfer_security p l kem setting d o.sender_id o.receiver_id
          (some row.public_key_pem) transfer_id keys in
      elim (Option-cases started.0) [
        | inl nothing ↦ rw (recover_kek, package_of, nothing) refl
        | inr ((kek, h), secured) ↦
            let recovered =
              recover-initialize p l kem setting lawful o.sender_id o.receiver_id transfer_id
                row.private_key_pem row.public_key_pem prekey claimed.loads claimed.loads_public
                claimed.given claimed.given_public correct d keys kek h events valid paired others
                secured in
            elim (Bool-cases h.enabled) [
              | inl on ↦
                  rw
                    (
                      recover_kek, package_of, upce, secured, on, claimed.given, claimed.derives,
                      recovered,
                    )
                    refl
              | inr off ↦
                  let refused = rw (recover_transfer_security, off) at recovered in
                  absurd (some-ne-none (sym (some_inj refused)))
            ]
      ]

  process_upload-claimed :
      (session : Session) (engine : Option (KeyEngine HybridMetadata (List PqcKey)))
      (signature : Option (Signature Digest)) (stream : Bytes) (prekeys later : List EcdhPrekey)
      → claim_prekey session o.receiver_id transfer_id prekeys ≡ (some row, later)
      → let secured = initialize_security p engine o transfer_id (some row) keys in
        process_upload p false session engine o transfer_id signature stream (prekeys, keys)
        ≡ (some (package_of p o secured.0 signature stream), (later, secured.1))
  unfolding process_upload
  process_upload-claimed session engine signature stream prekeys later claim =
      ap
        (λ (c : Option EcdhPrekey × List EcdhPrekey).
          let (hybrid, initialized) = initialize_security p engine o transfer_id c.0 keys in
          (some (package_of p o hybrid signature stream), (c.1, initialized)))
        claim

  -- With the engine, an uploaded file can be downloaded: for any stream, any positive fragment sizes, and
  -- whether or not hybrid keys could be agreed on, if the upload claims a prekey of the receiver that the
  -- download finds again, the signature is accepted, and only other users get new key pairs in between,
  -- then the upload gives a package whose download ends without failure and yields, joined, the stream.
  pub process_download_stream-process_upload :
      (d d' : Draws Private) (session : Session) (v : Verifier)
      (signature : Option (Signature Digest)) (spki : String) (stream : Bytes)
      (prekeys later : List EcdhPrekey)
      → ((k : ℕ) → 1 ≤ (o.draws k).chunk_size)
      → claim_prekey session o.receiver_id transfer_id prekeys ≡ (some row, later)
      → (get_and_delete_prekey o.receiver_id transfer_id later).0 ≡ some row.private_key_pem
      → let secured =
          initialize_transfer_security p l kem setting d o.sender_id o.receiver_id
            (some row.public_key_pem)
            transfer_id
            keys in
        let result = package_of p o secured.0 signature stream in
        check_signature p v result.pfce_package.metadata o.receiver_id spki ≡ ok tt
        → (process_upload p false session
              (some (upce p l kem setting d))
              o
              transfer_id
              signature
              stream
              (prekeys, keys)
            ≡ (some result, (later, secured.1)))
          × (let received =
                (process_download_stream p v
                  (some (upce p l kem setting d'))
                  transfer_id
                  o.receiver_id
                  spki
                  result.pfce_package
                  (generate_all p kem setting events secured.1)
                  later).0 in
              (received.failure ≡ none) × (join_chunks received.yielded ≡ stream))
  unfolding initialize_security upce
  process_download_stream-process_upload d d' session v signature spki stream prekeys later positive
        claim found signed =
      let secured =
        initialize_transfer_security p l kem setting d o.sender_id o.receiver_id
          (some row.public_key_pem) transfer_id keys in
      let held = generate_all p kem setting events secured.1 in
      (
        process_upload-claimed session (some (upce p l kem setting d)) signature stream prekeys
            later claim,
        download-upload p o correct v (some (upce p l kem setting d')) secured.0 signature
            transfer_id spki stream held later positive signed
            (rw found (recover_kek-initialize d d' signature stream)),
      )
