-- ===== src/Upce/Recovery.antt =====
-- The receiver recovers the key of a transfer.
use mathlib.Core.Path.{subst}
use reserach.Base.{
  some-ne-none, ◌≡◌, refl, sym, ap, ◌∙◌, true, false, String, some, List, All, str_eq, Option-cases,
  some_inj, inl, inr,
}
use reserach.Malware.{Bytes}
use reserach.Pfce.{Primitives, IsCorrect}
use reserach.Pfce.Download.{is_given}
use reserach.Mlkem.{
  Result-cases, returned, MasterKeySetting, Kem, PqcKey, KeyDraw, PublicKeyInfo,
  get_active_public_key, generate_keypair, encapsulate, decapsulate,
}
use reserach.Mlkem.Histories.{IsValid}
use reserach.Mlkem.Versions.{generate_keypair-IsValid}
use reserach.Mlkem.Pairs.{
  Opens, IsPaired, IsPaired-generate_keypair, generate_all, generate_all-keeps,
}
use reserach.Upce.{
  Libraries, HybridMetadata, Draws, receiver_pqc_info, hybrid_keys, establish, establish_with,
  initialize_transfer_security, recover_key, recover_transfer_security,
}

-- The documented behaviour of the libraries: PEM texts can be loaded again, both sides of an exchange get
-- the same secret, and so do both sides of an encapsulation.
pub record IsLawful {Digest Private Public : Type 0} (l : Libraries Digest Private Public)
    (kem : Kem) : Type 0 where
  pub load-public_bytes : (q : Public) → l.load_pem_public_key (l.public_bytes q) ≡ some q
  pub exchange_comm :
      (a b : Private) → l.exchange a (l.public_key b) ≡ l.exchange b (l.public_key a)
  pub decap-encap :
      (seed coins ciphertext secret : Bytes)
      → kem.encap_secret coins (kem.generate_keypair seed).0 ≡ some (ciphertext, secret)
      → kem.decap_secret (kem.generate_keypair seed).1 ciphertext ≡ some secret

module _ {Digest Private Public : Type 0} (p : Primitives Digest)
    (l : Libraries Digest Private Public) (kem : Kem) (setting : MasterKeySetting) where
  -- The key pair of the receiver that is used is his active one afterwards.
  receiver_pqc_info-lem :
      IsCorrect p
      → (d : KeyDraw) (receiver : String) (keys : List PqcKey) → IsValid keys
      → IsPaired p kem setting keys
      → let (result, later) = receiver_pqc_info p l kem setting d receiver keys in
        IsValid later
        × IsPaired p kem setting later
        × ((info : PublicKeyInfo)
            → result ≡ returned info
            → get_active_public_key receiver later ≡ returned info)
  unfolding receiver_pqc_info
  receiver_pqc_info-lem correct d receiver keys valid paired =
      elim (Result-cases (get_active_public_key receiver keys)) [
        | inl (info, active) ↦
            rw (receiver_pqc_info, active) ((valid, paired, λ info' same. active ∙ same))
        | inr (e, missing) ↦
            let made = generate_keypair p kem setting receiver d keys in
            let kept : IsValid made.1 × IsPaired p kem setting made.1 = (
              (generate_keypair-IsValid p kem setting receiver d keys valid).0,
              IsPaired-generate_keypair p kem setting correct receiver d keys valid paired,
            ) in
            elim (Result-cases made.0) [
              | inl (_, done) ↦
                  rw (receiver_pqc_info, missing, done) ((kept.0, kept.1, λ info h. h))
              | inr (e', failed) ↦
                  rw (receiver_pqc_info, missing, failed) ((kept.0, kept.1, λ info h. absurd (cc)))
            ]
      ]

  module _ (lawful : IsLawful l kem) (sender receiver transfer_id private_pem public_pem : String)
      (prekey : Private) (loads : l.load_pem_private_key private_pem ≡ some prekey)
      (loads_public : l.load_pem_public_key public_pem ≡ some (l.public_key prekey))
      (given : is_given private_pem ≡ true) (given_public : is_given public_pem ≡ true) where
    recover-establish :
        (d : Draws Private) (info : PublicKeyInfo) (keys : List PqcKey) (kek : Bytes)
        (h : HybridMetadata)
        → get_active_public_key receiver keys ≡ returned info
        → Opens p kem setting receiver info keys
        → establish p l kem setting d sender receiver public_pem transfer_id info ≡ some (kek, h)
        → recover_transfer_security p l kem setting sender receiver transfer_id h
            (some private_pem)
            (some public_pem)
            keys
          ≡ some (some kek)
    unfolding establish encapsulate decapsulate recover_transfer_security recover_key
    recover-establish d info keys kek h active (seed, generated, opens) established =
        elim (Option-cases (kem.encap_secret d.coins info.public_key)) [
          | inl nothing ↦
              absurd (some-ne-none (sym established ∙ rw (establish, encapsulate, nothing) refl))
          | inr ((ciphertext, secret), sealed) ↦
              let opened : kem.decap_secret (kem.generate_keypair seed).1 ciphertext ≡ some secret =
                lawful.decap-encap seed d.coins ciphertext secret
                  (ap (kem.encap_secret d.coins) (sym generated) ∙ sealed) in
              elim (Option-cases (l.exchange d.ephemeral_private (l.public_key prekey))) [
                | inl nothing ↦ absurd (
                    some-ne-none (
                      sym established
                      ∙ rw (establish, encapsulate, sealed, loads_public, nothing) refl))
                | inr (shared, agreed) ↦
                    let keys_of =
                      hybrid_keys p l kem setting d sender receiver public_pem transfer_id info
                        (ciphertext, secret) shared in
                    let same : keys_of ≡ (kek, h) = some_inj (
                      sym (rw (establish, encapsulate, sealed, loads_public, agreed) refl)
                      ∙ established) in
                    let back = sym (lawful.exchange_comm d.ephemeral_private prekey) ∙ agreed in
                    subst
                      (λ r.
                        recover_transfer_security p l kem setting sender receiver transfer_id r.1
                          (some private_pem) (some public_pem) keys
                        ≡ some (some r.0))
                      same
                      (rw
                        (
                          recover_transfer_security,
                          given,
                          given_public,
                          recover_key,
                          decapsulate,
                          opens,
                          opened,
                          active,
                          loads,
                          lawful.load-public_bytes (l.public_key d.ephemeral_private),
                          back,
                        )
                        refl)
              ]
        ]

    -- What the engine hands out for a transfer, the receiver gets back, also after key pairs have been
    -- generated for any other users: where the table of key pairs is one that `generate_keypair` makes and
    -- the two texts of the prekey belong together, `recover_transfer_security` recovers the key of
    -- `initialize_transfer_security` from its metadata, the receiver's key pair being generated on the way
    -- where he had none.
    pub recover-initialize :
        IsCorrect p
        → (d : Draws Private) (keys : List PqcKey) (kek : Bytes) (h : HybridMetadata)
          (events : List (String × KeyDraw))
        → IsValid keys
        → IsPaired p kem setting keys
        → All (λ e. str_eq e.0 receiver ≡ false) events
        → let (secured, initialized) =
            initialize_transfer_security p l kem setting d sender receiver
              (some public_pem)
              transfer_id
              keys in
          secured ≡ some (kek, h)
          → recover_transfer_security p l kem setting sender receiver transfer_id h
              (some private_pem)
              (some public_pem)
              (generate_all p kem setting events initialized)
            ≡ some (some kek)
    unfolding initialize_transfer_security
    recover-initialize correct d keys kek h events valid paired others secured =
        let made = receiver_pqc_info p l kem setting d.key_draw receiver keys in
        let (valid_made, paired_made, active_made) =
          receiver_pqc_info-lem correct d.key_draw receiver keys valid paired in
        let initialized : initialize_transfer_security p l kem setting d sender receiver
              (some public_pem) transfer_id keys
            ≡ (
              establish_with p l kem setting d sender receiver public_pem transfer_id made.0,
              made.1,
            ) =
          rw (initialize_transfer_security, given_public) refl in
        elim (Result-cases made.0) [
          | inr (e, failed) ↦ absurd (
              some-ne-none (
                sym secured
                ∙ ap (λ r. r.0) initialized
                ∙ ap (establish_with p l kem setting d sender receiver public_pem transfer_id)
                    failed))
          | inl (info, found) ↦
              let kept = generate_all-keeps p kem setting correct receiver events made.1 others in
              let active = kept.0 ∙ active_made info found in
              let (seed, generated, opened) = paired_made receiver info (active_made info found) in
              let established : establish p l kem setting d sender receiver public_pem transfer_id
                    info
                  ≡ some (kek, h) =
                sym (
                  ap (establish_with p l kem setting d sender receiver public_pem transfer_id)
                    found)
                ∙ ap (λ r. r.0) (sym initialized)
                ∙ secured in
              rw initialized (
                recover-establish d info (generate_all p kem setting events made.1) kek h active
                  (seed, generated, kept.1 info.key_version _ opened) established)
        ]
