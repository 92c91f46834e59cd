-- ===== src/Mlkem/Pairs.antt =====
-- The active public key and the private key that is read for it belong together.
use reserach.Base.{
  ℕ, ◌≡◌, refl, sym, ap, ◌∙◌, false, String, List, [], ◌∷◌, All, str_eq, string_eq, beq→eq,
  Bool-cases, inl, inr,
}
use mathlib.Core.Path.{subst, subst⁻¹}
use reserach.Malware.{Bytes}
use reserach.Pfce.{Primitives, IsCorrect}
use reserach.Mlkem.{
  Result-cases, returned, MasterKeySetting, Kem, PqcKey, KeyDraw, PublicKeyInfo, get_master_key,
  get_active_public_key, get_secret_key, generate_keypair,
}
use reserach.Mlkem.Histories.{IsValid}
use reserach.Mlkem.Versions.{
  generate_keypair-IsValid, next_version-IsValid, get_active_public_key-generate_keypair,
}
use reserach.Mlkem.Secrets.{get_secret_key-generate_keypair}

returned_inj : {A : Type 0} {a b : A} → returned a ≡ returned b → a ≡ b
returned_inj h = cc

module _ {Digest : Type 0} (p : Primitives Digest) (kem : Kem) (setting : MasterKeySetting) where
  -- The private key that is read for this version was generated with the public key.
  abbrev pub Opens : String → PublicKeyInfo → List PqcKey → Type 0
  Opens user info keys =
      (seed : Bytes) × (info.public_key ≡ (kem.generate_keypair seed).0)
      × (get_secret_key p kem setting user info.key_version keys
          ≡ returned (kem.generate_keypair seed).1)

  abbrev pub IsPaired : List PqcKey → Type 0
  IsPaired keys =
      (user : String) (info : PublicKeyInfo)
      → get_active_public_key user keys ≡ returned info
      → Opens user info keys

  -- Where every active public key has its private key, it is so after a call of `generate_keypair`.
  pub IsPaired-generate_keypair :
      IsCorrect p
      → (user : String) (d : KeyDraw) (table : List PqcKey) → IsValid table
      → IsPaired table
      → IsPaired (generate_keypair p kem setting user d table).1
  IsPaired-generate_keypair correct user d table valid paired owner info active =
      let (kept, opens) = get_secret_key-generate_keypair p kem setting correct user d table in
      let (_, succeeds, fails) = generate_keypair-IsValid p kem setting user d table valid in
      elim (Bool-cases (str_eq user owner)) [
        | inr differ ↦
            let (seed, generated, opened) = paired owner info (
              sym (get_active_public_key-generate_keypair p kem setting user owner d table differ)
              ∙ active) in
            (seed, generated, kept owner info.key_version _ opened)
        | inl same ↦ elim (Result-cases (get_master_key setting)) [
          | inr (e, broken) ↦
              let unchanged = (fails e broken).1 in
              subst (λ keys. Opens owner info keys) (sym unchanged)
                (paired owner info (ap (get_active_public_key owner) (sym unchanged) ∙ active))
          | inl (mk, given) ↦
              let (done, here) = succeeds mk given in
              let owner_is = beq→eq string_eq user owner same in
              let later = (generate_keypair p kem setting user d table).1 in
              let info_is = returned_inj (
                sym here
                ∙ subst⁻¹ (λ u. get_active_public_key u later ≡ returned info) owner_is active) in
              let opened =
                ap (λ v. get_secret_key p kem setting user v later)
                  (sym (next_version-IsValid user table valid))
                ∙ opens done in
              subst (λ u. Opens u info later) owner_is
                (subst (λ i. Opens user i later) info_is (d.seed, refl, opened))
        ]
      ]

  -- Key pairs that are generated one after the other.
  abbrev pub generate_all : List (String × KeyDraw) → List PqcKey → List PqcKey
  generate_all [] table = table
  generate_all (e ∷ events) table =
      generate_all events (generate_keypair p kem setting e.0 e.1 table).1

  -- What the others generate changes neither the active key pair of a user nor any private key that can be
  -- read.
  pub generate_all-keeps :
      IsCorrect p
      → (receiver : String) (events : List (String × KeyDraw)) (table : List PqcKey)
      → All (λ e. str_eq e.0 receiver ≡ false) events
      → (get_active_public_key receiver (generate_all events table)
          ≡ get_active_public_key receiver table)
        × ((version : ℕ) (key : Bytes)
            → get_secret_key p kem setting receiver version table ≡ returned key
            → get_secret_key p kem setting receiver version (generate_all events table)
              ≡ returned key)
  generate_all-keeps correct receiver [] table others = (refl, λ version key h. h)
  generate_all-keeps correct receiver (e ∷ events) table others =
      let later = (generate_keypair p kem setting e.0 e.1 table).1 in
      let rest = generate_all-keeps correct receiver events later others.1 in
      let kept = (get_secret_key-generate_keypair p kem setting correct e.0 e.1 table).0 in
      (
        rest.0
            ∙ get_active_public_key-generate_keypair p kem setting e.0 receiver e.1 table others.0,
        λ version key h. rest.1 version key (kept receiver version key h),
      )
