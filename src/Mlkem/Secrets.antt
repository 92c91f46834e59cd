-- ===== src/Mlkem/Secrets.antt =====
-- Private keys stay readable when newer key pairs are generated.
use reserach.Base.{
  ℕ, ◌≡◌, refl, sym, ap, ◌∙◌, Bool, true, String, none, some, List, [], ◌∷◌, ◌++◌, first,
  str_eq_refl, arith, Bool-cases, Option-cases, inl, inr, some_inj,
}
use reserach.Malware.{Bytes}
use reserach.Pfce.{aes_gcm, Primitives, IsCorrect}
use reserach.Mlkem.{
  ◌>>=◌, no_such_version, decryption_failed, Result, Result-cases, returned, raised, or_raise,
  get_master_key, Kem, MasterKeySetting, PqcKey, is_active_of, is_version_of, retire, retire_first,
  KeyDraw, next_version, new_key, commit_key, generate_keypair, get_secret_key,
}

-- What the reading of a private key takes from a row.
abbrev sealed : PqcKey → Bytes × Bytes
sealed row = (row.private_key_nonce, row.encrypted_private_key)

first-append :
    (fits : PqcKey → Bool) (table rest : List PqcKey) (row : PqcKey)
    → first fits table ≡ some row
    → first fits (table ++ rest) ≡ some row
first-append fits [] rest row here = ground (arith, here)
first-append fits (x ∷ table) rest row here = ground (arith, first-append fits table rest row)

-- What a search finds by user and version, it finds in the table with the active row retired, with the
-- same sealed key.
first-retire_first :
    (now version : ℕ) (user owner : String) (table : List PqcKey) (row : PqcKey)
    → first (is_version_of owner version) table ≡ some row
    → (later : PqcKey) × (first
          (is_version_of owner version)
          (retire_first now (is_active_of user) table)
        ≡ some later)
      × (sealed later ≡ sealed row)
first-retire_first now version user owner [] row here = ground (arith, here)
first-retire_first now version user owner (x ∷ table) row here =
    elim (Bool-cases (is_version_of owner version x)) [
      | inl fits ↦
          let same : x ≡ row = some_inj (ground (arith, fits, here)) in
          elim (Bool-cases (is_active_of user x)) [
            | inl on ↦ (retire now x, ground (arith, fits, on), ap sealed same)
            | inr off ↦ (x, ground (arith, fits, off), ap sealed same)
          ]
      | inr fails ↦
          let (later, there, same) =
            first-retire_first now version user owner table row (ground (arith, fails, here)) in
          elim (Bool-cases (is_active_of user x)) [
            | inl on ↦ (row, ground (arith, fails, on, here), refl)
            | inr off ↦ (later, ground (arith, fails, off, there), same)
          ]
    ]

first-new :
    (fits : PqcKey → Bool) (table : List PqcKey) (row : PqcKey)
    → first fits table ≡ none
    → fits row ≡ true
    → first fits (table ++ row ∷ []) ≡ some row
first-new fits [] row nothing here = ground (arith, here)
first-new fits (x ∷ table) row nothing here = ground (arith, nothing, first-new fits table row)

first-retire_first-none :
    (now version : ℕ) (user owner : String) (table : List PqcKey)
    → first (is_version_of owner version) table ≡ none
    → first (is_version_of owner version) (retire_first now (is_active_of user) table) ≡ none
first-retire_first-none now version user owner [] nothing = refl
first-retire_first-none now version user owner (x ∷ table) nothing =
    ground (arith, nothing, first-retire_first-none now version user owner table)

module _ {Digest : Type 0} (p : Primitives Digest) (kem : Kem) (setting : MasterKeySetting) where
  abbrev open_sealed : Bytes × Bytes → Result Bytes
  open_sealed s = do
    master_key ← get_master_key setting
    or_raise (p.decrypt aes_gcm master_key s.0 s.1) decryption_failed

  get_secret_key-found :
      (owner : String) (version : ℕ) (table : List PqcKey) (row : PqcKey)
      → first (is_version_of owner version) table ≡ some row
      → get_secret_key p kem setting owner version table ≡ open_sealed (sealed row)
  unfolding get_secret_key
  get_secret_key-found owner version table row here = rw (get_secret_key, here) refl

  get_secret_key-missing :
      (owner : String) (version : ℕ) (table : List PqcKey)
      → first (is_version_of owner version) table ≡ none
      → get_secret_key p kem setting owner version table ≡ raised no_such_version
  unfolding get_secret_key
  get_secret_key-missing owner version table nothing = rw (get_secret_key, nothing) refl

  -- What `commit_key` writes.
  commit_key-finds :
      (mk : Bytes) (user owner : String) (d : KeyDraw) (new version : ℕ) (table : List PqcKey)
      (row : PqcKey)
      → first (is_version_of owner version) table ≡ some row
      → (later : PqcKey) × (first
            (is_version_of owner version)
            (commit_key p kem setting mk user d new table).1
          ≡ some later)
        × (sealed later ≡ sealed row)
  unfolding commit_key
  commit_key-finds mk user owner d new version table row here =
      elim (Option-cases (first (is_version_of user new) table)) [
        | inr (other, taken) ↦ rw (commit_key, taken) (row, here, refl)
        | inl free ↦
            let (later, there, same) = first-retire_first d.now version user owner table row here in
            rw (commit_key, free)
              (
                later,
                first-append (is_version_of owner version)
                    (retire_first d.now (is_active_of user) table)
                    (new_key p kem setting mk user d new ∷ []) later there,
                same,
              )
      ]

  commit_key-opens :
      IsCorrect p
      → (mk : Bytes) (user : String) (d : KeyDraw) (new : ℕ) (table : List PqcKey)
      → get_master_key setting ≡ returned mk
      → (commit_key p kem setting mk user d new table).0 ≡ returned tt
      → get_secret_key p kem setting user new (commit_key p kem setting mk user d new table).1
        ≡ returned (kem.generate_keypair d.seed).1
  unfolding commit_key
  commit_key-opens correct mk user d new table given h =
      elim (Option-cases (first (is_version_of user new) table)) [
        | inr (other, taken) ↦ ground (arith, taken, h)
        | inl free ↦
            rw (commit_key, free)
              (get_secret_key-found user new
                  (retire_first d.now (is_active_of user) table
                    ++ new_key p kem setting mk user d new ∷ [])
                  (new_key p kem setting mk user d new)
                  (first-new (is_version_of user new) (retire_first d.now (is_active_of user) table)
                    (new_key p kem setting mk user d new)
                    (first-retire_first-none d.now new user user table free)
                    (ground (arith, str_eq_refl user)))
                ∙ rw
                    (
                      given,
                      correct.decrypt-encrypt aes_gcm mk d.nonce (kem.generate_keypair d.seed).1,
                    )
                    refl)
      ]

  -- A private key that can be read stays readable, and stays the same, whatever key pair is generated
  -- afterwards and for whom; and the private key of a new key pair is the one that was generated with it.
  pub get_secret_key-generate_keypair :
      IsCorrect p
      → (user : String) (d : KeyDraw) (table : List PqcKey)
      → let (result, later) = generate_keypair p kem setting user d table in
        ((owner : String) (version : ℕ) (key : Bytes)
          → get_secret_key p kem setting owner version table ≡ returned key
          → get_secret_key p kem setting owner version later ≡ returned key)
        × (result ≡ returned tt
            → get_secret_key p kem setting user
                (next_version (first (is_active_of user) table))
                later
              ≡ returned (kem.generate_keypair d.seed).1)
  unfolding generate_keypair
  get_secret_key-generate_keypair correct user d table =
      let new_version = next_version (first (is_active_of user) table) in
      elim (Result-cases (get_master_key setting)) [
        | inr (e, fails) ↦
            let step : generate_keypair p kem setting user d table ≡ (raised e, table) =
              rw (generate_keypair, fails) refl in
            rw step ((λ owner version key h. h, λ h. absurd (cc)))
        | inl (mk, given) ↦
            let step : generate_keypair p kem setting user d table
                ≡ commit_key p kem setting mk user d new_version table =
              rw (generate_keypair, given) refl in
            rw step (
              (
                λ owner version key h.
                    elim (Option-cases (first (is_version_of owner version) table)) [
                      | inl nothing ↦
                          let missing = get_secret_key-missing owner version table nothing in
                          absurd (cc)
                      | inr (row, here) ↦
                          let (later, there, same) =
                            commit_key-finds mk user owner d new_version version table row here in
                          get_secret_key-found owner version _ later there
                          ∙ ap open_sealed same
                          ∙ sym (get_secret_key-found owner version table row here)
                          ∙ h
                    ],
                λ h. commit_key-opens correct mk user d new_version table given h,
              ))
      ]
