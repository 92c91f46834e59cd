-- ===== src/Mlkem/Tests.antt =====
-- Tests of the key pairs, and their theorems at a concrete table.
use reserach.Base.{ℕ, ◌+◌, suc, ◌≡◌, refl, true, String, some, List, [], ◌∷◌, ◌++◌, length, first}
use reserach.Malware.{Bytes}
use reserach.Pfce.Tests.{toy, toy-IsCorrect}
use reserach.Mlkem.{
  returned, raised, Error, master_key_length, MasterKeySetting, decodes, get_master_key, Kem,
  PqcKey, is_active_of, KeyDraw, next_version, get_active_public_key, generate_keypair,
  get_secret_key,
}
use reserach.Mlkem.Histories.{IsValid, rows_of}
use reserach.Mlkem.Versions.{generate_keypair-IsValid}
use reserach.Mlkem.Secrets.{get_secret_key-generate_keypair}
use reserach.Mlkem.Pairs.{IsPaired, IsPaired-generate_keypair}
use reserach.Mlkem.Startup.{PqcSettings, started, startup_check}

-- The seed is both keys, and the shared secret is the key and the coins.
abbrev pub toy_kem : Kem
toy_kem = record {
  generate_keypair = λ seed. (seed, seed);
  encap_secret = λ coins key. some (coins, key ++ coins);
  decap_secret = λ key ciphertext. some (key ++ ciphertext);
}

abbrev zeros : Bytes
zeros = 0 ∷ 0 ∷ 0 ∷ 0 ∷ 0 ∷ 0 ∷ 0 ∷ 0 ∷ []

abbrev pub configured : MasterKeySetting
configured = decodes (zeros ++ zeros ++ zeros ++ zeros)

too_short : get_master_key (decodes zeros) ≡ raised (master_key_length 8)
unfolding get_master_key
too_short = refl

abbrev pub drawn : ℕ → KeyDraw
drawn k = record { now = 100 + k; seed = k ∷ []; nonce = 9 ∷ [] }

-- User 8 gets two key pairs, and user 7 one in between.
abbrev pub one_key : List PqcKey
one_key = (generate_keypair toy toy_kem configured "8" (drawn 1) []).1

abbrev two_users : List PqcKey
two_users = (generate_keypair toy toy_kem configured "7" (drawn 2) one_key).1

abbrev rotated : List PqcKey
rotated = (generate_keypair toy toy_kem configured "8" (drawn 3) two_users).1

rotated_active :
    get_active_public_key "8" rotated ≡ returned (record { public_key = 3 ∷ []; key_version = 2 })
unfolding get_active_public_key generate_keypair
rotated_active = refl

first_version_readable : get_secret_key toy toy_kem configured "8" 1 rotated ≡ returned (1 ∷ [])
unfolding get_secret_key generate_keypair
first_version_readable = refl

pub nothing-IsValid : IsValid []
nothing-IsValid user = tt

pub one_key-IsValid : IsValid one_key
one_key-IsValid =
    (generate_keypair-IsValid toy toy_kem configured "8" (drawn 1) [] nothing-IsValid).0

nothing-IsPaired : IsPaired toy toy_kem configured []
unfolding get_active_public_key
nothing-IsPaired user info h = absurd (cc)

pub one_key-IsPaired : IsPaired toy toy_kem configured one_key
one_key-IsPaired =
    IsPaired-generate_keypair toy toy_kem configured toy-IsCorrect "8" (drawn 1) [] nothing-IsValid
      nothing-IsPaired

generate_keypair-IsValid_example :
    let (result, later) = generate_keypair toy toy_kem configured "7" (drawn 2) one_key in
    IsValid later
    × ((mk : Bytes)
        → get_master_key configured ≡ returned mk
        → (result ≡ returned tt)
          × (get_active_public_key "7" later
              ≡ returned (record {
                public_key = 2 ∷ [];
                key_version = suc (length (rows_of "7" one_key));
              })))
    × ((e : Error) → get_master_key configured ≡ raised e → (result ≡ raised e) × (later ≡ one_key))
generate_keypair-IsValid_example =
    generate_keypair-IsValid toy toy_kem configured "7" (drawn 2) one_key one_key-IsValid

get_secret_key-generate_keypair_example :
    let (result, later) = generate_keypair toy toy_kem configured "8" (drawn 3) two_users in
    ((owner : String) (version : ℕ) (key : Bytes)
      → get_secret_key toy toy_kem configured owner version two_users ≡ returned key
      → get_secret_key toy toy_kem configured owner version later ≡ returned key)
    × (result ≡ returned tt
        → get_secret_key toy toy_kem configured "8"
            (next_version (first (is_active_of "8") two_users))
            later
          ≡ returned (3 ∷ []))
get_secret_key-generate_keypair_example =
    get_secret_key-generate_keypair toy toy_kem configured toy-IsCorrect "8" (drawn 3) two_users

abbrev strict : PqcSettings
strict = record { pqc_enabled = true; pqc_required = true; master_key = configured }

strict_starts : startup_check strict true (some ("ML-KEM-768" ∷ [])) ≡ started
unfolding startup_check
strict_starts = refl
