-- ===== src/Mlkem.antt =====
-- The ML-KEM key pairs of users: `PQCKey` (backend/app/database/models.py) and `MLKEMService`
-- (backend/app/services/mlkem_service.py). The table is a list of rows in the order of insertion. Base64
-- is left out: a text that encodes bytes is these bytes. liboqs and AES-GCM are parameters, and what is
-- drawn at random is an argument.
pub mod Histories
pub mod Versions
pub mod Secrets
pub mod Pairs
pub mod Startup
pub mod Tests
use reserach.Base.{
  ℕ, ◌+◌, Bool, true, false, ◌&&◌, String, Option, none, some, List, [], ◌∷◌, ◌++◌, ◌==◌, length,
  ◌≡◌, refl, ◌⊎◌, inl, inr, first, str_eq, if◌then◌else◌,
}
use reserach.Malware.{Bytes}
use reserach.Pfce.{aes_gcm, Primitives}

-- What the methods raise.
pub data Error : Type 0 where
  master_key_missing master_key_not_base64 : Error
  master_key_length : ℕ → Error
  kem_raised unique_violated no_active_key no_such_version decryption_failed : Error

pub data Result (A : Type 0) : Type 0 where
  returned : A → Result A
  raised : Error → Result A

pub Result-cases :
    {A : Type 0} (r : Result A) → ((a : A) × (r ≡ returned a)) ⊎ ((e : Error) × (r ≡ raised e))
Result-cases (returned a) = inl (a, refl)
Result-cases (raised e) = inr (e, refl)

infixl 5 ◌>>=◌
abbrev pub ◌>>=◌ : {A B : Type 0} → Result A → (A → Result B) → Result B
returned a >>= f = f a
raised e >>= f = raised e

abbrev pub or_raise : {A : Type 0} → Option A → Error → Result A
or_raise none e = raised e
or_raise (some a) e = returned a

-- `settings.mlkem_private_key_master_key` is not set, no Base64, or decodes to these bytes.
pub data MasterKeySetting : Type 0 where
  not_set not_base64 : MasterKeySetting
  decodes : Bytes → MasterKeySetting

unfoldable pub get_master_key : MasterKeySetting → Result Bytes
get_master_key not_set = raised master_key_missing
get_master_key not_base64 = raised master_key_not_base64
get_master_key (decodes mk) =
    if length mk == 32 then returned mk else raised (master_key_length (length mk))

-- liboqs: key pairs from seeds, public key first; encapsulation from coins gives a ciphertext and the
-- shared secret; none where a call raises. The generation of a key pair is taken not to raise.
pub record Kem : Type 0 where
  pub generate_keypair : Bytes → Bytes × Bytes
  pub encap_secret : Bytes → Bytes → Option (Bytes × Bytes)
  pub decap_secret : Bytes → Bytes → Option Bytes

-- A row of `pqc_keys`; the algorithm is always ML-KEM-768.
pub record PqcKey : Type 0 where
  pub user_id : String
  pub key_version : ℕ
  pub public_key : Bytes
  pub encrypted_private_key : Bytes
  pub private_key_nonce : Bytes
  pub is_active : Bool
  pub retired_at : Option ℕ

abbrev pub is_active_of : String → PqcKey → Bool
is_active_of user row = str_eq row.user_id user && row.is_active

abbrev pub is_version_of : String → ℕ → PqcKey → Bool
is_version_of user version row = str_eq row.user_id user && row.key_version == version

abbrev pub retire : ℕ → PqcKey → PqcKey
retire now row = record row { is_active = false; retired_at = some now }

-- The row that `.first()` finds is retired.
abbrev pub retire_first : ℕ → (PqcKey → Bool) → List PqcKey → List PqcKey
retire_first now fits [] = []
retire_first now fits (row ∷ table) =
    let rest = retire_first now fits table in
    if fits row then retire now row ∷ table else row ∷ rest

-- What a call of `generate_keypair` draws, and the clock.
pub record KeyDraw : Type 0 where
  pub now : ℕ
  pub seed : Bytes
  pub nonce : Bytes

abbrev pub next_version : Option PqcKey → ℕ
next_version none = 1
next_version (some active_key) = active_key.key_version + 1

-- What `get_active_public_key` returns.
pub record PublicKeyInfo : Type 0 where
  pub public_key : Bytes
  pub key_version : ℕ

unfoldable pub get_active_public_key : String → List PqcKey → Result PublicKeyInfo
get_active_public_key user table = elim (first (is_active_of user) table) [
  | none ↦ raised no_active_key
  | some active_key ↦
      returned (record { public_key = active_key.public_key; key_version = active_key.key_version })
]

module _ {Digest : Type 0} (p : Primitives Digest) (kem : Kem) (setting : MasterKeySetting) where
  abbrev pub new_key : Bytes → String → KeyDraw → ℕ → PqcKey
  new_key master_key user d version = record {
    user_id = user;
    key_version = version;
    public_key = (kem.generate_keypair d.seed).0;
    encrypted_private_key = p.encrypt aes_gcm master_key d.nonce (kem.generate_keypair d.seed).1;
    private_key_nonce = d.nonce;
    is_active = true;
    retired_at = none;
  }

  -- Nothing is written before the commit, which the constraint of the table on the version can refuse.
  unfoldable pub commit_key : Bytes → String → KeyDraw → ℕ → List PqcKey → Result Unit × List PqcKey
  commit_key master_key user d new_version table =
      elim (first (is_version_of user new_version) table) [
        | some row ↦ (raised unique_violated, table)
        | none ↦ (
          returned tt,
          retire_first d.now (is_active_of user) table
              ++ new_key master_key user d new_version ∷ [],
        )
      ]

  unfoldable pub generate_keypair : String → KeyDraw → List PqcKey → Result Unit × List PqcKey
  unfolding get_master_key commit_key
  generate_keypair user d table = elim (get_master_key setting) [
    | raised e ↦ (raised e, table)
    | returned master_key ↦
        commit_key master_key user d (next_version (first (is_active_of user) table)) table
  ]

  unfoldable pub get_secret_key : String → ℕ → List PqcKey → Result Bytes
  unfolding get_master_key
  get_secret_key user version table = do
    pqc_key ← or_raise (first (is_version_of user version) table) no_such_version
    master_key ← get_master_key setting
    or_raise (p.decrypt aes_gcm master_key pqc_key.private_key_nonce pqc_key.encrypted_private_key)
        decryption_failed

  -- The ciphertext and the shared secret.
  unfoldable pub encapsulate : Bytes → Bytes → Result (Bytes × Bytes)
  encapsulate coins receiver_public_key =
      or_raise (kem.encap_secret coins receiver_public_key) kem_raised

  unfoldable pub decapsulate : Bytes → String → ℕ → List PqcKey → Result Bytes
  unfolding get_secret_key
  decapsulate ciphertext receiver_id version table = do
    secret_key ← get_secret_key receiver_id version table
    or_raise (kem.decap_secret secret_key ciphertext) kem_raised
