-- ===== src/Prekeys.antt =====
-- The one-time prekeys of receivers: `ECDHPrekey` (backend/app/database/models.py) and
-- `generate_prekeys_for_user`, `claim_prekey` and `get_and_delete_prekey` of `CryptoService`
-- (backend/app/services/crypto_service.py). The table is a list of rows in the order of insertion, times
-- are in seconds, and what other sessions do between the query and the update is a parameter.
pub mod Claims
mod Tests
use reserach.Base.{
  ℕ, zero, suc, ◌+◌, ◌-◌, ◌*◌, Bool, true, false, ◌&&◌, not, String, Option, none, some, List, [],
  ◌∷◌, ◌++◌, map, ltb, first, keep, str_eq, if◌then◌else◌,
}

-- A row of `ecdh_prekeys`.
pub record EcdhPrekey : Type 0 where
  pub user_id : String
  pub prekey_id : String
  pub public_key_pem : String
  pub private_key_pem : String
  pub consumed : Bool
  pub consumed_at : Option ℕ
  pub transfer_id : Option String
  pub expires_at : ℕ

-- What `ec.generate_private_key` and `uuid.uuid4` give for one prekey.
pub record Material : Type 0 where
  pub new_id : String
  pub public_pem : String
  pub private_pem : String

abbrev pub thirty_days : ℕ
thirty_days = 30 * 86_400

abbrev pub new_prekey : ℕ → String → Material → EcdhPrekey
new_prekey now user k = record {
  user_id = user;
  prekey_id = k.new_id;
  public_key_pem = k.public_pem;
  private_key_pem = k.private_pem;
  consumed = false;
  consumed_at = none;
  transfer_id = none;
  expires_at = now + thirty_days;
}

-- The rows that the loop over `range(count)` adds, for the materials with the numbers below `count`.
abbrev pub new_prekeys : ℕ → String → (ℕ → Material) → ℕ → List EcdhPrekey
new_prekeys now user fresh zero = []
new_prekeys now user fresh (suc n) = new_prekey now user (fresh n) ∷ new_prekeys now user fresh n

unfoldable pub generate_prekeys_for_user :
    ℕ → String → ℕ → (ℕ → Material) → List EcdhPrekey → List EcdhPrekey
generate_prekeys_for_user now user count fresh table = table ++ new_prekeys now user fresh count

abbrev pub is_available : ℕ → String → EcdhPrekey → Bool
is_available now user row = str_eq row.user_id user && not row.consumed && ltb now row.expires_at

-- The rows that the update is about: this prekey, if nobody has consumed it yet.
abbrev pub is_claimable : String → EcdhPrekey → Bool
is_claimable id row = str_eq row.prekey_id id && not row.consumed

abbrev pub claim_row : ℕ → String → String → EcdhPrekey → EcdhPrekey
claim_row now transfer id row =
    if is_claimable id row
    then record row { consumed = true; consumed_at = some now; transfer_id = some transfer }
    else row

-- Whether the update finds a row.
abbrev pub any_claimable : String → List EcdhPrekey → Bool
any_claimable id [] = false
any_claimable id (row ∷ table) =
    let rest = any_claimable id table in if is_claimable id row then true else rest

-- What the environment of a call gives: the clock, the materials of each attempt, and what other
-- sessions make of the table between the query and the update of an attempt.
pub record Session : Type 0 where
  pub now : ℕ
  pub fresh : ℕ → ℕ → Material
  pub between : ℕ → List EcdhPrekey → List EcdhPrekey

-- The attempts that are left; the result is the row that was claimed.
unfoldable pub claim_attempts :
    Session → String → String → ℕ → List EcdhPrekey → Option EcdhPrekey × List EcdhPrekey
unfolding generate_prekeys_for_user
claim_attempts e user transfer zero table = (none, table)
claim_attempts e user transfer (suc n) table =
    let seen = e.between n table in
    let generated =
      claim_attempts e user transfer n
        (generate_prekeys_for_user e.now user 10 (e.fresh n) table) in
    let lost = claim_attempts e user transfer n seen in
    elim (first (is_available e.now user) table) [
      | none ↦ generated
      | some prekey ↦
          if any_claimable prekey.prekey_id seen
          then (some prekey, map (claim_row e.now transfer prekey.prekey_id) seen)
          else lost
    ]

unfoldable pub claim_prekey :
    Session → String → String → List EcdhPrekey → Option EcdhPrekey × List EcdhPrekey
unfolding claim_attempts
claim_prekey e user transfer table = claim_attempts e user transfer 3 table

-- The transfer's row of the receiver.
abbrev pub is_of_transfer : String → String → EcdhPrekey → Bool
is_of_transfer user transfer row =
    str_eq row.user_id user
    && elim row.transfer_id [ none ↦ false | some claimed ↦ str_eq claimed transfer ]

-- `db.delete` of the first row that fits.
abbrev pub remove_first : (EcdhPrekey → Bool) → List EcdhPrekey → List EcdhPrekey
remove_first p [] = []
remove_first p (row ∷ table) =
    let rest = remove_first p table in if p row then table else row ∷ rest

unfoldable pub get_and_delete_prekey :
    String → String → List EcdhPrekey → Option String × List EcdhPrekey
get_and_delete_prekey user transfer table = elim (first (is_of_transfer user transfer) table) [
  | none ↦ (none, table)
  | some row ↦ (some row.private_key_pem, remove_first (is_of_transfer user transfer) table)
]
