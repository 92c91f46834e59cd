-- ===== src/Mlkem/Versions.antt =====
-- The key pairs of a user are numbered from 1 in the order of their creation, and only the last one is
-- active.
use mathlib.Core.Path.{subst}
use reserach.Base.{
  suc, ◌≡◌, refl, sym, ap, ◌∙◌, true, false, String, none, some, List, [], ◌∷◌, ◌++◌, append-nil,
  length, first, str_eq, str_eq_refl, string_eq, beq→eq, arith, Bool-cases, Option-cases, inl, inr,
}
use reserach.Malware.{Bytes}
use reserach.Pfce.{Primitives}
use reserach.Mlkem.{
  Result-cases, returned, raised, Error, get_master_key, Kem, MasterKeySetting, PqcKey,
  is_active_of, is_version_of, retire_first, KeyDraw, next_version, get_active_public_key, new_key,
  commit_key, generate_keypair,
}
use reserach.Mlkem.Histories.{
  rows_of, active, IsHistory, IsValid, raised_inj, first-active, first-version, rows_of-append,
  rows_of-retire_first_self, rows_of-retire_first_other, next_version-IsHistory, no_later_version,
  IsHistory-retire_append, first-retire_append,
}

rows_of-later :
    (user other : String) (d : KeyDraw) (table : List PqcKey) (new : PqcKey)
    → new.user_id ≡ user
    → let later = retire_first d.now (is_active_of user) table ++ new ∷ [] in
      (rows_of user later ≡ retire_first d.now active (rows_of user table) ++ new ∷ [])
      × (str_eq user other ≡ false → rows_of other later ≡ rows_of other table)
rows_of-later user other d table new owner = (
  rows_of-append user (retire_first d.now (is_active_of user) table) (new ∷ [])
      ∙ rw (rows_of-retire_first_self d.now user table, owner, str_eq_refl user) refl,
  λ differ.
      rows_of-append other (retire_first d.now (is_active_of user) table) (new ∷ [])
      ∙ rw (rows_of-retire_first_other d.now user other table differ, owner, differ)
          (append-nil (rows_of other table)),
)

IsValid-later :
    (user : String) (d : KeyDraw) (table : List PqcKey) (new : PqcKey)
    → IsValid table
    → new.user_id ≡ user
    → new.key_version ≡ suc (length (rows_of user table))
    → new.is_active ≡ true
    → IsValid (retire_first d.now (is_active_of user) table ++ new ∷ [])
IsValid-later user d table new valid owner version is_on other =
    let rows = rows_of-later user other d table new owner in
    elim (Bool-cases (str_eq user other)) [
      | inl same ↦
          subst
            (λ u.
              IsHistory 0 (rows_of u (retire_first d.now (is_active_of user) table ++ new ∷ [])))
            (beq→eq string_eq user other same)
            (rw rows.0 (
              IsHistory-retire_append d.now 0 (rows_of user table) new (valid user)
                (omega (arith, version)) is_on))
      | inr differ ↦ rw (rows.1 differ) (valid other)
    ]

first-later :
    (user : String) (d : KeyDraw) (table : List PqcKey) (new : PqcKey)
    → IsValid table
    → new.user_id ≡ user
    → new.is_active ≡ true
    → first (is_active_of user) (retire_first d.now (is_active_of user) table ++ new ∷ [])
      ≡ some new
first-later user d table new valid owner is_on =
    first-active user (retire_first d.now (is_active_of user) table ++ new ∷ [])
    ∙ ap (first active) (rows_of-later user user d table new owner).0
    ∙ first-retire_append d.now 0 (rows_of user table) new (valid user) is_on

pub next_version-IsValid :
    (user : String) (table : List PqcKey)
    → IsValid table
    → next_version (first (is_active_of user) table) ≡ suc (length (rows_of user table))
next_version-IsValid user table valid =
    ap next_version (first-active user table)
    ∙ next_version-IsHistory (rows_of user table) (valid user)

active-later_other :
    (user other : String) (d : KeyDraw) (table : List PqcKey) (new : PqcKey)
    → new.user_id ≡ user
    → str_eq user other ≡ false
    → first (is_active_of other) (retire_first d.now (is_active_of user) table ++ new ∷ [])
      ≡ first (is_active_of other) table
active-later_other user other d table new owner differ =
    first-active other (retire_first d.now (is_active_of user) table ++ new ∷ [])
    ∙ ap (first active) ((rows_of-later user other d table new owner).1 differ)
    ∙ sym (first-active other table)

module _ {Digest : Type 0} (p : Primitives Digest) (kem : Kem) (setting : MasterKeySetting) where
  -- What a call that returns has written, for the user and for the others.
  rows_of-generate_keypair :
      (user : String) (d : KeyDraw) (table : List PqcKey) (mk : Bytes)
      → get_master_key setting ≡ returned mk
      → IsValid table
      → generate_keypair p kem setting user d table ≡ (
        returned tt,
        retire_first d.now (is_active_of user) table
            ++ new_key p kem setting mk user d (suc (length (rows_of user table))) ∷ [],
      )
  unfolding generate_keypair commit_key
  rows_of-generate_keypair user d table mk given valid =
      let version = next_version-IsValid user table valid in
      let free : first (is_version_of user (suc (length (rows_of user table)))) table ≡ none =
        first-version user (suc (length (rows_of user table))) table
        ∙ no_later_version 0 (suc (length (rows_of user table))) (rows_of user table) (valid user)
            (omega arith) in
      rw (generate_keypair, given)
        (ap (λ v. commit_key p kem setting mk user d v table) version ∙ rw (commit_key, free) refl)

  -- A new key pair of one user leaves the active one of another as it is.
  pub get_active_public_key-generate_keypair :
      (user other : String) (d : KeyDraw) (table : List PqcKey)
      → str_eq user other ≡ false
      → get_active_public_key other (generate_keypair p kem setting user d table).1
        ≡ get_active_public_key other table
  unfolding generate_keypair commit_key get_active_public_key
  get_active_public_key-generate_keypair user other d table differ =
      elim (Result-cases (get_master_key setting)) [
        | inr (e, fails) ↦ rw (generate_keypair, fails) refl
        | inl (mk, given) ↦
            let version = next_version (first (is_active_of user) table) in
            rw (generate_keypair, given)
              (elim (Option-cases (first (is_version_of user version) table)) [
                | inr (row, taken) ↦ rw (commit_key, taken) refl
                | inl free ↦
                    rw (commit_key, free)
                      (rw
                        (
                          get_active_public_key,
                          active-later_other user other d table
                              (new_key p kem setting mk user d version) refl differ,
                        )
                        refl)
              ])
      ]

  -- From a table in which the rows of every user are numbered from 1 and only the last one is active,
  -- `generate_keypair` leads to such a table again. Where the master key is valid and liboqs gives a key
  -- pair it always returns, the constraint on the versions never refuses it, and the new public key is the
  -- active one with the next version; where the master key is not valid, nothing is written.
  pub generate_keypair-IsValid :
      (user : String) (d : KeyDraw) (table : List PqcKey)
      → IsValid table
      → let (result, later) = generate_keypair p kem setting user d table in
        IsValid later
        × ((mk : Bytes)
            → get_master_key setting ≡ returned mk
            → (result ≡ returned tt)
              × (get_active_public_key user later
                  ≡ returned (record {
                    public_key = (kem.generate_keypair d.seed).0;
                    key_version = suc (length (rows_of user table));
                  })))
        × ((e : Error) → get_master_key setting ≡ raised e → (result ≡ raised e) × (later ≡ table))
  unfolding generate_keypair get_active_public_key
  generate_keypair-IsValid user d table valid = elim (Result-cases (get_master_key setting)) [
    | inl (mk, given) ↦
        let step = rows_of-generate_keypair user d table mk given valid in
        let new = new_key p kem setting mk user d (suc (length (rows_of user table))) in
        let found = first-later user d table new valid refl refl in
        rw step (
          (
            IsValid-later user d table new valid refl refl refl,
            λ mk' given'. (refl, rw (get_active_public_key, found) refl),
            λ e fails. absurd (cc),
          ))
    | inr (e, fails) ↦
        let step : generate_keypair p kem setting user d table ≡ (raised e, table) =
          rw (generate_keypair, fails) refl in
        rw step (
          (
            valid,
            λ mk given. absurd (cc),
            λ e' fails'. (ap raised (raised_inj (sym fails ∙ fails')), refl),
          ))
  ]
