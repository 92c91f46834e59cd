-- ===== src/Prekeys/Claims.antt =====
-- A prekey is claimed once.
use mathlib.Core.Path.{subst}
use reserach.Base.{
  some_inj, ℕ, suc, ◌≡◌, ◌∙◌, ap, refl, true, false, String, none, some, List, [], ◌∷◌, ◌++◌, map,
  All, arith, first, str_eq, str_eq_refl, Bool-cases, inl, inr,
}
use reserach.Prekeys.{
  EcdhPrekey, Material, new_prekey, new_prekeys, generate_prekeys_for_user, is_available,
  any_claimable, claim_row, Session, claim_attempts, claim_prekey,
}

-- Every row with this identifier has been consumed.
abbrev pub IsConsumed : String → List EcdhPrekey → Type 0
IsConsumed id = All (λ row. str_eq row.prekey_id id ≡ true → row.consumed ≡ true)

-- Whatever other sessions do, they never release the prekey; and no new prekey gets its identifier.
pub record IsKept (e : Session) (id : String) : Type 0 where
  pub between_keeps :
      (n : ℕ) (table : List EcdhPrekey) → IsConsumed id table → IsConsumed id (e.between n table)
  pub fresh_differs : (n k : ℕ) → str_eq (e.fresh n k).new_id id ≡ false

claim_row-keeps :
    (now : ℕ) (transfer id other : String) (table : List EcdhPrekey)
    → IsConsumed id table
    → IsConsumed id (map (claim_row now transfer other) table)
claim_row-keeps now transfer id other [] h = tt
claim_row-keeps now transfer id other (row ∷ table) h =
    (λ same. ground arith, claim_row-keeps now transfer id other table h.1)

module _ (e : Session) (user transfer : String) (n : ℕ) (table : List EcdhPrekey) where
  -- The three outcomes of an attempt.
  attempt_generates :
      first (is_available e.now user) table ≡ none
      → claim_attempts e user transfer (suc n) table
        ≡ claim_attempts e user transfer n (table ++ new_prekeys e.now user (e.fresh n) 10)
  unfolding claim_attempts generate_prekeys_for_user
  attempt_generates nothing = rw (claim_attempts, nothing) refl

  attempt_claims :
      (prekey : EcdhPrekey)
      → first (is_available e.now user) table ≡ some prekey
      → any_claimable prekey.prekey_id (e.between n table) ≡ true
      → claim_attempts e user transfer (suc n) table
        ≡ (some prekey, map (claim_row e.now transfer prekey.prekey_id) (e.between n table))
  unfolding claim_attempts
  attempt_claims prekey here fits = rw (claim_attempts, here, fits) refl

first-claimable :
    (now : ℕ) (user : String) (table : List EcdhPrekey) (row : EcdhPrekey)
    → first (is_available now user) table ≡ some row
    → any_claimable row.prekey_id table ≡ true
first-claimable now user [] row found = ground (arith, found)
first-claimable now user (x ∷ table) row found = elim (Bool-cases (is_available now user x)) [
  | inl fits ↦
      let same : x ≡ row = some_inj (ground (arith, fits, found)) in
      subst (λ y. any_claimable y.prekey_id (x ∷ table) ≡ true) same
        (ground (arith, fits, str_eq_refl x.prekey_id))
  | inr fails ↦
      let rest = first-claimable now user table row (ground (arith, fails, found)) in
      ground (arith, rest)
]

-- New prekeys are available.
first-new :
    (now : ℕ) (user : String) (k : Material) (table new : List EcdhPrekey)
    → first (is_available now user) table ≡ none
    → first (is_available now user) (table ++ new_prekey now user k ∷ new)
      ≡ some (new_prekey now user k)
first-new now user k [] new h = ground (arith, str_eq_refl user)
first-new now user k (x ∷ table) new h = elim (Bool-cases (is_available now user x)) [
  | inl fits ↦ ground (arith, fits, h)
  | inr fails ↦ ground (arith, fails, first-new now user k table new (ground (arith, fails, h)))
]

-- Where no other session comes between, an attempt that finds a prekey claims it.
attempt_succeeds :
    (e : Session) (user transfer : String) (n : ℕ) (table : List EcdhPrekey) (prekey : EcdhPrekey)
    → e.between n table ≡ table
    → first (is_available e.now user) table ≡ some prekey
    → (claim_attempts e user transfer (suc n) table).0 ≡ some prekey
attempt_succeeds e user transfer n table prekey quiet here =
    ap (λ r. r.0)
      (attempt_claims e user transfer n table prekey here
        (rw quiet (first-claimable e.now user table prekey here)))

-- Where no other session comes between, a claim always gets a prekey: the first one of the user that is
-- there, or where there is none, one of ten new ones.
pub claim_prekey_succeeds :
    (e : Session) (user transfer : String) (table : List EcdhPrekey)
    → ((n : ℕ) (rows : List EcdhPrekey) → e.between n rows ≡ rows)
    → ((row : EcdhPrekey)
        → first (is_available e.now user) table ≡ some row
        → (claim_prekey e user transfer table).0 ≡ some row)
      × (first (is_available e.now user) table ≡ none
          → (claim_prekey e user transfer table).0 ≡ some (new_prekey e.now user (e.fresh 2 9)))
unfolding claim_prekey
claim_prekey_succeeds e user transfer table quiet = (
  λ row here. attempt_succeeds e user transfer 2 table row (quiet 2 table) here,
  λ nothing.
      let more = table ++ new_prekeys e.now user (e.fresh 2) 10 in
      let new = new_prekey e.now user (e.fresh 2 9) in
      ap (λ r. r.0) (attempt_generates e user transfer 2 table nothing)
      ∙ attempt_succeeds e user transfer 1 more new (quiet 1 more)
          (first-new e.now user (e.fresh 2 9) table (new_prekeys e.now user (e.fresh 2) 9) nothing),
)
