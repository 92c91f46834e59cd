-- ===== src/Mitm/Keys.antt =====
-- Which client keys are trusted.
use reserach.Base.{
  ◌≡◌, refl, ap, ◌∙◌, Bool, true, false, String, Option, none, some, string_eq, str_eq, beq→eq,
  arith, Bool-cases, Option-cases, inl, inr,
}
use reserach.Base.Dict.{lookup, lookup-insert_self}
use reserach.Mitm.{trusted, is_revoked, TrustedClientKey, Keys, verify_row, verify_public_key}

-- What the stored row is after a check: only a revoked key is refused, any other one is replaced by the
-- one presented.
abbrev pub IsAnswer :
    String → Option TrustedClientKey → (Bool × String) × Option TrustedClientKey → Type 0
IsAnswer current none (answer, later) =
    (answer ≡ (true, current)) × (later ≡ some (record { fingerprint = current; status = trusted }))
IsAnswer current (some row) (answer, later) =
    (is_revoked row.status ≡ true → (answer ≡ (false, row.fingerprint)) × (later ≡ some row))
    × (is_revoked row.status ≡ false
        → (answer ≡ (true, current))
          × ((key : TrustedClientKey) × (later ≡ some key) × (key.fingerprint ≡ current)))

verify_row-revoked :
    (current : String) (row : TrustedClientKey)
    → is_revoked row.status ≡ true
    → verify_row current row ≡ ((false, row.fingerprint), row)
unfolding verify_row
verify_row-revoked current row h = rw (verify_row, h) refl

verify_row-accepted :
    (current : String) (row : TrustedClientKey)
    → is_revoked row.status ≡ false
    → ((verify_row current row).0 ≡ (true, current))
      × ((verify_row current row).1.fingerprint ≡ current)
unfolding verify_row
verify_row-accepted current row h = elim (Bool-cases (str_eq row.fingerprint current)) [
  | inl same ↦
      let e = beq→eq string_eq row.fingerprint current same in
      (ground (arith, h, same, e), ground (arith, h, same, e))
  | inr differ ↦ (ground (arith, h, differ), ground (arith, h, differ))
]

-- For any table, a key that is presented is trusted unless the user's stored key is revoked; a revoked
-- one is refused and stays. Otherwise the presented key becomes the stored one, also where another
-- fingerprint was stored and no rotation was pending.
pub verify_public_key-IsAnswer :
    (user_id current : String) (keys : Keys)
    → let (answer, later) = verify_public_key user_id current keys in
      IsAnswer current (lookup string_eq user_id keys) (answer, lookup string_eq user_id later)
unfolding verify_public_key
verify_public_key-IsAnswer user_id current keys =
    elim (Option-cases (lookup string_eq user_id keys)) [
      | inl missing ↦
          rw (verify_public_key, missing) (refl, lookup-insert_self string_eq user_id _ keys)
      | inr (row, here) ↦
          rw (verify_public_key, here)
            (
              λ stop.
                  let e = verify_row-revoked current row stop in
                  (
                    ap (λ r. r.0) e,
                    lookup-insert_self string_eq user_id _ keys ∙ ap (λ r. some r.1) e,
                  ),
              λ go.
                  let e = verify_row-accepted current row go in
                  (
                    e.0,
                    ((verify_row current row).1, lookup-insert_self string_eq user_id _ keys, e.1),
                  ),
            )
    ]
