-- ===== src/Mlkem/Histories.antt =====
-- The rows of a user in the table of key pairs: a history of versions, of which the last one is active.
use reserach.Base.{
  ℕ, suc, ◌<◌, ◌+◌, ◌≡◌, refl, Bool, true, false, String, none, some, List, [], ◌∷◌, ◌++◌, ◌==◌,
  length, length-append, first, keep, str_eq, string_eq, beq→eq, arith, inl, inr, ◌⊎◌,
}
use reserach.Mlkem.{
  Result, raised, Error, PqcKey, is_active_of, is_version_of, retire_first, next_version,
}

abbrev pub rows_of : String → List PqcKey → List PqcKey
rows_of user table = keep (λ row. str_eq row.user_id user) table

abbrev pub active : PqcKey → Bool
active row = row.is_active

abbrev pub numbered : ℕ → PqcKey → Bool
numbered version row = row.key_version == version

-- The versions are n + 1, n + 2 and so on, and only the last row is active.
abbrev pub IsHistory : ℕ → List PqcKey → Type 0
IsHistory n [] = Unit
IsHistory n (row ∷ []) = (row.key_version ≡ suc n) × (row.is_active ≡ true)
IsHistory n (row ∷ next ∷ rows) =
    (row.key_version ≡ suc n) × (row.is_active ≡ false) × IsHistory (suc n) (next ∷ rows)

abbrev pub IsValid : List PqcKey → Type 0
IsValid table = (user : String) → IsHistory 0 (rows_of user table)

pub raised_inj : {A : Type 0} {e e' : Error} → ◌≡◌ {A = Result A} (raised e) (raised e') → e ≡ e'
raised_inj h = cc

pub first-active :
    (user : String) (table : List PqcKey)
    → first (is_active_of user) table ≡ first active (rows_of user table)
first-active user [] = refl
first-active user (row ∷ table) = ground (arith, first-active user table)

pub first-version :
    (user : String) (version : ℕ) (table : List PqcKey)
    → first (is_version_of user version) table ≡ first (numbered version) (rows_of user table)
first-version user version [] = refl
first-version user version (row ∷ table) = ground (arith, first-version user version table)

pub rows_of-append :
    (user : String) (xs ys : List PqcKey)
    → rows_of user (xs ++ ys) ≡ rows_of user xs ++ rows_of user ys
rows_of-append user [] ys = refl
rows_of-append user (row ∷ xs) ys = ground (arith, rows_of-append user xs ys)

pub rows_of-retire_first_self :
    (now : ℕ) (user : String) (table : List PqcKey)
    → rows_of user (retire_first now (is_active_of user) table)
      ≡ retire_first now active (rows_of user table)
rows_of-retire_first_self now user [] = refl
rows_of-retire_first_self now user (row ∷ table) =
    ground (arith, rows_of-retire_first_self now user table)

str_eq_other :
    (s user other : String)
    → str_eq user other ≡ false
    → str_eq s user ≡ true
    → str_eq s other ≡ false
str_eq_other s user other h same = rw (beq→eq string_eq s user same) h

pub rows_of-retire_first_other :
    (now : ℕ) (user other : String) (table : List PqcKey)
    → str_eq user other ≡ false
    → rows_of other (retire_first now (is_active_of user) table) ≡ rows_of other table
rows_of-retire_first_other now user other [] h = refl
rows_of-retire_first_other now user other (row ∷ table) h = ground (
  arith,
  rows_of-retire_first_other now user other table h,
  str_eq_other row.user_id user other h,
)

-- The active row of a history is the last one.
active-IsHistory :
    (n : ℕ) (rows : List PqcKey)
    → IsHistory n rows
    → (rows ≡ [])
      ⊎ ((row : PqcKey) × (first active rows ≡ some row) × (row.key_version ≡ n + length rows))
active-IsHistory n [] h = inl refl
active-IsHistory n (row ∷ []) h = inr (row, ground (arith, h.1), omega (arith, h.0))
active-IsHistory n (row ∷ next ∷ rows) h = elim (active-IsHistory (suc n) (next ∷ rows) h.2) [
  | inl nothing ↦ ground (arith, nothing)
  | inr (found, here, last) ↦ inr (found, ground (arith, h.1, here), omega (arith, last))
]

pub next_version-IsHistory :
    (rows : List PqcKey) → IsHistory 0 rows → next_version (first active rows) ≡ suc (length rows)
next_version-IsHistory rows h = elim (active-IsHistory 0 rows h) [
  | inl nothing ↦ rw nothing refl
  | inr (row, here, last) ↦ rw here (omega (arith, last))
]

pub no_later_version :
    (n version : ℕ) (rows : List PqcKey)
    → IsHistory n rows
    → n + length rows < version
    → first (numbered version) rows ≡ none
no_later_version n version [] h later = refl
no_later_version n version (row ∷ []) h later = ground (arith, h.0)
no_later_version n version (row ∷ next ∷ rows) h later =
    ground (arith, h.0, no_later_version (suc n) version (next ∷ rows) h.2 (omega arith))

IsHistory-cons :
    (n : ℕ) (row : PqcKey) (xs : List PqcKey)
    → row.key_version ≡ suc n
    → row.is_active ≡ false
    → 0 < length xs
    → IsHistory (suc n) xs
    → IsHistory n (row ∷ xs)
IsHistory-cons n row [] version off some_later h = absurd (omega arith)
IsHistory-cons n row (next ∷ xs) version off some_later h = (version, off, h)

retire_first-inactive :
    (now : ℕ) (row : PqcKey) (rows : List PqcKey)
    → row.is_active ≡ false
    → retire_first now active (row ∷ rows) ≡ row ∷ retire_first now active rows
retire_first-inactive now row rows off = ground (arith, off)

pub IsHistory-retire_append :
    (now n : ℕ) (rows : List PqcKey) (new : PqcKey)
    → IsHistory n rows
    → new.key_version ≡ suc (n + length rows)
    → new.is_active ≡ true
    → IsHistory n (retire_first now active rows ++ new ∷ [])
IsHistory-retire_append now n [] new h version is_on = (omega (arith, version), is_on)
IsHistory-retire_append now n (row ∷ []) new h version is_on =
    rw h.1 ((h.0, refl, (omega (arith, version), is_on)))
IsHistory-retire_append now n (row ∷ next ∷ rows) new h version is_on =
    let later = retire_first now active (next ∷ rows) ++ new ∷ [] in
    let some_later : 0 < length later =
      omega (arith, length-append (retire_first now active (next ∷ rows)) (new ∷ [])) in
    let rest =
      IsHistory-retire_append now (suc n) (next ∷ rows) new h.2 (omega (arith, version)) is_on in
    rw (retire_first-inactive now row (next ∷ rows) h.1)
      (IsHistory-cons n row later h.0 h.1 some_later rest)

pub first-retire_append :
    (now n : ℕ) (rows : List PqcKey) (new : PqcKey)
    → IsHistory n rows
    → new.is_active ≡ true
    → first active (retire_first now active rows ++ new ∷ []) ≡ some new
first-retire_append now n [] new h is_on = ground (arith, is_on)
first-retire_append now n (row ∷ []) new h is_on = rw h.1 (ground (arith, is_on))
first-retire_append now n (row ∷ next ∷ rows) new h is_on =
    let rest = first-retire_append now (suc n) (next ∷ rows) new h.2 is_on in
    rw (retire_first-inactive now row (next ∷ rows) h.1) (ground (arith, h.1, rest))
