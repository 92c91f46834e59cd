-- ===== src/Upce/Framing.antt =====
-- The input key material names its two secrets without ambiguity.
use reserach.Base.{ℕ, ◌<◌, ◌≡◌, refl, [], ◌∷◌, ◌++◌, length, arith}
use reserach.Malware.{Bytes}
use reserach.Upce.{pack_u32, input_key_material}

head_eq : {x y : ℕ} {xs ys : Bytes} → ◌≡◌ {A = Bytes} (x ∷ xs) (y ∷ ys) → x ≡ y
head_eq h = cc

tail_eq : {x y : ℕ} {xs ys : Bytes} → ◌≡◌ {A = Bytes} (x ∷ xs) (y ∷ ys) → xs ≡ ys
tail_eq h = cc

-- Two lists of the same length stand in front of equal lists only if they are equal.
append_inj :
    (xs ys us vs : Bytes) → length xs ≡ length ys → xs ++ us ≡ ys ++ vs → (xs ≡ ys) × (us ≡ vs)
append_inj [] [] us vs same h = (refl, h)
append_inj [] (y ∷ ys) us vs same h = absurd (omega arith)
append_inj (x ∷ xs) [] us vs same h = absurd (omega arith)
append_inj (x ∷ xs) (y ∷ ys) us vs same h =
    let rest = append_inj xs ys us vs (omega arith) (tail_eq h) in
    (λ i. head_eq h i ∷ rest.0 i, rest.1)

-- A number below 2 ^ 32 is read off its four bytes, whatever follows them.
pack_u32-append_inj :
    (m n : ℕ) (us vs : Bytes)
    → m < 4_294_967_296
    → n < 4_294_967_296
    → pack_u32 m ++ us ≡ pack_u32 n ++ vs
    → (m ≡ n) × (us ≡ vs)
pack_u32-append_inj m n us vs small small' h = (
  omega (
    arith,
    head_eq h,
    head_eq (tail_eq h),
    head_eq (tail_eq (tail_eq h)),
    head_eq (tail_eq (tail_eq (tail_eq h))),
  ),
  tail_eq (tail_eq (tail_eq (tail_eq h))),
)

framed_inj :
    (xs ys us vs : Bytes)
    → length xs < 4_294_967_296
    → length ys < 4_294_967_296
    → (pack_u32 (length xs) ++ xs) ++ us ≡ (pack_u32 (length ys) ++ ys) ++ vs
    → (xs ≡ ys) × (us ≡ vs)
framed_inj xs ys us vs small small' h =
    let (same, rest) =
      pack_u32-append_inj (length xs) (length ys) (xs ++ us) (ys ++ vs) small small' h in
    append_inj xs ys us vs same rest

-- "Use length-prefixed encoding to prevent ambiguous boundary collisions": for secrets of less than 2 ^ 32
-- bytes, two pairs of secrets with the same key material are the same pair.
pub input_key_material_inj :
    (ecdh ecdh' mlkem mlkem' : Bytes)
    → length ecdh < 4_294_967_296
    → length ecdh' < 4_294_967_296
    → length mlkem < 4_294_967_296
    → length mlkem' < 4_294_967_296
    → input_key_material ecdh mlkem ≡ input_key_material ecdh' mlkem'
    → (ecdh ≡ ecdh') × (mlkem ≡ mlkem')
unfolding input_key_material
input_key_material_inj ecdh ecdh' mlkem mlkem' e e' m m' h =
    let (same, rest) =
      framed_inj ecdh ecdh' (pack_u32 (length mlkem) ++ mlkem) (pack_u32 (length mlkem') ++ mlkem')
        e e' h in
    (same, (pack_u32-append_inj (length mlkem) (length mlkem') mlkem mlkem' m m' rest).1)
