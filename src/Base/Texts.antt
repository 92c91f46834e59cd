-- ===== src/Base/Texts.antt =====
-- Texts that the program only compares or joins are native strings.
use Prim.Native.Nat.{ℕ}
use Prim.Native.Char.{code}
use Prim.Native.String.{String, [], ◌∷◌}
use text.Mathlib.Text.{◌==◌ as text_beq}
use text.Mathlib.TextEquality.{eq_iff, Char-path}
use mathlib.Core.Bool.{Bool, true, false, ◌&&◌}
use mathlib.Core.List.{List}
use reserach.Base.Tests.{Eq, if◌then◌else◌, ◌==◌, leb, ltb}
use mathlib.Core.Path.{◌≡◌, refl}
use native.Mathlib.Omega.{arith}

abbrev pub str_eq : String → String → Bool
str_eq s t = text_beq s t

abbrev pub string_eq : Eq String
string_eq = record { beq = text_beq; beq_iff = eq_iff }

pub str_eq_refl : (s : String) → str_eq s s ≡ true
str_eq_refl s = (eq_iff s s).1 refl

-- `s in {a, b, …}`
abbrev pub one_of : String → List String → Bool
one_of s List.[] = false
one_of s (List.◌∷◌ t ts) = if str_eq s t then true else one_of s ts

-- Python's `s < t`: by the characters' numbers, from the left.
unfoldable pub str_lt : String → String → Bool
str_lt [] [] = false
str_lt [] (d ∷ t) = true
str_lt (c ∷ s) [] = false
str_lt (c ∷ s) (d ∷ t) =
    let rest = str_lt s t in
    if ltb (code c) (code d) then true else if code c == code d then rest else false

pub str_lt_asymm : (s t : String) → str_lt s t ≡ true → str_lt t s ≡ false
unfolding str_lt
str_lt_asymm [] [] h = refl
str_lt_asymm [] (d ∷ t) h = refl
str_lt_asymm (c ∷ s) [] h = absurd (cc)
str_lt_asymm (c ∷ s) (d ∷ t) h = ground (arith, str_lt_asymm s t)

pub str_lt_antisymm : (s t : String) → str_lt s t ≡ false → str_lt t s ≡ false → s ≡ t
unfolding str_lt
str_lt_antisymm [] [] h k = refl
str_lt_antisymm [] (d ∷ t) h k = absurd (cc)
str_lt_antisymm (c ∷ s) [] h k = absurd (cc)
str_lt_antisymm (c ∷ s) (d ∷ t) h k =
    let agree : (code c ≡ code d) × (s ≡ t) = ground (arith, str_lt_antisymm s t) in
    λ i. Char-path c d agree.0 i ∷ agree.1 i

-- `s.split(sep)[0]`, for a separator of one character
unfoldable pub before_char : ℕ → String → String
before_char sep [] = []
before_char sep (c ∷ s) = let rest = before_char sep s in if code c == sep then [] else c ∷ rest

-- What stands behind the first `sep`; the whole text is used up where there is none.
unfoldable pub after_char : ℕ → String → String
after_char sep [] = []
after_char sep (c ∷ s) = if code c == sep then s else after_char sep s

-- The white space of ASCII.
abbrev pub is_space : ℕ → Bool
is_space c = if c == 32 then true else leb 9 c && leb c 13

unfoldable pub strip_start : String → String
strip_start [] = []
strip_start (c ∷ s) = if is_space (code c) then strip_start s else c ∷ s

unfoldable pub strip_end : String → String
strip_end [] = []
strip_end (c ∷ s) =
    let rest = strip_end s in if is_space (code c) && str_eq rest "" then [] else c ∷ rest

-- `s.strip()`
unfoldable pub strip : String → String
unfolding strip_start strip_end
strip s = strip_end (strip_start s)
