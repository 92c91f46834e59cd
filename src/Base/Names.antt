-- ===== src/Base/Names.antt =====
-- File names: Python's `lower`, `split('.')[-1]` and `in` on texts. Of `lower` the letters of ASCII
-- are modelled; another letter stays as it is.
use Prim.Native.Nat.{ℕ, zero, suc, ◌-◌}
use Prim.Native.Char.{Char, code}
use Prim.Native.String.{String, [], ◌∷◌}
use mathlib.Core.Bool.{Bool, true, false, ◌&&◌, ◌||◌}
use mathlib.Core.List.{List}
use reserach.Base.Tests.{if◌then◌else◌, ◌==◌, leb}

-- The character at a place of a text, or another one.
abbrev nth_char : ℕ → Char → String → Char
nth_char n other [] = other
nth_char zero other (c ∷ s) = c
nth_char (suc n) other (c ∷ s) = nth_char n other s

unfoldable pub lower_char : Char → Char
lower_char c =
    if leb 65 (code c) && leb (code c) 90
    then nth_char (code c - 65) c "abcdefghijklmnopqrstuvwxyz"
    else c

-- `s.lower()`
unfoldable pub lower : String → String
unfolding lower_char
lower [] = []
lower (c ∷ s) = lower_char c ∷ lower s

-- `c in s`, for one character
unfoldable pub has_char : ℕ → String → Bool
has_char sep [] = false
has_char sep (c ∷ s) = if code c == sep then true else has_char sep s

-- `s.split(c)[-1]`, which is also `s.rsplit(c, 1)[-1]`
unfoldable pub last_part : ℕ → String → String
unfolding has_char
last_part sep [] = []
last_part sep (c ∷ s) =
    let rest = last_part sep s in
    if has_char sep s then rest else if code c == sep then s else c ∷ s

-- `name.split('.')[-1].lower() if '.' in name else ''`
unfoldable pub extension : String → String
unfolding lower has_char last_part
extension name = if has_char b'.' name then lower (last_part b'.' name) else ""

-- `s.startswith(p)`
unfoldable pub has_prefix : String → String → Bool
has_prefix [] s = true
has_prefix (c ∷ p) [] = false
has_prefix (c ∷ p) (d ∷ s) = code c == code d && has_prefix p s

-- `p in s`
unfoldable pub contains_text : String → String → Bool
unfolding has_prefix
contains_text p [] = has_prefix p []
contains_text p (c ∷ s) = has_prefix p (c ∷ s) || contains_text p s

-- `any(word in s for word in words)`
unfoldable pub contains_any : List String → String → Bool
unfolding contains_text
contains_any List.[] s = false
contains_any (List.◌∷◌ w ws) s = contains_text w s || contains_any ws s
