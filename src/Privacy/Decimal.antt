-- ===== src/Privacy/Decimal.antt =====
-- Exact decimals in ten-thousandths with the further operations of the Laplace mechanism: an instance
-- that shows that what is assumed of floats can hold, and that runs in tests.
use reserach.Base.{ℕ, ◌+◌, ◌*◌, ◌/◌, ◌%◌, ◌≡◌, true, arith, ltb, leb, if◌then◌else◌}
use reserach.Base.Float.{decimal}
use reserach.Privacy.Features.{Real}

-- Rounding to whole numbers, halves to even, on ten-thousandths.
abbrev pub round_half_even : ℕ → ℕ
round_half_even x =
    let q = x / 10000 in
    let r = x % 10000 in (if ltb r 5000 then q else if ltb 5000 r then q + 1 else q + q % 2) * 10000

pub round_half_even_above :
    (n x : ℕ) → leb (n * 10000) x ≡ true → leb (n * 10000) (round_half_even x) ≡ true
round_half_even_above n x h = ground arith

pub round_half_even_below :
    (n x : ℕ) → leb x (n * 10000) ≡ true → leb (round_half_even x) (n * 10000) ≡ true
round_half_even_below n x h = ground arith

abbrev pub decimal_real : Real decimal
decimal_real = record {
  mul = λ a b. a * b / 10000;
  div = λ a b. a * 10000 / b;
  neg = λ a. a;
  log = λ a. a;
  round = round_half_even;
  round_above = round_half_even_above;
  round_below = round_half_even_below;
}
