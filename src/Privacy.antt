-- ===== src/Privacy.antt =====
-- The privacy budget accountant and the Laplace feature pipeline
-- (backend/app/security/privacy/differential_privacy.py). Budgets are the integers of a millionth
-- of epsilon that the code computes; times are in microseconds.
pub mod Script
pub mod Local
pub mod Budget
pub mod Agree
pub mod Accountant
pub mod Features
pub mod Range
pub mod Decimal
pub mod Status
mod Tests
use reserach.Base.{ℕ, ◌+◌, ◌-◌, ◌*◌, ◌/◌, String, Bool, str_eq, if◌then◌else◌}
use reserach.Base.Int.{ℤ, pos, ◌-ℤ◌, ltb_ℤ}

-- `f"dp:budget:{user_id}:{epoch}"`, kept as its two parts.
pub record Key : Type 0 where
  pub user_id : String
  pub epoch : ℕ

-- The integers that `consume_budget` scales from the settings.
pub record Limits : Type 0 where
  pub max_budget : ℕ
  pub reserved_budget : ℕ

-- The script's test before a charge: a periodic analysis may not touch the reserve.
unfoldable pub refuses : Limits → String → ℕ → ℕ → Bool
refuses limits analysis_class cost consumed =
    let remaining = pos limits.max_budget -ℤ pos consumed in
    if str_eq analysis_class "PERIODIC"
    then ltb_ℤ (remaining -ℤ pos limits.reserved_budget) (pos cost)
    else ltb_ℤ remaining (pos cost)

-- `get_epoch`, with the time and the configured hours given: the epoch, and the whole seconds until
-- the next one.
unfoldable pub get_epoch : ℕ → ℕ → ℕ × ℕ
get_epoch epoch_hours now =
    let epoch_seconds = epoch_hours * 3600 in
    let epoch_id = now / (epoch_seconds * 1_000_000) in
    let next_epoch_time = (epoch_id + 1) * epoch_seconds in
    (epoch_id, (next_epoch_time * 1_000_000 - now) / 1_000_000)
