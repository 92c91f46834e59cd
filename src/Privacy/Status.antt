-- ===== src/Privacy/Status.antt =====
-- `get_budget_status` of `PrivacyBudgetAccountant`
-- (backend/app/security/privacy/differential_privacy.py). It asks Redis also where `consume_budget` has
-- given Redis up.
use reserach.Base.{ℕ, ◌≡◌, Bool, true, false, String, length, arith, if◌then◌else◌}
use reserach.Base.Int.{ℤ, pos, ◌-ℤ◌, ltb_ℤ}
use reserach.Privacy.{Key, Limits, get_epoch}
use reserach.Privacy.Accountant.{Accountant, hash_of, entry_of, consume_budget, fall_back}

-- The dictionary that is returned.
pub record BudgetStatus : Type 0 where
  pub available : Bool
  pub consumed : ℕ
  pub remaining : ℤ
  pub count : ℕ
  pub epoch_id : ℕ
  pub ttl : ℕ

unfoldable pub status_of : Limits → ℕ × ℕ → ℕ → ℕ → BudgetStatus
status_of limits (epoch, ttl) consumed count =
    let remaining = pos limits.max_budget -ℤ pos consumed in
    record {
      available = ltb_ℤ (pos 0) remaining;
      consumed = consumed;
      remaining = remaining;
      count = count;
      epoch_id = epoch;
      ttl = ttl;
    }

unfoldable pub get_budget_status : Limits → ℕ → ℕ → Bool → String → Accountant → BudgetStatus
unfolding status_of
get_budget_status limits epoch_hours now redis_reachable user_id a =
    let key : Key = record { user_id = user_id; epoch = (get_epoch epoch_hours now).0 } in
    if redis_reachable
    then status_of limits (get_epoch epoch_hours now) (hash_of key a).consumed (hash_of key a).count
    else status_of limits (get_epoch epoch_hours now) (entry_of key a).consumed
        (length (entry_of key a).seen)

-- Once Redis has been given up, the charges go to memory; if Redis can be reached again, the status does
-- not show them: it is the same before and after any call of `consume_budget`.
pub get_budget_status_stale :
    (limits : Limits) (epoch_hours now later : ℕ) (reachable : Bool) (user other : String)
    (epsilon : ℤ) (analysis_id analysis_class : String) (a : Accountant)
    → a.redis_available ≡ false
    → get_budget_status limits epoch_hours later true other
        (consume_budget limits epoch_hours now reachable user epsilon analysis_id analysis_class
          a).1
      ≡ get_budget_status limits epoch_hours later true other a
unfolding get_budget_status consume_budget fall_back
get_budget_status_stale limits epoch_hours now later reachable user other epsilon analysis_id
      analysis_class a h =
    ground arith
