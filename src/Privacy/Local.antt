-- ===== src/Privacy/Local.antt =====
-- `_in_memory_consume`: the fallback store, and what a caller of either store gets.
use reserach.Base.{ℕ, ◌+◌, Bool, str_eq, String, List, [], ◌∷◌, one_of, ◌==◌, if◌then◌else◌}
use reserach.Base.Int.{ℤ, pos, ◌-ℤ◌, ltb_ℤ}
use reserach.Privacy.{Limits}
use reserach.Privacy.Script.{Reply}

-- `{"consumed": 0, "seen": set()}`
pub record Entry : Type 0 where
  pub consumed : ℕ
  pub seen : List String

abbrev pub new_entry : Entry
new_entry = record { consumed = 0; seen = [] }

-- The remaining budget that is returned, and the exceptions, with the remaining budget they tell.
pub data Result : Type 0 where
  remaining : ℤ → Result
  budget_exhausted : ℤ → Result
  configuration_error accountant_unavailable : Result

-- What raises `PrivacyBudgetExhausted`, of the remaining budget.
unfoldable pub is_exhausted : Limits → String → ℕ → ℤ → Bool
is_exhausted limits analysis_class cost budget =
    if str_eq analysis_class "PERIODIC"
    then ltb_ℤ (budget -ℤ pos limits.reserved_budget) (pos cost)
    else ltb_ℤ budget (pos cost)

unfoldable pub in_memory_consume : Limits → String → ℕ → String → Entry → Result × Entry
unfolding is_exhausted
in_memory_consume limits analysis_id cost analysis_class b =
    if one_of analysis_id b.seen
    then (remaining (pos limits.max_budget -ℤ pos b.consumed), b)
    else if is_exhausted limits analysis_class cost (pos limits.max_budget -ℤ pos b.consumed)
    then (budget_exhausted (pos limits.max_budget -ℤ pos b.consumed), b)
    else (
      remaining (pos limits.max_budget -ℤ pos (b.consumed + cost)),
      record { consumed = b.consumed + cost; seen = analysis_id ∷ b.seen },
    )

-- What `consume_budget` makes of the script's reply.
unfoldable pub read_reply : Limits → Reply → Result
read_reply limits r =
    if r.status == 0
    then budget_exhausted (pos limits.max_budget -ℤ pos r.consumed)
    else remaining (pos limits.max_budget -ℤ pos r.consumed)
