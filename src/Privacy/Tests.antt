-- ===== src/Privacy/Tests.antt =====
-- Tests of the privacy budget and of the feature pipeline, and their theorems at concrete calls.
use reserach.Base.{◌≡◌, refl, true, false, some, [], ◌∷◌, arith, All}
use reserach.Base.Int.{pos, ◌-ℤ◌}
use reserach.Base.Float.{decimal, fmax, fmin}
use reserach.Privacy.{Key, Limits, refuses, get_epoch}
use reserach.Privacy.Script.{Hash, run_script, set_expiry}
use reserach.Privacy.Local.{Entry, remaining, budget_exhausted, in_memory_consume, read_reply}
use reserach.Privacy.Budget.{IsSound, run_script-IsSound}
use reserach.Privacy.Agree.{SameBudget, in_memory_consume-run_script}
use reserach.Privacy.Accountant.{
  Accountant, consume_budget, evaluate, cost_int, key_beq, IsWithin, consume_budget-IsWithin,
  failover_forgets,
}
use reserach.Privacy.Decimal.{decimal_real}
use reserach.Privacy.Features.{
  Features, Call, privatize_features, protect_all, privatize_value, add_noise, clamp,
  dp_feature_policy, respond, pack, DpResult,
}
use reserach.Privacy.Range.{HasDomain, privatize_features-HasDomain}

-- The defaults: epsilon 10 in all, 1 in reserve, half of one for each analysis.
abbrev limits : Limits
limits = record { max_budget = 10_000_000; reserved_budget = 1_000_000 }

abbrev spent : Hash
spent = record { consumed = 9_000_000; count = 1; seen = ("a", 9_000_000) ∷ []; ttl = some 60 }

-- The reserve stops a periodic analysis that an initial one would still be granted.
reserve_holds :
    ((run_script limits 60 "b" 500_000 "PERIODIC" spent).0.status ≡ 0)
    × ((run_script limits 60 "b" 500_000 "INITIAL" spent).0.status ≡ 2)
unfolding run_script refuses set_expiry ◌-ℤ◌
reserve_holds = (refl, refl)

run_script-IsSound_example : IsSound limits (run_script limits 60 "b" 500_000 "INITIAL" spent).1
run_script-IsSound_example = run_script-IsSound limits 60 "b" 500_000 "INITIAL" spent (ground arith)

abbrev same_spent : Entry
same_spent = record { consumed = 9_000_000; seen = "a" ∷ [] }

spent_same : SameBudget spent same_spent
spent_same = record { consumed = refl; seen = λ k. ground arith }

in_memory_consume-run_script_example :
    let (reply, h') = run_script limits 60 "b" 500_000 "INITIAL" spent in
    let (result, b') = in_memory_consume limits "b" 500_000 "INITIAL" same_spent in
    (read_reply limits reply ≡ result) × SameBudget h' b'
in_memory_consume-run_script_example =
    in_memory_consume-run_script limits 60 "b" 500_000 "INITIAL" spent same_spent (omega arith)
      spent_same

abbrev user_key : Key
user_key = record { user_id = "7"; epoch = 0 }

abbrev exhausted : Accountant
exhausted = record {
  redis_available = true;
  local_budget = [];
  redis =
      (
        user_key,
        record { consumed = 10_000_000; count = 1; seen = ("a", 10_000_000) ∷ []; ttl = some 9 },
      )
      ∷ [];
}

-- With Redis up the exhausted user is refused.
exhausted_refused :
    (consume_budget limits 24 5_000_000 true "7" (pos 500_000_000) "b" "INITIAL" exhausted).0
    ≡ budget_exhausted (pos 0)
unfolding consume_budget evaluate run_script refuses get_epoch cost_int key_beq read_reply ◌-ℤ◌
exhausted_refused = refl

-- With Redis down the same user has the whole budget again.
failover_forgets_example :
    let (result, a') =
      consume_budget limits 24 5_000_000 false "7" (pos 500_000_000) "b" "INITIAL" exhausted in
    (result ≡ remaining (pos 10_000_000 -ℤ pos (cost_int (pos 500_000_000))))
    × (a'.redis_available ≡ false)
    × (a'.redis ≡ exhausted.redis)
unfolding refuses cost_int ◌-ℤ◌
failover_forgets_example =
    failover_forgets limits 24 5_000_000 "7" (pos 500_000_000) "b" "INITIAL" exhausted refl refl
      refl

abbrev unused : Accountant
unused = record { redis_available = true; local_budget = []; redis = [] }

consume_budget-IsWithin_example :
    IsWithin limits
      (consume_budget limits 24 5_000_000 true "7" (pos 500_000_000) "b" "INITIAL" unused).1
consume_budget-IsWithin_example =
    consume_budget-IsWithin limits 24 5_000_000 true "7" (pos 500_000_000) "b" "INITIAL" unused
      (λ key. (omega arith, omega arith))

abbrev call : Call decimal decimal_real
call = record {
  dp_enabled = true;
  total_epsilon = pos 10;
  epsilon_per_analysis = 5000;
  epsilon_units = pos 500_000_000;
  epoch_hours = 24;
  now = 5_000_000;
  redis_reachable = true;
  user_id = "7";
  analysis_id = "b";
  analysis_class = "INITIAL";
  draw = λ name. 2500;
}

abbrev raw : Features decimal
raw =
    ("hour_of_day", record { number = 990000; is_int = true })
    ∷ ("archive_file_type", record { number = 10000; is_int = true })
    ∷ []

abbrev protected_call : DpResult decimal decimal_real
protected_call = record {
  features =
      ("hour_of_day", record { number = 230000; is_int = true })
      ∷ ("archive_file_type", record { number = 10000; is_int = true })
      ∷ [];
  applied = true;
  mechanism = "Laplace";
  epsilon_spent = 5000;
  remaining_budget = pos 9_500_000;
  protected_features = "hour_of_day" ∷ [];
}

privatize_features-HasDomain_example :
    All (HasDomain decimal decimal_real (DpResult.features protected_call)) dp_feature_policy
unfolding privatize_features respond pack protect_all privatize_value add_noise clamp consume_budget
    evaluate run_script refuses get_epoch cost_int key_beq read_reply set_expiry ◌-ℤ◌ fmax fmin
privatize_features-HasDomain_example =
    privatize_features-HasDomain decimal decimal_real limits call raw unused
      (privatize_features decimal decimal_real limits call raw unused).1 protected_call refl refl

-- Redis has been given up.
abbrev given_up : Accountant
given_up = record exhausted { redis_available = false }
