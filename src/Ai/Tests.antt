-- ===== src/Ai/Tests.antt =====
-- Tests of the analysis of a transfer, and its theorems at concrete transfers.
use reserach.Base.{◌≡◌, ◌↔◌, refl, Bool, true, false, String, none, some, [], ◌∷◌}
use reserach.Base.Int.{pos}
use reserach.Base.Dict.{Dict}
use reserach.Base.Float.{decimal, fmax, fmin}
use reserach.Privacy.{Limits}
use reserach.Privacy.Decimal.{decimal_real}
use reserach.Privacy.Features.{Call, privatize_features, unprotected}
use reserach.Ai.{low, medium, high_risk_type, Assessment}
use reserach.Ai.Heuristics.{Telemetry, dp_heuristic_assessment, deterministic_security_assessment}
use reserach.Ai.Scores.{IsFair, AllAllowed, assessments-IsFair}
use reserach.Ai.Features.{
  Policies, Rounding, Pipeline, Transfer, Analysis, Answer, assessed, media_answer,
}
use reserach.Ai.Grading.{Verdict}
use reserach.Ai.Analysis.{State, analyze_transfer}
use reserach.Ai.Levels.{InRange, analyze_transfer_bounds}
use reserach.Ai.Fallback.{decision}

-- All numbers have four decimals.
abbrev exact : Rounding decimal decimal_real
exact = record { round_4 = λ x. x; round_4_above = λ n x h. h; round_4_below = λ n x h. h }

-- A forest that finds nothing unusual.
abbrev calm : Pipeline decimal decimal_real
calm = record { decision_function = λ values. 4_000; is_outlier = λ values. false }

abbrev policies : Policies
policies = record {
  dp_exhaustion_policy = "fallback_heuristics";
  dp_accountant_fail_policy = "fail_closed";
  high_risk_extensions = "exe" ∷ "bat" ∷ "js" ∷ [];
}

abbrev script : Transfer decimal decimal_real
script = record {
  file_size_mb = 20_000;
  hour_of_day = 14;
  transfers_last_hour = 1;
  mfa_failed_attempts = 0;
  failed_login_attempts = 0;
  file_name = some "setup.JS";
  user_id = "7";
  analysis_id = some "t1:0:ab";
  is_trusted_ip = false;
}

-- The privacy service switched off, so that the features go through as they are.
abbrev plain_call : Call decimal decimal_real
plain_call = record {
  dp_enabled = false;
  total_epsilon = pos 10;
  epsilon_per_analysis = 5_000;
  epsilon_units = pos 500_000_000;
  epoch_hours = 24;
  now = 5_000_000;
  redis_reachable = false;
  user_id = "";
  analysis_id = "r";
  analysis_class = "INITIAL";
  draw = λ name. 0;
}

abbrev limits : Limits
limits = record { max_budget = 10_000_000; reserved_budget = 1_000_000 }

abbrev untouched : State decimal decimal_real
untouched = record {
  model = none;
  accountant = record { redis_available = false; local_budget = []; redis = [] };
}

analysis_of : Transfer decimal decimal_real → Answer decimal decimal_real
analysis_of t =
    (analyze_transfer decimal decimal_real exact 100_000 policies limits plain_call (some calm) t
      untouched).0

script_is_abnormal :
    decision decimal decimal_real (analysis_of script)
    ≡ some (true, 4_500, medium, "high-risk executable or script file type", high_risk_type ∷ [])
unfolding analysis_of analyze_transfer privatize_features unprotected dp_heuristic_assessment fmax
    fmin
script_is_abnormal = refl

-- The analysis in an answer.
abbrev found : Answer decimal decimal_real → Analysis decimal decimal_real
found (assessed a) = a
found _ = media_answer decimal decimal_real exact script

analyze_transfer_bounds_example :
    InRange decimal decimal_real (found (analysis_of script)).anomaly_score
unfolding analysis_of analyze_transfer privatize_features unprotected dp_heuristic_assessment fmax
    fmin
analyze_transfer_bounds_example =
    analyze_transfer_bounds decimal decimal_real exact 100_000 policies limits plain_call script
      untouched (some calm) (found (analysis_of script)) refl

-- A verdict with a score of 0.6 from the forest alone.
abbrev doubtful : Verdict decimal decimal_real
doubtful = record {
  is_anomaly = false;
  score = 6_000;
  level = low;
  reason = "normal secure transfer pattern";
}

abbrev telemetry : Telemetry decimal
telemetry = record {
  file_size_mb = 20_000_000;
  hour_of_day = 230_000;
  transfers_last_hour = 90_000;
  mfa_failed_attempts = 30_000;
  failed_login_attempts = 0;
  high_risk_file_type = false;
  archive_file_type = true;
}

-- Size 0.3, hour 0.15, frequency 0.3, MFA 0.35 and archive 0.35 are capped at 1.
many_rules : (dp_heuristic_assessment decimal 100_000 telemetry).risk ≡ 10_000
unfolding dp_heuristic_assessment fmax
many_rules = refl

assessments-IsFair_example :
    let d : Dict String Bool = ("high_risk_file_type", true) ∷ ("hour_of_day", true) ∷ [] in
    IsFair decimal (dp_heuristic_assessment decimal 100_000 telemetry)
    × (((a : Assessment decimal) × (deterministic_security_assessment decimal d ≡ some a)
          × IsFair decimal a)
        ↔ AllAllowed decimal d)
    × ((deterministic_security_assessment decimal d ≡ none) ↔ (¬ AllAllowed decimal d))
assessments-IsFair_example =
    assessments-IsFair decimal 100_000 telemetry
      (("high_risk_file_type", true) ∷ ("hour_of_day", true) ∷ [])
