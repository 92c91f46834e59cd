-- ===== src/Ai/Heuristics.antt =====
-- `dp_heuristic_assessment` and `deterministic_security_assessment` of `AIService`
-- (backend/app/services/ai_service.py).
use reserach.Base.{
  Bool, true, false, ◌&&◌, ◌||◌, not, String, Option, none, some, List, [], ◌∷◌, one_of, string_eq,
  if◌then◌else◌,
}
use reserach.Base.Dict.{Dict, lookup}
use reserach.Base.Float.{Float, fmax}
use reserach.Ai.{
  Rule, large_file, unusual_hour, many_transfers, elevated_frequency, mfa_failures, login_failures,
  high_risk_type, archive_after_failures, account_locked, authentication_failures, Assessment,
  apply_rule, assess, whole,
}

module _ (f : Float) where
  open f use {F, lit, le}

  -- The telemetry that the behavioural assessment is given, protected or not.
  pub record Telemetry : Type 0 where
    pub file_size_mb : F
    pub hour_of_day : F
    pub transfers_last_hour : F
    pub mfa_failed_attempts : F
    pub failed_login_attempts : F
    pub high_risk_file_type : Bool
    pub archive_file_type : Bool

  -- `file_size_mb >= max(settings.ai_large_file_mb, 1024.0)`
  unfoldable pub is_large : F → F → Bool
  is_large ai_large_file_mb file_size_mb = le (fmax f ai_large_file_mb (whole f 1_024)) file_size_mb

  -- `if transfers_last_hour >= 8: … elif transfers_last_hour >= 5: …`
  unfoldable pub apply_frequency : F → F × List Rule → F × List Rule
  unfolding apply_rule
  apply_frequency transfers_last_hour state =
      if le (whole f 8) transfers_last_hour
      then apply_rule f true many_transfers 3_000 state
      else apply_rule f (le (whole f 5) transfers_last_hour) elevated_frequency 1_800 state

  -- The rules of `dp_heuristic_assessment`, the first one innermost.
  unfoldable pub behavioural_rules : F → Telemetry → F × List Rule
  unfolding is_large apply_frequency apply_rule
  behavioural_rules ai_large_file_mb t =
      apply_rule f
        (t.archive_file_type
          && (le (whole f 2) t.mfa_failed_attempts || le (whole f 2) t.failed_login_attempts))
        archive_after_failures 3_500
        (apply_rule f t.high_risk_file_type high_risk_type 4_500 (
          apply_rule f (le (whole f 3) t.failed_login_attempts) login_failures 3_500 (
            apply_rule f (le (whole f 3) t.mfa_failed_attempts) mfa_failures 3_500 (
              apply_frequency t.transfers_last_hour (
                apply_rule f
                  (not (le (whole f 6) t.hour_of_day) || not (le t.hour_of_day (whole f 22)))
                  unusual_hour 1_500
                  (apply_rule f (is_large ai_large_file_mb t.file_size_mb) large_file 3_000
                    (lit 0, [])))))))

  unfoldable pub dp_heuristic_assessment : F → Telemetry → Assessment f
  unfolding behavioural_rules assess
  dp_heuristic_assessment ai_large_file_mb t = assess f (behavioural_rules ai_large_file_mb t)

abbrev pub deterministic_fallback_allowed_fields : List String
deterministic_fallback_allowed_fields =
    "file_size_violates_policy" ∷ "authentication_policy_violation" ∷ "account_locked"
    ∷ "high_risk_file_type" ∷ "archive_file_type" ∷ []

-- The loop over the keys: whether each is allowed.
unfoldable pub all_allowed : Dict String Bool → Bool
all_allowed [] = true
all_allowed ((key, value) ∷ features) =
    one_of key deterministic_fallback_allowed_fields && all_allowed features

-- The truth value of `fallback_features.get(key)`.
unfoldable pub is_set : String → Dict String Bool → Bool
is_set key features = elim (lookup string_eq key features) [ none ↦ false | some value ↦ value ]

module _ (f : Float) where
  open f use {F, lit}

  -- `if …account_locked…: … elif …authentication_policy_violation…: …`
  unfoldable pub apply_authentication : Dict String Bool → F × List Rule → F × List Rule
  unfolding is_set apply_rule
  apply_authentication features state =
      if is_set "account_locked" features
      then apply_rule f true account_locked 5_000 state
      else apply_rule f (is_set "authentication_policy_violation" features) authentication_failures
          4_000 state

  -- The rules of `deterministic_security_assessment`, the first one innermost.
  unfoldable pub deterministic_rules : Dict String Bool → F × List Rule
  unfolding is_set apply_authentication apply_rule
  deterministic_rules features =
      apply_rule f
        (is_set "archive_file_type" features && is_set "authentication_policy_violation" features)
        archive_after_failures 3_500
        (apply_rule f (is_set "high_risk_file_type" features) high_risk_type 4_500 (
          apply_authentication features (
            apply_rule f (is_set "file_size_violates_policy" features) large_file 3_000
              (lit 0, []))))

  -- `deterministic_security_assessment`; `none` is `ValueError`.
  unfoldable pub deterministic_security_assessment : Dict String Bool → Option (Assessment f)
  unfolding all_allowed deterministic_rules assess
  deterministic_security_assessment fallback_features =
      if all_allowed fallback_features
      then some (assess f (deterministic_rules fallback_features))
      else none
