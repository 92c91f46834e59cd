-- ===== src/Ai/Features.antt =====
-- The inputs of `analyze_transfer` of `AIService` (backend/app/services/ai_service.py), and what it
-- hands to the privacy service, to the forest and to the two assessments.
use reserach.Base.{
  ℕ, ◌≡◌, Bool, true, false, ◌&&◌, ◌||◌, not, String, Option, none, some, List, [], ◌∷◌, one_of,
  string_eq, str_eq, has_char, ltb, leb, if◌then◌else◌,
}
use reserach.Base.Dict.{Dict, lookup}
use reserach.Base.Float.{Float, fmax, fmin}
use reserach.Privacy.Features.{Real, Value, Features, Call, DpResult}
use reserach.Ai.{Rule, Level, low, whole, file_extension}
use reserach.Ai.Heuristics.{Telemetry, is_large}

-- `ARCHIVE_EXTENSIONS`
abbrev pub archive_extensions : List String
archive_extensions = "zip" ∷ "rar" ∷ "7z" ∷ "tar" ∷ "gz" ∷ []

-- The settings that the service reads; the extensions are the set made of
-- `ai_high_risk_file_extensions`.
pub record Policies : Type 0 where
  pub dp_exhaustion_policy : String
  pub dp_accountant_fail_policy : String
  pub high_risk_extensions : List String

-- `file_type_features`
unfoldable pub file_type_features : Policies → String → Bool × Bool
unfolding file_extension
file_type_features p file_name =
    let ext = file_extension file_name in
    (one_of ext p.high_risk_extensions, one_of ext archive_extensions)

-- `cls.file_type_features(file_name)`, which is 0 and 0 for no name.
unfoldable pub file_types : Policies → Option String → Bool × Bool
unfolding file_type_features
file_types p none = (false, false)
file_types p (some file_name) = file_type_features p file_name

-- The analysis class: a colon in the identifier marks a periodic request of the monitor.
unfoldable pub analysis_class : Option String → String
unfolding has_char
analysis_class none = "INITIAL"
analysis_class (some analysis_id) = if has_char b':' analysis_id then "PERIODIC" else "INITIAL"

-- Which exception of the accountant was handled.
pub data DpError : Type 0 where
  privacy_budget_exhausted privacy_accountant_unavailable : DpError

abbrev pub dp_err_msg : DpError → String
dp_err_msg privacy_budget_exhausted = "privacy budget exhausted"
dp_err_msg privacy_accountant_unavailable = "privacy accountant unavailable"

abbrev pub policy_for : Policies → DpError → String
policy_for p privacy_budget_exhausted = p.dp_exhaustion_policy
policy_for p privacy_accountant_unavailable = p.dp_accountant_fail_policy

module _ (f : Float) (r : Real f) where
  open f use {F, lit, le, add, sub}

  -- `round(x, 4)`, which keeps the bounds that have four decimals.
  pub record Rounding : Type 0 where
    pub round_4 : F → F
    pub round_4_above : (n : ℕ) (x : F) → le (lit n) x ≡ true → le (lit n) (round_4 x) ≡ true
    pub round_4_below : (n : ℕ) (x : F) → le x (lit n) ≡ true → le (round_4 x) (lit n) ≡ true

  -- The trained pipeline: `decision_function`, and whether `predict` gives -1.
  pub record Pipeline : Type 0 where
    pub decision_function : List F → F
    pub is_outlier : List F → Bool

  -- What `analyze_transfer` is given.
  pub record Transfer : Type 0 where
    pub file_size_mb : F
    pub hour_of_day : ℕ
    pub transfers_last_hour : ℕ
    pub mfa_failed_attempts : ℕ
    pub failed_login_attempts : ℕ
    pub file_name : Option String
    pub user_id : String
    pub analysis_id : Option String
    pub is_trusted_ip : Bool

  -- What the forest says, where it was asked.
  pub record Opinion : Type 0 where
    pub ml_risk : F
    pub decision : F
    pub is_outlier : Bool

  -- The dictionary that is returned; `raw` features in the fallback, protected ones otherwise.
  pub record Analysis : Type 0 where
    pub is_anomaly : Bool
    pub anomaly_score : F
    pub level : Level
    pub reason : String
    pub context_vector_c : List F
    pub opinion : Option Opinion
    pub triggered_rules : List Rule
    pub features : Features f
    pub dp_result : Option (DpResult f r)

  -- A return, or an exception: `TransferBlockedError`, the status 503, the `ValueError` of the privacy
  -- service or of the fallback, and what training raises.
  pub data Answer : Type 0 where
    assessed : Analysis → Answer
    transfer_blocked service_unavailable value_raised training_raised : Answer

  abbrev pub flag : Bool → Value f
  flag b = record { number = if b then whole f 1 else lit 0; is_int = true }

  abbrev pub count_value : ℕ → Value f
  count_value n = record { number = whole f n; is_int = true }

  abbrev pub one_if : Bool → F
  one_if b = if b then whole f 1 else lit 0

  -- `min(x / n, 1.0)`, rounded
  unfoldable pub ratio_of : Rounding → F → ℕ → F
  ratio_of rounding x n = rounding.round_4 (fmin f (r.div x (whole f n)) (whole f 1))

  -- The answer for a safe media file.
  unfoldable pub media_answer : Rounding → Transfer → Analysis
  unfolding ratio_of
  media_answer rounding t = record {
    is_anomaly = false;
    anomaly_score = lit 1_500;
    level = low;
    reason = "Safe media file";
    context_vector_c =
        ratio_of rounding t.file_size_mb 100 ∷ lit 0 ∷ lit 0 ∷ lit 0 ∷ lit 0 ∷ lit 1_500 ∷ [];
    opinion = none;
    triggered_rules = [];
    features =
        ("file_size_mb", record { number = t.file_size_mb; is_int = false })
        ∷ ("hour_of_day", count_value t.hour_of_day)
        ∷ ("transfers_last_hour", count_value t.transfers_last_hour)
        ∷ ("mfa_failed_attempts", count_value t.mfa_failed_attempts)
        ∷ ("failed_login_attempts", count_value t.failed_login_attempts)
        ∷ ("is_unusual_hour", flag false)
        ∷ ("high_risk_file_type", flag false)
        ∷ ("archive_file_type", flag false)
        ∷ [];
    dp_result = none;
  }

  -- `hour_of_day < 6 or hour_of_day > 22`, and never for a trusted address.
  unfoldable pub unusual : Transfer → Bool
  unusual t = if t.is_trusted_ip then false else ltb t.hour_of_day 6 || ltb 22 t.hour_of_day

  -- `raw_features`
  unfoldable pub raw_features : Transfer → Bool × Bool → Features f
  unfolding unusual
  raw_features t (high_risk, archive) =
      ("file_size_mb", record { number = t.file_size_mb; is_int = false })
      ∷ ("hour_of_day", count_value t.hour_of_day)
      ∷ ("transfers_last_hour", count_value t.transfers_last_hour)
      ∷ ("mfa_failed_attempts", count_value t.mfa_failed_attempts)
      ∷ ("failed_login_attempts", count_value t.failed_login_attempts)
      ∷ ("is_unusual_hour", flag (unusual t))
      ∷ ("high_risk_file_type", flag high_risk)
      ∷ ("archive_file_type", flag archive)
      ∷ []

  -- `privatized.get(name, default)`
  unfoldable pub value_of : String → F → Features f → F
  value_of name other features = elim (lookup string_eq name features) [
    | none ↦ other
    | some v ↦ v.number
  ]

  -- Whether a number is not 0.
  abbrev pub truthy : F → Bool
  truthy x = not (le x (lit 0) && le (lit 0) x)

  -- The telemetry that the behavioural assessment gets: `dp_values`.
  unfoldable pub protected_telemetry : Transfer → Bool × Bool → Features f → Telemetry f
  unfolding value_of
  protected_telemetry t (high_risk, archive) features = record {
    file_size_mb = value_of "file_size_mb" t.file_size_mb features;
    hour_of_day = value_of "hour_of_day" (whole f t.hour_of_day) features;
    transfers_last_hour = value_of "transfers_last_hour" (whole f t.transfers_last_hour) features;
    mfa_failed_attempts = value_of "mfa_failed_attempts" (whole f t.mfa_failed_attempts) features;
    failed_login_attempts =
        value_of "failed_login_attempts" (whole f t.failed_login_attempts) features;
    high_risk_file_type = truthy (value_of "high_risk_file_type" (one_if high_risk) features);
    archive_file_type = truthy (value_of "archive_file_type" (one_if archive) features);
  }

  -- `dp_values`, as the forest is given them.
  unfoldable pub dp_values : Transfer → Bool × Bool → Features f → List F
  unfolding value_of unusual
  dp_values t (high_risk, archive) features =
      value_of "file_size_mb" t.file_size_mb features
      ∷ value_of "hour_of_day" (whole f t.hour_of_day) features
      ∷ value_of "transfers_last_hour" (whole f t.transfers_last_hour) features
      ∷ value_of "mfa_failed_attempts" (whole f t.mfa_failed_attempts) features
      ∷ value_of "failed_login_attempts" (whole f t.failed_login_attempts) features
      ∷ value_of "is_unusual_hour" (one_if (unusual t)) features
      ∷ value_of "high_risk_file_type" (one_if high_risk) features
      ∷ value_of "archive_file_type" (one_if archive) features
      ∷ []

  -- "1. ML Isolation Forest Anomaly Detection"
  unfoldable pub ask_forest : Pipeline → List F → Opinion
  ask_forest pipeline values =
      let decision = pipeline.decision_function values in
      record {
        ml_risk = fmax f (lit 100) (fmin f (whole f 1) (sub (lit 5_000) decision));
        decision = decision;
        is_outlier = pipeline.is_outlier values;
      }

  -- The fallback's allowed inputs.
  unfoldable pub fallback_features : F → Transfer → Bool × Bool → Dict String Bool
  unfolding is_large
  fallback_features ai_large_file_mb t (high_risk, archive) =
      ("file_size_violates_policy", is_large f ai_large_file_mb t.file_size_mb)
      ∷ (
        "authentication_policy_violation",
        leb 3 t.mfa_failed_attempts || leb 3 t.failed_login_attempts,
      )
      ∷ ("account_locked", false)
      ∷ ("high_risk_file_type", high_risk)
      ∷ ("archive_file_type", archive)
      ∷ []

  -- What the privacy service is called with.
  unfoldable pub privacy_call : Call f r → Transfer → Call f r
  unfolding analysis_class
  privacy_call c t = record c {
    user_id = t.user_id;
    analysis_id = elim t.analysis_id [
      | none ↦ c.analysis_id
      | some i ↦ if str_eq i "" then c.analysis_id else i
    ];
    analysis_class = analysis_class t.analysis_id;
  }
