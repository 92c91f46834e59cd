-- ===== src/Ai/Grading.antt =====
-- How `analyze_transfer` of `AIService` (backend/app/services/ai_service.py) grades a transfer.
use reserach.Base.{
  ◌+◌, Bool, true, false, ◌&&◌, ◌||◌, not, String, Option, none, some, List, [], ◌∷◌, if◌then◌else◌,
}
use Prim.Native.String.{◌++◌ as text_append}
use reserach.Base.Float.{Float, fmax}
use reserach.Privacy.Features.{Real, Features, DpResult}
use reserach.Ai.{Level, low, medium, high, is_high, Assessment, whole, reason_text, normal_pattern}
use reserach.Ai.Features.{
  DpError, dp_err_msg, Rounding, Transfer, Opinion, Answer, assessed, one_if, ratio_of, unusual,
}

module _ (f : Float) (r : Real f) where
  open f use {F, lit, le, add, sub}

  -- What is known after the assessments: whether the transfer is abnormal, the score, the level and the
  -- reason.
  pub record Verdict : Type 0 where
    pub is_anomaly : Bool
    pub score : F
    pub level : Level
    pub reason : String

  -- The level and the reason, from the score, the assessment and the two texts without a rule.
  unfoldable pub grade : Bool → F → Assessment f → String → String → Verdict
  unfolding reason_text
  grade is_anomaly score h high_text medium_text =
      if not is_anomaly
      then record { is_anomaly = false; score = score; level = low; reason = normal_pattern }
      else if le (lit 8_000) score || is_high h.level
      then record {
        is_anomaly = true;
        score = score;
        level = high;
        reason = if h.is_anomaly then reason_text h.rules else high_text;
      }
      else record {
        is_anomaly = true;
        score = score;
        level = medium;
        reason = if h.is_anomaly then reason_text h.rules else medium_text;
      }

  -- With the forest's opinion.
  unfoldable pub grade_available : Rounding f r → Opinion f r → Assessment f → Verdict
  unfolding grade
  grade_available rounding o h =
      grade (o.is_outlier || h.is_anomaly) (rounding.round_4 (fmax f o.ml_risk h.risk)) h
        "Isolation Forest detected a high-risk abnormal transfer pattern"
        "Isolation Forest detected an abnormal transfer pattern"

  -- Without it: the reason says why.
  unfoldable pub grade_unavailable : DpError → Assessment f → Verdict
  unfolding grade
  grade_unavailable e h =
      let v =
        grade h.is_anomaly h.risk h "High risk transfer pattern" "Medium risk transfer pattern" in
      record v {
        reason = text_append "AI behavioural assessment unavailable: " (
            text_append (dp_err_msg e)
              (text_append ". Independent security controls remain active. " v.reason));
      }

  -- "AI Threshold & Weight Tuning": the relief for a trusted address, whose hour is never unusual.
  unfoldable pub relieve : Transfer f r → Verdict → Verdict
  relieve t v =
      if t.is_trusted_ip && le (lit 3_500) v.score
      then (let score = fmax f (lit 0) (sub v.score (lit 2_000)) in
          if not (le (lit 3_500) score)
          then record v { is_anomaly = false; score = score; level = low }
          else if not (le (lit 8_000) score)
          then record v { score = score; level = medium }
          else record v { score = score })
      else v

  -- "CONTEXT VECTOR (C) GENERATION"
  unfoldable pub context_vector :
      Rounding f r → Transfer f r → Bool × Bool → Option (Opinion f r) → List F
  unfolding ratio_of unusual
  context_vector rounding t (high_risk, archive) opinion =
      ratio_of f r rounding t.file_size_mb 100
      ∷ one_if f r (unusual f r t)
      ∷ ratio_of f r rounding (whole f t.transfers_last_hour) 10
      ∷ ratio_of f r rounding (whole f (t.mfa_failed_attempts + t.failed_login_attempts)) 5
      ∷ (if high_risk then whole f 1 else if archive then lit 5_000 else lit 0)
      ∷ elim opinion [ none ↦ lit 0 | some o ↦ rounding.round_4 o.ml_risk ]
      ∷ []

  unfoldable pub answer_with :
      Rounding f r
      → Transfer f r
      → Bool × Bool
      → Option (Opinion f r)
      → Assessment f
      → Features f
      → Option (DpResult f r)
      → Verdict
      → Answer f r
  unfolding context_vector
  answer_with rounding t types opinion h features dp v = assessed (record {
    is_anomaly = v.is_anomaly;
    anomaly_score = v.score;
    level = v.level;
    reason = v.reason;
    context_vector_c = context_vector rounding t types opinion;
    opinion = opinion;
    triggered_rules = h.rules;
    features = features;
    dp_result = dp;
  })
