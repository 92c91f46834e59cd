-- ===== src/Ai/Analysis.antt =====
-- `ensure_model` and `analyze_transfer` of `AIService` (backend/app/services/ai_service.py). What
-- training gives is a parameter; the fixed texts of the answer are left out.
use reserach.Base.{
  Bool, false, String, Option, none, some, one_of, str_eq, extension, if◌then◌else◌,
}
use reserach.Base.Float.{Float}
use reserach.Malware.{media_extensions}
use reserach.Privacy.{Limits}
use reserach.Privacy.Local.{budget_exhausted, accountant_unavailable}
use reserach.Privacy.Accountant.{Accountant}
use reserach.Privacy.Features.{
  Real, Call, DpResult, Outcome, done, accountant_raised, value_error, privatize_features,
}
use reserach.Ai.{Assessment}
use reserach.Ai.Heuristics.{dp_heuristic_assessment, deterministic_security_assessment}
use reserach.Ai.Features.{
  Policies, file_types, DpError, privacy_budget_exhausted, privacy_accountant_unavailable,
  policy_for, Rounding, Pipeline, Transfer, Answer, assessed, transfer_blocked, service_unavailable,
  value_raised, training_raised, media_answer, raw_features, protected_telemetry, dp_values,
  ask_forest, fallback_features, privacy_call,
}
use reserach.Ai.Grading.{grade_available, grade_unavailable, relieve, answer_with}

-- `file_name` with one of the extensions of a video.
unfoldable pub is_media : Option String → Bool
unfolding extension
is_media none = false
is_media (some file_name) = one_of (extension file_name) media_extensions

module _ (f : Float) (r : Real f) where
  open f use {F, lit, le, add, sub}

  -- The state that calls share: the trained model, and the budgets.
  pub record State : Type 0 where
    pub model : Option (Pipeline f r)
    pub accountant : Accountant

  -- `ensure_model`: training is asked only where there is no model yet.
  unfoldable pub ensure_model :
      Option (Pipeline f r) → Option (Pipeline f r) → Option (Pipeline f r)
  ensure_model none trained = trained
  ensure_model (some pipeline) trained = some pipeline

  module _ (rounding : Rounding f r) (ai_large_file_mb : F) (p : Policies) where
    -- With protected features the forest and the behavioural rules decide.
    unfoldable pub analyze_protected :
        Pipeline f r → Transfer f r → Bool × Bool → DpResult f r → Answer f r
    unfolding protected_telemetry dp_values ask_forest grade_available relieve answer_with
    analyze_protected pipeline t types dp =
        let opinion = ask_forest f r pipeline (dp_values f r t types dp.features) in
        let h =
          dp_heuristic_assessment f ai_large_file_mb
            (protected_telemetry f r t types dp.features) in
        answer_with f r rounding t types (some opinion) h dp.features (some dp)
          (relieve f r t (grade_available f r rounding opinion h))

    -- "Strict Deterministic Fallback"
    unfoldable pub finish_fallback :
        DpError → Transfer f r → Bool × Bool → Option (Assessment f) → Answer f r
    unfolding grade_unavailable relieve answer_with raw_features
    finish_fallback e t types none = value_raised
    finish_fallback e t types (some h) =
        answer_with f r rounding t types none h (raw_features f r t types) none
          (relieve f r t (grade_unavailable f r e h))

    unfoldable pub analyze_fallback : DpError → Transfer f r → Bool × Bool → Answer f r
    unfolding fallback_features finish_fallback
    analyze_fallback e t types =
        finish_fallback e t types
          (deterministic_security_assessment f (fallback_features f r ai_large_file_mb t types))

    -- The handler of the accountant's exceptions.
    unfoldable pub handle : DpError → Transfer f r → Bool × Bool → Answer f r
    unfolding analyze_fallback
    handle e t types =
        if str_eq (policy_for p e) "fail_closed"
        then elim e [
          | privacy_budget_exhausted ↦ transfer_blocked
          | privacy_accountant_unavailable ↦ service_unavailable
        ]
        else analyze_fallback e t types

    unfoldable pub after_privacy :
        Pipeline f r → Transfer f r → Bool × Bool → Outcome f r → Answer f r
    unfolding analyze_protected handle
    after_privacy pipeline t types (done dp) = analyze_protected pipeline t types dp
    after_privacy pipeline t types (accountant_raised (budget_exhausted left)) =
        handle privacy_budget_exhausted t types
    after_privacy pipeline t types (accountant_raised accountant_unavailable) =
        handle privacy_accountant_unavailable t types
    after_privacy pipeline t types (accountant_raised other) = value_raised
    after_privacy pipeline t types value_error = value_raised

    unfoldable pub analyze_with :
        Limits → Call f r → Pipeline f r → Transfer f r → Accountant → Answer f r × Accountant
    unfolding file_types privacy_call raw_features after_privacy
    analyze_with limits c pipeline t a =
        let types = file_types p t.file_name in
        let (outcome, a') =
          privatize_features f r limits (privacy_call f r c t) (raw_features f r t types) a in
        (after_privacy pipeline t types outcome, a')

    -- What follows `cls.ensure_model()`.
    unfoldable pub analyze_ready :
        Limits → Call f r → Transfer f r → State → Option (Pipeline f r) → Answer f r × State
    unfolding analyze_with
    analyze_ready limits c t s none = (training_raised, s)
    analyze_ready limits c t s (some pipeline) =
        let (answer, a') = analyze_with limits c pipeline t s.accountant in
        (answer, record { model = some pipeline; accountant = a' })

    -- `analyze_transfer`, with what training would give (`none` is an exception) and the settings and
    -- random draws of the privacy service, among them the identifier for a call that brings none.
    unfoldable pub analyze_transfer :
        Limits → Call f r → Option (Pipeline f r) → Transfer f r → State → Answer f r × State
    unfolding is_media media_answer ensure_model analyze_ready
    analyze_transfer limits c trained t s =
        if is_media t.file_name
        then (assessed (media_answer f r rounding t), s)
        else analyze_ready limits c t s (ensure_model s.model trained)
