-- ===== src/Ai/Levels.antt =====
-- The score and the level of an analysis.

use mathlib.Core.Path.{subst, subst⁻¹}
use reserach.Base.{
  ◌≡◌, refl, Bool, true, false, ◌||◌, ◌↔◌, String, Option, none, some, List, arith, inl, inr,
  Bool-cases, str_eq,
}
use reserach.Base.Float.{Float, fmin-le_left, fmax, fmin, le-fmax_left, fmax-le}
use reserach.Privacy.{Limits}
use reserach.Privacy.Features.{Real, Call, DpResult, Outcome, done, accountant_raised, value_error}
use reserach.Privacy.Local.{
  budget_exhausted, accountant_unavailable, remaining, configuration_error,
}
use reserach.Ai.{Level, low, medium, Assessment}
use reserach.Ai.Heuristics.{dp_heuristic_assessment, deterministic_security_assessment}
use reserach.Ai.Scores.{
  IsFair, dp_heuristic_assessment-IsFair, deterministic_security_assessment-IsFair,
}
use reserach.Ai.Features.{
  Policies, file_types, DpError, privacy_budget_exhausted, privacy_accountant_unavailable, Rounding,
  Pipeline, Transfer, Opinion, Analysis, Answer, assessed, ask_forest, media_answer, dp_values,
  protected_telemetry, fallback_features,
}
use reserach.Ai.Grading.{Verdict, grade, grade_available, grade_unavailable, relieve}
use reserach.Ai.Analysis.{
  State, analyze_protected, finish_fallback, analyze_fallback, handle, is_media, after_privacy,
  analyze_transfer, analyze_ready, ensure_model,
}

module _ (f : Float) (r : Real f) where
  open f use {F, lit, le, le_refl, le_trans, le_total, le-lit, sub, sub-le}

  -- Between 0 and 1.
  abbrev pub InRange : F → Type 0
  InRange x = (le (lit 0) x ≡ true) × (le x (lit 10_000) ≡ true)

  relieve-InRange :
      (t : Transfer f r) (v : Verdict f r) → InRange v.score → InRange (relieve f r t v).score
  unfolding relieve
  relieve-InRange t v h = ground (
    arith,
    le-fmax_left f (lit 0) (sub v.score (lit 2_000)),
    fmax-le f (lit 0) (sub v.score (lit 2_000)) (lit 10_000),
    le-lit 0 10_000,
    sub-le v.score 2_000,
    le_trans (sub v.score (lit 2_000)) v.score (lit 10_000),
  )

  ask_forest-InRange : (p : Pipeline f r) (xs : List F) → InRange (ask_forest f r p xs).ml_risk
  unfolding ask_forest
  ask_forest-InRange p xs =
      let x = sub (lit 5_000) (p.decision_function xs) in
      let capped = fmin f (lit 10_000) x in
      (
        le_trans (lit 0) (lit 100) (fmax f (lit 100) (fmin f (lit 10_000) x)) (le-lit 0 100)
            (le-fmax_left f (lit 100) (fmin f (lit 10_000) x)),
        fmax-le f (lit 100) (fmin f (lit 10_000) x) (lit 10_000) (le-lit 100 10_000)
            (fmin-le_left f (lit 10_000) x),
      )

  -- Of an untrusted transfer the level is low exactly where it is no anomaly.
  abbrev LowIff : Bool → Level → Type 0
  LowIff is_anomaly level = (is_anomaly ≡ false) ↔ (level ≡ low)

  grade-LowIff :
      (b : Bool) (x : F) (h : Assessment f) (s t : String)
      → ((grade f r b x h s t).score ≡ x)
        × LowIff (grade f r b x h s t).is_anomaly (grade f r b x h s t).level
  unfolding grade
  grade-LowIff b x h s t = ground arith

  -- What holds of a verdict before and after the relief.
  abbrev Graded : Transfer f r → Verdict f r → Type 0
  Graded t v =
      InRange v.score
      × (t.is_trusted_ip ≡ false
          → (v.is_anomaly ≡ false → v.level ≡ low) × (v.level ≡ low → v.is_anomaly ≡ false))

  relieve-Graded : (t : Transfer f r) (v : Verdict f r) → Graded t v → Graded t (relieve f r t v)
  unfolding relieve
  relieve-Graded t v h = (relieve-InRange t v h.0, λ untrusted. rw untrusted (h.1 untrusted))

  -- What holds of every answer.
  abbrev Fits : Transfer f r → Answer f r → Type 0
  Fits t (assessed a) =
      InRange a.anomaly_score
      × (t.is_trusted_ip ≡ false
          → (a.is_anomaly ≡ false → a.level ≡ low) × (a.level ≡ low → a.is_anomaly ≡ false))
  Fits t _ = Unit

  module _ (rounding : Rounding f r) where
    grade_available-Graded :
        (t : Transfer f r) (o : Opinion f r) (h : Assessment f)
        → InRange o.ml_risk
        → IsFair f h
        → Graded t (grade_available f r rounding o h)
    unfolding grade_available
    grade_available-Graded t o h a b =
        let x = fmax f o.ml_risk h.risk in
        let top : InRange x = (
          le_trans (lit 0) o.ml_risk x a.0 (le-fmax_left f o.ml_risk h.risk),
          fmax-le f o.ml_risk h.risk (lit 10_000) a.1 b.below,
        ) in
        let (score, level) =
          grade-LowIff (o.is_outlier || h.is_anomaly) (rounding.round_4 x) h
            "Isolation Forest detected a high-risk abnormal transfer pattern"
            "Isolation Forest detected an abnormal transfer pattern" in
        (
          subst⁻¹ InRange score
              (rounding.round_4_above 0 x top.0, rounding.round_4_below 10_000 x top.1),
          λ untrusted. level,
        )

    grade_unavailable-Graded :
        (t : Transfer f r) (e : DpError) (h : Assessment f)
        → IsFair f h
        → Graded t (grade_unavailable f r e h)
    unfolding grade_unavailable
    grade_unavailable-Graded t e h b =
        let (score, level) =
          grade-LowIff h.is_anomaly h.risk h "High risk transfer pattern"
            "Medium risk transfer pattern" in
        (subst⁻¹ InRange score (b.above, b.below), λ untrusted. level)

    module _ (large : F) (p : Policies) where
      analyze_protected-Fits :
          (pipeline : Pipeline f r) (t : Transfer f r) (types : Bool × Bool) (dp : DpResult f r)
          → Fits t (analyze_protected f r rounding large p pipeline t types dp)
      unfolding analyze_protected
      analyze_protected-Fits pipeline t types dp = relieve-Graded t _ (
          grade_available-Graded t (ask_forest f r pipeline (dp_values f r t types dp.features))
            (dp_heuristic_assessment f large (protected_telemetry f r t types dp.features))
            (ask_forest-InRange pipeline (dp_values f r t types dp.features))
            (dp_heuristic_assessment-IsFair f large (protected_telemetry f r t types dp.features)))

      finish_fallback-Fits :
          (e : DpError) (t : Transfer f r) (types : Bool × Bool) (o : Option (Assessment f))
          → ((h : Assessment f) → o ≡ some h → IsFair f h)
          → Fits t (finish_fallback f r rounding large p e t types o)
      unfolding finish_fallback
      finish_fallback-Fits e t types none fair = tt
      finish_fallback-Fits e t types (some h) fair =
          relieve-Graded t (grade_unavailable f r e h)
            (grade_unavailable-Graded t e h (fair h refl))

      analyze_fallback-Fits :
          (e : DpError) (t : Transfer f r) (types : Bool × Bool)
          → Fits t (analyze_fallback f r rounding large p e t types)
      unfolding analyze_fallback
      analyze_fallback-Fits e t types =
          let d = fallback_features f r large t types in
          finish_fallback-Fits e t types (deterministic_security_assessment f d)
            (deterministic_security_assessment-IsFair f d)

      handle-Fits :
          (e : DpError) (t : Transfer f r) (types : Bool × Bool)
          → Fits t (handle f r rounding large p e t types)
      unfolding handle
      handle-Fits privacy_budget_exhausted t types =
          elim (Bool-cases (str_eq p.dp_exhaustion_policy "fail_closed")) [
            | inl closed ↦ rw closed tt
            | inr other ↦ rw other (analyze_fallback-Fits privacy_budget_exhausted t types)
          ]
      handle-Fits privacy_accountant_unavailable t types =
          elim (Bool-cases (str_eq p.dp_accountant_fail_policy "fail_closed")) [
            | inl closed ↦ rw closed tt
            | inr other ↦ rw other (analyze_fallback-Fits privacy_accountant_unavailable t types)
          ]

      after_privacy-Fits :
          (pipeline : Pipeline f r) (t : Transfer f r) (types : Bool × Bool) (o : Outcome f r)
          → Fits t (after_privacy f r rounding large p pipeline t types o)
      unfolding after_privacy
      after_privacy-Fits pipeline t types (done dp) = analyze_protected-Fits pipeline t types dp
      after_privacy-Fits pipeline t types (accountant_raised (budget_exhausted left)) =
          handle-Fits privacy_budget_exhausted t types
      after_privacy-Fits pipeline t types (accountant_raised accountant_unavailable) =
          handle-Fits privacy_accountant_unavailable t types
      after_privacy-Fits pipeline t types (accountant_raised (remaining left)) = tt
      after_privacy-Fits pipeline t types (accountant_raised configuration_error) = tt
      after_privacy-Fits pipeline t types value_error = tt

      media_answer-Fits : (t : Transfer f r) → Fits t (assessed (media_answer f r rounding t))
      unfolding media_answer
      media_answer-Fits t =
          ((le-lit 0 1_500, le-lit 1_500 10_000), λ untrusted. (λ _. refl, λ _. refl))

      module _ (limits : Limits) (c : Call f r) (t : Transfer f r) (s : State f r) where
        analyze_ready-Fits :
            (model : Option (Pipeline f r))
            → Fits t (analyze_ready f r rounding large p limits c t s model).0
        unfolding analyze_ready
        analyze_ready-Fits none = tt
        analyze_ready-Fits (some pipeline) =
            after_privacy-Fits pipeline t (file_types p t.file_name) _

        analyze_transfer-Fits :
            (trained : Option (Pipeline f r))
            → Fits t (analyze_transfer f r rounding large p limits c trained t s).0
        unfolding analyze_transfer
        analyze_transfer-Fits trained = elim (Bool-cases (is_media t.file_name)) [
          | inl media ↦ rw media (media_answer-Fits t)
          | inr other ↦ rw other (analyze_ready-Fits (ensure_model f r s.model trained))
        ]

        -- Whatever path gives the answer (video, protected features, fallback), and whatever was drawn
        -- as noise, the score lies between 0 and 1.
        pub analyze_transfer_bounds :
            (trained : Option (Pipeline f r)) (a : Analysis f r)
            → (analyze_transfer f r rounding large p limits c trained t s).0 ≡ assessed a
            → InRange a.anomaly_score
        analyze_transfer_bounds trained a h = (subst (Fits t) h (analyze_transfer-Fits trained)).0

        -- For an address that is not trusted, the level is low exactly when the transfer is no anomaly.
        pub analyze_transfer_low_iff :
            (trained : Option (Pipeline f r)) (a : Analysis f r)
            → t.is_trusted_ip ≡ false
            → (analyze_transfer f r rounding large p limits c trained t s).0 ≡ assessed a
            → (a.is_anomaly ≡ false) ↔ (a.level ≡ low)
        analyze_transfer_low_iff trained a untrusted h =
            (subst (Fits t) h (analyze_transfer-Fits trained)).1 untrusted

  -- The relief for a trusted address can raise the level: a verdict that is no anomaly and of level low,
  -- with a score that stays between 0.35 and 0.8 once it is lowered by 0.2, keeps its level for any other
  -- address and gets level medium for a trusted one.
  pub relieve_raises :
      (t : Transfer f r) (v : Verdict f r)
      → v.level ≡ low
      → le (lit 3_500) v.score ≡ true
      → le (lit 3_500) (fmax f (lit 0) (sub v.score (lit 2_000))) ≡ true
      → le (lit 8_000) (fmax f (lit 0) (sub v.score (lit 2_000))) ≡ false
      → ((relieve f r (record t { is_trusted_ip = false }) v).level ≡ low)
        × ((relieve f r (record t { is_trusted_ip = true }) v).level ≡ medium)
        × ((relieve f r (record t { is_trusted_ip = true }) v).is_anomaly ≡ v.is_anomaly)
  unfolding relieve
  relieve_raises t v l a b c = ground arith
