-- ===== src/Ai/Scores.antt =====
-- The risk of an assessment and the score of an analysis lie between 0 and 1, and a risk weighs at least
-- as much as each rule that it names.
use mathlib.Core.Path.{subst}
use reserach.Base.{
  ℕ, ◌≤◌, ◌≡◌, refl, ◌∙◌, ◌↔◌, one_of, some_inj, Bool, true, false, not, ◌&&◌, ◌||◌, String, none,
  some, List, [], ◌∷◌, All, All-append, All-imp, arith, inl, inr, Bool-cases, le→leb,
}
use reserach.Base.Dict.{Dict}
use reserach.Base.Float.{Float}
use reserach.Ai.{
  Rule, large_file, unusual_hour, many_transfers, elevated_frequency, mfa_failures, login_failures,
  high_risk_type, archive_after_failures, account_locked, authentication_failures, Assessment,
  apply_rule, assess, whole,
}
use reserach.Ai.Heuristics.{
  Telemetry, is_large, apply_frequency, behavioural_rules, dp_heuristic_assessment, is_set,
  apply_authentication, deterministic_rules, deterministic_security_assessment, all_allowed,
  deterministic_fallback_allowed_fields,
}

-- What each rule adds to the risk, in ten-thousandths.
abbrev pub weight : Rule → ℕ
weight large_file = 3_000
weight unusual_hour = 1_500
weight many_transfers = 3_000
weight elevated_frequency = 1_800
weight mfa_failures = 3_500
weight login_failures = 3_500
weight high_risk_type = 4_500
weight archive_after_failures = 3_500
weight account_locked = 5_000
weight authentication_failures = 4_000

weight_bounded : (g : Rule) → weight g ≤ 10_000
weight_bounded large_file = omega arith
weight_bounded _ = omega arith

module _ (f : Float) where
  open f use {F, lit, le, le_refl, le_trans, le_total, le-lit, add, zero_add, le-add, add-mono}

  -- A risk that is at least 0 and at least the weight of each rule.
  pub Weighs : F × List Rule → Type 0
  Weighs s = (le (lit 0) s.0 ≡ true) × All (λ (g : Rule). le (lit (weight g)) s.0 ≡ true) s.1

  raised :
      (risk risk' : F) (rules : List Rule)
      → le risk risk' ≡ true
      → All (λ (g : Rule). le (lit (weight g)) risk ≡ true) rules
      → All (λ (g : Rule). le (lit (weight g)) risk' ≡ true) rules
  raised risk risk' rules h =
      All-imp (λ g. le (lit (weight g)) risk ≡ true) (λ g. le (lit (weight g)) risk' ≡ true) rules
        (λ g k. le_trans (lit (weight g)) risk risk' k h)

  apply_rule-Weighs :
      (holds : Bool) (g : Rule) (s : F × List Rule)
      → Weighs s
      → Weighs (apply_rule f holds g (weight g) s)
  unfolding apply_rule Weighs
  apply_rule-Weighs true g s h =
      let up = le-add s.0 (weight g) in
      let risk' = add s.0 (lit (weight g)) in
      let own : le (lit (weight g)) risk' ≡ true =
        rw (zero_add (weight g)) at (add-mono (lit 0) s.0 (weight g) h.0) in
      (
        le_trans (lit 0) s.0 risk' h.0 up,
        All-append (λ (x : Rule). le (lit (weight x)) risk' ≡ true) s.1 (g ∷ [])
            (raised s.0 risk' s.1 up h.1) (own, tt),
      )
  apply_rule-Weighs false g s h = h

  nothing-Weighs : Weighs (lit 0, [])
  unfolding Weighs
  nothing-Weighs = (le_refl (lit 0), tt)

  apply_frequency-Weighs : (x : F) (s : F × List Rule) → Weighs s → Weighs (apply_frequency f x s)
  unfolding apply_frequency
  apply_frequency-Weighs x s h = elim (Bool-cases (le (whole f 8) x)) [
    | inl many ↦ rw many (apply_rule-Weighs true many_transfers s h)
    | inr few ↦ rw few (apply_rule-Weighs (le (whole f 5) x) elevated_frequency s h)
  ]

  apply_authentication-Weighs :
      (d : Dict String Bool) (s : F × List Rule) → Weighs s → Weighs (apply_authentication f d s)
  unfolding apply_authentication
  apply_authentication-Weighs d s h = elim (Bool-cases (is_set "account_locked" d)) [
    | inl locked ↦ rw locked (apply_rule-Weighs true account_locked s h)
    | inr free ↦
        rw free (
          apply_rule-Weighs (is_set "authentication_policy_violation" d) authentication_failures s
            h)
  ]

  behavioural_rules-Weighs : (large : F) (t : Telemetry f) → Weighs (behavioural_rules f large t)
  unfolding behavioural_rules
  behavioural_rules-Weighs large t =
      apply_rule-Weighs
        (t.archive_file_type
          && (le (whole f 2) t.mfa_failed_attempts || le (whole f 2) t.failed_login_attempts))
        archive_after_failures _
        (apply_rule-Weighs t.high_risk_file_type high_risk_type _ (
          apply_rule-Weighs (le (whole f 3) t.failed_login_attempts) login_failures _ (
            apply_rule-Weighs (le (whole f 3) t.mfa_failed_attempts) mfa_failures _ (
              apply_frequency-Weighs t.transfers_last_hour _ (
                apply_rule-Weighs
                  (not (le (whole f 6) t.hour_of_day) || not (le t.hour_of_day (whole f 22)))
                  unusual_hour _
                  (apply_rule-Weighs (is_large f large t.file_size_mb) large_file _
                    nothing-Weighs))))))

  deterministic_rules-Weighs : (d : Dict String Bool) → Weighs (deterministic_rules f d)
  unfolding deterministic_rules
  deterministic_rules-Weighs d =
      apply_rule-Weighs (is_set "archive_file_type" d && is_set "authentication_policy_violation" d)
        archive_after_failures _
        (apply_rule-Weighs (is_set "high_risk_file_type" d) high_risk_type _ (
          apply_authentication-Weighs d _
            (apply_rule-Weighs (is_set "file_size_violates_policy" d) large_file _ nothing-Weighs)))

  -- What an assessment promises: a risk between 0 and 1, at least the weight of each rule named, and
  -- an anomaly exactly from 0.35 on.
  pub record IsFair (a : Assessment f) : Type 0 where
    pub above : le (lit 0) a.risk ≡ true
    pub below : le a.risk (lit 10_000) ≡ true
    pub weighs : All (λ (g : Rule). le (lit (weight g)) a.risk ≡ true) a.rules
    pub anomalous : a.is_anomaly ≡ le (lit 3_500) a.risk

  assess-IsFair : (s : F × List Rule) → Weighs s → IsFair (assess f s)
  unfolding assess Weighs
  assess-IsFair s h = elim (Bool-cases (le s.0 (lit 10_000))) [
    | inl small ↦ rw small (record { above = h.0; below = small; weighs = h.1; anomalous = refl })
    | inr huge ↦ rw huge (record {
      above = ground (arith, le-lit 0 10_000);
      below = le_refl (lit 10_000);
      weighs =
          All-imp (λ g. le (lit (weight g)) s.0 ≡ true)
            (λ g. le (lit (weight g)) (lit 10_000) ≡ true) s.1
            (λ g k. le-lit (weight g) 10_000 ∙ le→leb (weight g) 10_000 (weight_bounded g)) h.1;
      anomalous = ground (
        arith,
        le-lit 3_500 10_000,
        le_trans (lit 3_500) (lit 10_000) s.0,
        le_total s.0 (lit 10_000),
      );
    })
  ]

  pub dp_heuristic_assessment-IsFair :
      (large : F) (t : Telemetry f) → IsFair (dp_heuristic_assessment f large t)
  unfolding dp_heuristic_assessment
  dp_heuristic_assessment-IsFair large t =
      assess-IsFair (behavioural_rules f large t) (behavioural_rules-Weighs large t)

  pub deterministic_security_assessment-IsFair :
      (d : Dict String Bool) (a : Assessment f)
      → deterministic_security_assessment f d ≡ some a
      → IsFair a
  unfolding deterministic_security_assessment
  deterministic_security_assessment-IsFair d a h = elim (Bool-cases (all_allowed d)) [
    | inl allowed ↦
        subst IsFair (some_inj (rw allowed at h))
          (assess-IsFair (deterministic_rules f d) (deterministic_rules-Weighs d))
    | inr refused ↦ absurd (ground arith)
  ]

  -- The keys that the deterministic assessment is handed are all in its list.
  abbrev pub AllAllowed : Dict String Bool → Type 0
  AllAllowed d =
      All (λ (entry : String × Bool). one_of entry.0 deterministic_fallback_allowed_fields ≡ true) d

  all_allowed_iff : (d : Dict String Bool) → (all_allowed d ≡ true) ↔ AllAllowed d
  unfolding all_allowed
  all_allowed_iff [] = (λ _. tt, λ _. refl)
  all_allowed_iff ((key, value) ∷ d) =
      let (sound, complete) = all_allowed_iff d in
      (λ h. ground (arith, sound (ground arith)), λ h. rw (h.0, complete h.1) refl)

  -- Every behavioural assessment has a risk between 0 and 1 that is at least the weight of each rule it
  -- names, and is an anomaly exactly from 0.35 on. So has the deterministic assessment wherever all its
  -- keys are allowed, and it raises `ValueError` exactly when one is not.
  pub assessments-IsFair :
      (large : F) (t : Telemetry f) (d : Dict String Bool)
      → IsFair (dp_heuristic_assessment f large t)
        × (((a : Assessment f) × (deterministic_security_assessment f d ≡ some a) × IsFair a)
            ↔ AllAllowed d)
        × ((deterministic_security_assessment f d ≡ none) ↔ (¬ AllAllowed d))
  unfolding deterministic_security_assessment
  assessments-IsFair large t d =
      let (sound, complete) = all_allowed_iff d in
      let fair = assess-IsFair (deterministic_rules f d) (deterministic_rules-Weighs d) in
      (
        dp_heuristic_assessment-IsFair large t,
        (
          λ (a, e, k). sound (ground arith),
          λ h. rw (complete h) (assess f (deterministic_rules f d), refl, fair),
        ),
        (
          λ e h. absurd (ground (arith, complete h)),
          λ h. elim (Bool-cases (all_allowed d)) [
            | inl allowed ↦ absurd (h (sound allowed))
            | inr refused ↦ rw refused refl
          ],
        ),
      )
