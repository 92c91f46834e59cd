-- ===== src/Privacy/Features.antt =====
-- `SecureLaplaceMechanism` and `DifferentialPrivacyService.privatize_features`. Floats are an
-- interface; the random draws and `math.log` are parameters.
use reserach.Base.{
  ◌||◌, ℕ, ◌*◌, ◌≡◌, Bool, true, false, String, Option, none, some, List, [], ◌∷◌, string_eq,
  if◌then◌else◌,
}
use mathlib.Core.Option
use reserach.Base.Dict.{Dict, lookup, insert}
use reserach.Base.Float.{Float, fmax, fmin}
use reserach.Base.Int.{ℤ}
use reserach.Privacy.{Limits}
use reserach.Privacy.Local.{Result, remaining}
use reserach.Privacy.Accountant.{Accountant, consume_budget}

-- The further operations that the mechanism uses. Of `round` it is relied on that a value above or
-- below a whole number stays so.
pub record Real (f : Float) : Type 0 where
  pub mul : f.F → f.F → f.F
  pub div : f.F → f.F → f.F
  pub neg : f.F → f.F
  pub log : f.F → f.F
  pub round : f.F → f.F
  pub round_above :
      (n : ℕ) (x : f.F)
      → f.le (f.lit (n * 10000)) x ≡ true
      → f.le (f.lit (n * 10000)) (round x) ≡ true
  pub round_below :
      (n : ℕ) (x : f.F)
      → f.le x (f.lit (n * 10000)) ≡ true
      → f.le (round x) (f.lit (n * 10000)) ≡ true

-- `DPFeaturePolicy`; the bounds are whole numbers.
pub record DpFeaturePolicy : Type 0 where
  pub lower_bound : ℕ
  pub upper_bound : ℕ
  pub sensitivity : ℕ

abbrev pub dp_feature_policy : List (String × DpFeaturePolicy)
dp_feature_policy =
    ("file_size_mb", record { lower_bound = 0; upper_bound = 1000; sensitivity = 1000 })
    ∷ ("hour_of_day", record { lower_bound = 0; upper_bound = 23; sensitivity = 23 })
    ∷ ("transfers_last_hour", record { lower_bound = 0; upper_bound = 500; sensitivity = 500 })
    ∷ ("mfa_failed_attempts", record { lower_bound = 0; upper_bound = 20; sensitivity = 20 })
    ∷ ("failed_login_attempts", record { lower_bound = 0; upper_bound = 20; sensitivity = 20 })
    ∷ ("is_unusual_hour", record { lower_bound = 0; upper_bound = 1; sensitivity = 1 })
    ∷ []

module _ (f : Float) where
  open f use {F, lit, le, add, sub}

  -- A feature, and whether it is an `int`.
  pub record Value : Type 0 where
    pub number : F
    pub is_int : Bool

  abbrev pub Features : Type 0
  Features = Dict String Value

  -- The literal of a whole number.
  abbrev pub whole : ℕ → F
  whole n = lit (n * 10000)

  -- `protected_list.append(feature_name)`, in the order of the table.
  abbrev pub note : String → Features × List String → Features × List String
  note name (protected, names) = (protected, name ∷ names)

  module _ (r : Real f) where
    -- `1.0 - 2.0 * abs(u)`
    abbrev pub log_argument : F → F
    log_argument u = sub (whole 1) (r.mul (whole 2) (if le (whole 0) u then u else r.neg u))

    -- `math.log` raises `ValueError` for what is not positive.
    abbrev pub log_raises : F → Bool
    log_raises u = le (log_argument u) (whole 0)

    -- `add_noise`, with the draw `u` given, where it does not raise; `__init__` sets the scale.
    unfoldable pub add_noise : F → F → F → F → F
    add_noise epsilon sensitivity u value =
        let scale = r.div sensitivity epsilon in
        let sgn = if le u (whole 0) then r.neg (whole 1) else whole 1 in
        let noise = r.mul (r.mul (r.neg scale) sgn) (r.log (log_argument u)) in add value noise

    -- `max(policy.lower_bound, min(v, policy.upper_bound))`
    unfoldable pub clamp : DpFeaturePolicy → F → F
    clamp policy v = fmax f (whole policy.lower_bound) (fmin f v (whole policy.upper_bound))

    -- Clip, add noise, clamp again, and round what was an int.
    unfoldable pub privatize_value : F → DpFeaturePolicy → F → Value → Value
    privatize_value epsilon policy u v =
        let noisy_val = add_noise epsilon (whole policy.sensitivity) u (clamp policy v.number) in
        let final_val = clamp policy noisy_val in
        if v.is_int
        then record { number = r.round final_val; is_int = true }
        else record { number = final_val; is_int = false }

    -- The loop over the policies; `SecureLaplaceMechanism` raises `ValueError` (`none`) for an
    -- epsilon that is not positive, and where `math.log` does.
    unfoldable pub protect_all :
        F
        → (String → F)
        → List (String × DpFeaturePolicy)
        → Features
        → Option (Features × List String)
    protect_all epsilon draw [] features = some (features, [])
    protect_all epsilon draw ((name, policy) ∷ policies) features =
        elim (lookup string_eq name features) [
          | none ↦ protect_all epsilon draw policies features
          | some v ↦
              if le epsilon (whole 0) || log_raises (draw name)
              then none
              else Option.map (note name) (
                  protect_all epsilon draw policies
                    (insert string_eq name (privatize_value epsilon policy (draw name) v) features))
        ]

    -- `DPResult`
    pub record DpResult : Type 0 where
      pub features : Features
      pub applied : Bool
      pub mechanism : String
      pub epsilon_spent : F
      pub remaining_budget : ℤ
      pub protected_features : List String

    -- The result, or the exception of the accountant or of the mechanism.
    pub data Outcome : Type 0 where
      done : DpResult → Outcome
      accountant_raised : Result → Outcome
      value_error : Outcome

    -- What one call is given besides the accountant's settings: `epsilon_units` is the float
    -- `dp_epsilon_per_analysis` in billionths.
    pub record Call : Type 0 where
      pub dp_enabled : Bool
      pub total_epsilon : ℤ
      pub epsilon_per_analysis : F
      pub epsilon_units : ℤ
      pub epoch_hours : ℕ
      pub now : ℕ
      pub redis_reachable : Bool
      pub user_id : String
      pub analysis_id : String
      pub analysis_class : String
      pub draw : String → F

    unfoldable pub pack : Call → ℤ → Option (Features × List String) → Outcome
    pack c budget none = value_error
    pack c budget (some (protected, names)) = done (record {
      features = protected;
      applied = true;
      mechanism = "Laplace";
      epsilon_spent = c.epsilon_per_analysis;
      remaining_budget = budget;
      protected_features = names;
    })

    -- After the charge: the noise, or the accountant's exception.
    unfoldable pub respond : Call → Features → Result → Outcome
    respond c raw_features (remaining budget) =
        pack c budget (
          protect_all (r.div c.epsilon_per_analysis (whole 6)) c.draw dp_feature_policy
            raw_features)
    respond c raw_features other = accountant_raised other

    unfoldable pub unprotected : Call → Features → DpResult
    unprotected c raw_features = record {
      features = raw_features;
      applied = false;
      mechanism = "none";
      epsilon_spent = whole 0;
      remaining_budget = c.total_epsilon;
      protected_features = [];
    }

    -- The budget is charged before any feature is touched.
    unfoldable pub privatize_features : Limits → Call → Features → Accountant → Outcome × Accountant
    privatize_features limits c raw_features a =
        if c.dp_enabled
        then (let (answer, a') =
              consume_budget limits c.epoch_hours c.now c.redis_reachable c.user_id c.epsilon_units
                c.analysis_id c.analysis_class a in
            (respond c raw_features answer, a'))
        else (done (unprotected c raw_features), a)
