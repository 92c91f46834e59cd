-- ===== src/Ai.antt =====
-- `AIService` (backend/app/services/ai_service.py). The isolation forest is a parameter: what training
-- gives, and what the trained pipeline answers. Floats are an interface.
pub mod Heuristics
pub mod Features
pub mod Grading
pub mod Analysis
pub mod Scores
pub mod Levels
pub mod Fallback
mod Tests
use Prim.Native.String.{◌++◌ as text_append}
use reserach.Base.{
  ℕ, ◌*◌, Bool, true, false, String, List, [], ◌∷◌, ◌++◌, map, has_char, last_part, lower, str_eq,
  if◌then◌else◌,
}
use reserach.Base.Float.{Float}

-- The reasons that the two assessments append.
pub data Rule : Type 0 where
  large_file unusual_hour many_transfers elevated_frequency mfa_failures login_failures : Rule
  high_risk_type archive_after_failures account_locked authentication_failures : Rule

abbrev pub rule_text : Rule → String
rule_text large_file = "large file size for security policy"
rule_text unusual_hour = "unusual hour of day (outside 06:00-22:00)"
rule_text many_transfers = "many transfers in the last hour"
rule_text elevated_frequency = "elevated transfer frequency"
rule_text mfa_failures = "repeated MFA failures before transfer"
rule_text login_failures = "repeated failed password login attempts before transfer"
rule_text high_risk_type = "high-risk executable or script file type"
rule_text archive_after_failures = "compressed archive transfer after authentication failures"
rule_text account_locked = "account locked before transfer"
rule_text authentication_failures = "repeated authentication failures before transfer"

-- `"; ".join(texts)`
unfoldable pub join_texts : List String → String
join_texts [] = ""
join_texts (s ∷ []) = s
join_texts (s ∷ t ∷ ts) = text_append s (text_append "; " (join_texts (t ∷ ts)))

abbrev pub normal_pattern : String
normal_pattern = "normal secure transfer pattern"

-- `"; ".join(reasons) or "normal secure transfer pattern"`
unfoldable pub reason_text : List Rule → String
unfolding join_texts
reason_text [] = normal_pattern
reason_text (r ∷ rules) = join_texts (map rule_text (r ∷ rules))

-- `level`; `critical` is set by the transfer route only.
pub data Level : Type 0 where
  low medium high critical : Level

abbrev pub is_high : Level → Bool
is_high high = true
is_high _ = false

-- `AIService.file_extension`
unfoldable pub file_extension : String → String
unfolding lower has_char last_part
file_extension file_name = if has_char b'.' file_name then lower (last_part b'.' file_name) else ""

module _ (f : Float) where
  open f use {F, lit, le, add}

  -- The literal of a whole number.
  abbrev pub whole : ℕ → F
  whole n = lit (n * 10_000)

  -- `reasons.append(…)` and `risk += n / 10000` under a condition
  unfoldable pub apply_rule : Bool → Rule → ℕ → F × List Rule → F × List Rule
  apply_rule holds rule n (risk, reasons) =
      if holds then (add risk (lit n), reasons ++ rule ∷ []) else (risk, reasons)

  -- The five values that an assessment returns, the reason as the list that it is made of.
  pub record Assessment : Type 0 where
    pub is_anomaly : Bool
    pub level : Level
    pub risk : F
    pub rules : List Rule

  -- The end of both assessments.
  unfoldable pub assess : F × List Rule → Assessment
  assess (risk, reasons) = record {
    is_anomaly = le (lit 3_500) risk;
    level = if le (lit 8_000) risk then high else if le (lit 3_500) risk then medium else low;
    risk = if le risk (lit 10_000) then risk else lit 10_000;
    rules = reasons;
  }
