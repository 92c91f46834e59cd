-- ===== src/Ai/Fallback.antt =====
-- What the fallback of `analyze_transfer` rests on when the privacy budget is spent.
use reserach.Base.{ℕ, ◌≡◌, refl, Bool, String, Option, none, some, List}
use reserach.Base.Float.{Float}
use reserach.Privacy.Features.{Real}
use reserach.Ai.{Rule, Level}
use reserach.Ai.Features.{Policies, DpError, Rounding, Transfer, Answer, assessed}
use reserach.Ai.Heuristics.{deterministic_security_assessment}
use reserach.Ai.Analysis.{analyze_fallback}

module _ (f : Float) (r : Real f) where
  -- What an answer decides: anomaly, score, level, reason and the rules named.
  abbrev pub decision : Answer f r → Option (Bool × f.F × Level × String × List Rule)
  decision (assessed a) = some (a.is_anomaly, a.anomaly_score, a.level, a.reason, a.triggered_rules)
  decision _ = none

  abbrev pub IsAssessed : Answer f r → Type 0
  IsAssessed (assessed a) = Unit
  IsAssessed _ = ⊥

  -- The fallback always answers, and uses no behavioural input: the hour and the number of recent
  -- transfers change nothing of what it decides.
  pub analyze_fallback_blind :
      (rounding : Rounding f r) (large : f.F) (p : Policies) (e : DpError) (t : Transfer f r)
      (types : Bool × Bool) (hour transfers : ℕ)
      → let other = record t { hour_of_day = hour; transfers_last_hour = transfers } in
        IsAssessed (analyze_fallback f r rounding large p e t types)
        × (decision (analyze_fallback f r rounding large p e other types)
            ≡ decision (analyze_fallback f r rounding large p e t types))
  unfolding analyze_fallback deterministic_security_assessment
  analyze_fallback_blind rounding large p e t types hour transfers = (tt, refl)
