-- ===== src/Transfer/Network.antt =====
-- `internal_encrypt` (backend/app/routes/internal_engine_routes.py): the interception check, and the flow's
-- risk with what it changes of the result.
use reserach.Base.{Bool, true, false, ◌&&◌, not, Option, none, some, List, [], if◌then◌else◌}
use reserach.Base.Float.{Float, fmax}
use reserach.Privacy.Features.{Real}
use reserach.Ai.{high}
use reserach.Mitm.{Severity, low, medium, critical, evaluate_transfer}
use reserach.Mitm as Mitm
use reserach.Network.Flow.{FlowStats}
use reserach.Network.Table.{get_flow_stats_by_client}
use reserach.Network.Anomaly.{Engine, is_active, add_baseline_sample, Signal, evaluate_flow}
use reserach.Network.Anomaly as Anomaly
use reserach.Transfer.{
  Upload, interception_blocked, possible_interception, Action, pure, refuse, ◌>>◌, when, World,
  Outside, audit,
}
use reserach.Transfer.Scans.{AiResult, score_or}

-- `severity in ["HIGH", "CRITICAL"]`
abbrev pub blocks : Severity → Bool
blocks Mitm.high = true
blocks critical = true
blocks _ = false

module _ (f : Float) (r : Real f) (Digest Model : Type 0) (x : Outside f r Digest Model) where
  open f use {F, lit, le}

  -- The handler passes neither of the two arguments that are "For testing".
  unfoldable pub check_interception : Upload → Action (World f r Digest Model) Unit
  unfolding audit evaluate_transfer
  check_interception q w =
      let (result, monitors) =
        evaluate_transfer x.sensor q.client_ip q.client_port "" "" w.network w.monitors in
      when (result.findings.detected && blocks result.severity)
        (audit f r Digest Model x (possible_interception result.findings.indicators result.severity)
          >> refuse interception_blocked)
        (record w { monitors = monitors })

  -- The verdict of the model, where one is active.
  abbrev pub verdict_of : Engine FlowStats Model → FlowStats → Option (Anomaly.Verdict f)
  verdict_of engine flow = elim engine.model [
    | none ↦ none
    | some model ↦ if is_active engine.state then some (x.predict model flow) else none
  ]

  -- The network's risk score and signals.
  unfoldable pub assess_flow : Upload → Action (World f r Digest Model) (F × List Signal)
  unfolding evaluate_flow add_baseline_sample get_flow_stats_by_client
  assess_flow q w = elim (get_flow_stats_by_client q.client_ip q.client_port w.network) [
    | none ↦ pure (lit 0, []) w
    | some (flow_key, flow) ↦
        pure (evaluate_flow f (verdict_of w.engine flow) (some (x.stats_of flow)))
          (record w { engine = add_baseline_sample x.fit x.min_samples flow w.engine })
  ]

  abbrev pub final_threat_score : AiResult F → F
  final_threat_score ai_result = score_or f r Digest Model x (lit 0) ai_result.anomaly_score

  -- "Combined Risk Component"
  unfoldable pub combined_risk_score : AiResult F → F → F
  combined_risk_score ai_result network_risk_score =
      x.service.rounding.round_4 (fmax f (final_threat_score ai_result) network_risk_score)

  -- `combined_risk_score > 0.75`, and `network_risk_score > final_threat_score`.
  unfoldable pub combine : AiResult F → F → AiResult F
  unfolding combined_risk_score
  combine ai_result network_risk_score =
      if not (le (combined_risk_score ai_result network_risk_score) (lit 7_500))
      then (if not (le network_risk_score (final_threat_score ai_result))
          then record ai_result { is_anomaly = some true; level = some high }
          else record ai_result { is_anomaly = some true })
      else ai_result
