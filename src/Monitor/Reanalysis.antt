-- ===== src/Monitor/Reanalysis.antt =====
-- `reanalyze_transfer`, the audit of its state changes and `complete_monitoring` of
-- `ContinuousTransferMonitor` (backend/app/services/continuous_monitor.py). Exceptions of the ledger are
-- swallowed by the code, so only the table that `append_block` leaves is kept.
use Prim.Native.String.{◌++◌ as text_append}
use reserach.Base.{ℕ, ◌+◌, Bool, true, false, ◌||◌, String, Option, some, List, ◌==◌, if◌then◌else◌}
use reserach.Base.Float.{Float, fmax}
use reserach.Ledger.{AuditBlock, Sha}
use reserach.Ledger.Append.{Node, append_block}
use reserach.Ledger.Append as Append
use reserach.Privacy.{Limits}
use reserach.Privacy.Features.{Real, Call}
use reserach.Ai.{Level, critical, high, medium}
use reserach.Ai.Features.{Policies, Rounding, Pipeline, Transfer, Analysis, Answer, assessed}
use reserach.Ai.Analysis.{State, analyze_transfer}
use reserach.Monitor.{
  RiskLevel, normal, elevated, high_risk, blocked, stopped, completed, is_blocked, is_high_risk,
  is_stopped, Settings, TransferTelemetry, TransferMonitor,
}
use reserach.Monitor.Telemetry.{calculate_rolling_heuristics}

abbrev pub is_critical : Level → Bool
is_critical critical = true
is_critical _ = false

abbrev pub is_high_level : Level → Bool
is_high_level high = true
is_high_level _ = false

abbrev pub is_medium_level : Level → Bool
is_medium_level medium = true
is_medium_level _ = false

module _ (f : Float) (r : Real f) where
  open f use {F, lit, le}

  -- What the analyses share: the settings of `AIService`, and SHA-256, the ledger's environment and
  -- `json.dumps` of the details of an event (of the telemetry, and the reason).
  pub record Service (Digest : Type 0) : Type 0 where
    pub rounding : Rounding f r
    pub ai_large_file_mb : F
    pub policies : Policies
    pub limits : Limits
    pub settings : Settings F
    pub megabytes : ℕ → F
    pub sha : Sha Digest
    pub environment : Append.Settings
    pub dumps : TransferTelemetry F → String → String

  -- What one call meets outside: the clock, the blockchain node, the settings and draws of the privacy
  -- service, what training would give, and the rest of the analysis identifier.
  pub record Moment : Type 0 where
    pub now : ℕ
    pub node : Node
    pub call : Call f r
    pub trained : Option (Pipeline f r)
    pub analysis_rest : String

  -- The monitor with the state that its calls change.
  pub record Watch (Digest : Type 0) : Type 0 where
    pub monitor : TransferMonitor F
    pub ai : State f r
    pub blocks : List (AuditBlock Digest)

  -- What `reanalyze_transfer` returns, with whether `quarantined` is set, or what is raised.
  pub data Reanalysis : Type 0 where
    reanalyzed : Analysis f r → Bool → Reanalysis
    analysis_raised : Answer f r → Reanalysis

  module _ {Digest : Type 0} (s : Service Digest) where
    -- `_log_to_blockchain`
    unfoldable pub log_to_blockchain : Moment → String → String → Watch Digest → Watch Digest
    log_to_blockchain m event_type reason w = record w {
      blocks =
          (append_block s.sha s.environment m.node event_type (s.dumps w.monitor.telemetry reason)
            m.now w.blocks).1;
    }

    -- `_audit_state_transition`
    unfoldable pub audit_state_transition : Moment → String → Watch Digest → Watch Digest
    unfolding log_to_blockchain
    audit_state_transition m reason w =
        let t = w.monitor.telemetry in
        if t.samples_count == 1
        then log_to_blockchain m "AI_MONITORING_STARTED" reason w
        else if is_blocked t.current_risk_level
        then log_to_blockchain m "AI_TRANSFER_BLOCKED" reason w
        else if is_high_risk t.current_risk_level
        then (if w.monitor.high_risk_audited
            then w
            else log_to_blockchain m "AI_RISK_ELEVATED" reason
                (record w { monitor = record w.monitor { high_risk_audited = true } }))
        else w

    -- "State Machine update"
    unfoldable pub risk_level : F → Level → RiskLevel
    risk_level score level =
        if le s.settings.ai_block_threshold score || is_critical level
        then blocked
        else if le (lit 6_000) score || is_high_level level
        then high_risk
        else if le (lit 3_500) score || is_medium_level level
        then elevated
        else normal

    -- "Update telemetry state", and the risk level.
    unfoldable pub record_score : ℕ → Analysis f r → TransferTelemetry F → TransferTelemetry F
    unfolding risk_level
    record_score now a t = record t {
      current_ai_score = a.anomaly_score;
      maximum_ai_score = fmax f t.maximum_ai_score a.anomaly_score;
      last_evaluation_at = now;
      last_evaluation_chunks = t.chunks_processed;
      samples_count = t.samples_count + 1;
      current_risk_level = risk_level a.anomaly_score a.level;
    }

    -- The status, and whether the result is marked as quarantined.
    unfoldable pub stop_if_blocked : Analysis f r → Watch Digest → Reanalysis × Watch Digest
    stop_if_blocked a w =
        if is_blocked w.monitor.telemetry.current_risk_level
        then (
          reanalyzed a true,
          record w {
            monitor = record w.monitor {
              telemetry = record w.monitor.telemetry { status = stopped };
            };
          },
        )
        else (reanalyzed a false, w)

    -- What follows the call of `AIService`.
    unfoldable pub conclude : Moment → Answer f r → Watch Digest → Reanalysis × Watch Digest
    unfolding record_score audit_state_transition stop_if_blocked
    conclude m (assessed first_result) w =
        let t = w.monitor.telemetry in
        let a = calculate_rolling_heuristics f r m.now t first_result in
        stop_if_blocked a (
          audit_state_transition m a.reason
            (record w { monitor = record w.monitor { telemetry = record_score m.now a t } }))
    conclude m answer w = (analysis_raised answer, w)

    -- The arguments of `analyze_transfer`; the identifier always has a colon.
    unfoldable pub transfer_of : Moment → TransferMonitor F → Transfer f r
    transfer_of m monitor =
        let t = monitor.telemetry in
        record {
          file_size_mb = s.megabytes t.file_size;
          hour_of_day = t.hour_of_day;
          transfers_last_hour = t.transfers_last_hour;
          mfa_failed_attempts = t.mfa_failed_attempts;
          failed_login_attempts = t.failed_login_attempts;
          file_name = some t.file_name;
          user_id = t.sender_id;
          analysis_id = some (text_append t.transfer_id (text_append ":" m.analysis_rest));
          is_trusted_ip = monitor.is_trusted_ip;
        }

    -- The call of `AIService`.
    unfoldable pub ask_ai : Moment → Watch Digest → Answer f r × State f r
    unfolding transfer_of
    ask_ai m w =
        analyze_transfer f r s.rounding s.ai_large_file_mb s.policies s.limits m.call m.trained
          (transfer_of m w.monitor) w.ai

    unfoldable pub reanalyze_transfer : Moment → Watch Digest → Reanalysis × Watch Digest
    unfolding ask_ai conclude
    reanalyze_transfer m w =
        let (answer, ai) = ask_ai m w in conclude m answer (record w { ai = ai })

    unfoldable pub complete_monitoring : Moment → Watch Digest → Watch Digest
    unfolding log_to_blockchain
    complete_monitoring m w =
        if is_stopped w.monitor.telemetry.status
        then w
        else log_to_blockchain m "AI_MONITORING_COMPLETED" "Transfer finished" (record w {
          monitor = record w.monitor {
            telemetry = record w.monitor.telemetry { status = completed };
          };
        })
