-- ===== src/Monitor/Steps.antt =====
-- A transfer under `ContinuousTransferMonitor`: its constructor, the first evaluation in
-- `internal_encrypt` (backend/app/routes/internal_engine_routes.py), the call for each fragment in
-- `PFCEEngine` (backend/app/services/pfce_engine.py), and `complete_monitoring`. That call swallows what an
-- evaluation raises, except a `TransferBlockedError`.
use reserach.Base.{ℕ, Bool, true, false, String, List, if◌then◌else◌}
use reserach.Base.Float.{Float}
use reserach.Ledger.{AuditBlock}
use reserach.Privacy.Status.{get_budget_status}
use reserach.Privacy.Features.{Real}
use reserach.Ai.Analysis.{State}
use reserach.Monitor.{TransferMonitor, normal, in_progress}
use reserach.Monitor.Telemetry.{update_telemetry, should_reanalyse}
use reserach.Ai.Features.{transfer_blocked}
use reserach.Monitor.Reanalysis.{
  Service, Moment, Watch, Reanalysis, reanalyzed, analysis_raised, reanalyze_transfer,
  complete_monitoring,
}

module _ (f : Float) (r : Real f) where
  open f use {F, lit}

  abbrev pub is_transfer_blocked : Reanalysis f r → Bool
  is_transfer_blocked (analysis_raised transfer_blocked) = true
  is_transfer_blocked (analysis_raised _) = false
  is_transfer_blocked (reanalyzed a quarantined) = false

  -- The arguments of the constructor.
  pub record Request : Type 0 where
    pub transfer_id : String
    pub sender_id : String
    pub receiver_id : String
    pub file_name : String
    pub file_size : ℕ
    pub transfers_last_hour : ℕ
    pub mfa_failed_attempts : ℕ
    pub failed_login_attempts : ℕ
    pub hour_of_day : ℕ
    pub is_trusted_ip : Bool

  unfoldable pub new_monitor : ℕ → Request → TransferMonitor F
  new_monitor now q = record {
    telemetry = record {
      transfer_id = q.transfer_id;
      sender_id = q.sender_id;
      receiver_id = q.receiver_id;
      file_name = q.file_name;
      file_size = q.file_size;
      started_at = now;
      bytes_processed = 0;
      chunks_processed = 0;
      last_evaluation_at = 0;
      last_evaluation_chunks = 0;
      current_risk_level = normal;
      current_ai_score = lit 0;
      maximum_ai_score = lit 0;
      samples_count = 0;
      status = in_progress;
      transfers_last_hour = q.transfers_last_hour;
      mfa_failed_attempts = q.mfa_failed_attempts;
      failed_login_attempts = q.failed_login_attempts;
      hour_of_day = q.hour_of_day;
    };
    is_trusted_ip = q.is_trusted_ip;
    high_risk_audited = false;
  }

  module _ {Digest : Type 0} (s : Service f r Digest) where
    -- Whether the monitor evaluates now, with the budget that the accountant reports.
    unfoldable pub asks : Moment f r → Watch f r Digest → Bool
    unfolding should_reanalyse
    asks m w =
        let t = w.monitor.telemetry in
        should_reanalyse s.settings s.limits m.now
          (get_budget_status s.limits m.call.epoch_hours m.call.now m.call.redis_reachable
            t.sender_id w.ai.accountant)
          t

    -- "Continuous AI Behavioural Monitoring" of one fragment.
    unfoldable pub watch_fragment : Moment f r → ℕ → Watch f r Digest → Watch f r Digest
    unfolding update_telemetry asks
    watch_fragment m bytes_read w =
        let counted : Watch f r Digest = record w {
          monitor = record w.monitor {
            telemetry = update_telemetry bytes_read w.monitor.telemetry;
          };
        } in
        if asks m counted then (reanalyze_transfer f r s m counted).1 else counted

    -- Whether that call raises: `type(e).__name__ == 'TransferBlockedError'`.
    unfoldable pub fragment_raises : Moment f r → ℕ → Watch f r Digest → Bool
    unfolding update_telemetry asks
    fragment_raises m bytes_read w =
        let counted : Watch f r Digest = record w {
          monitor = record w.monitor {
            telemetry = update_telemetry bytes_read w.monitor.telemetry;
          };
        } in
        if asks m counted then is_transfer_blocked (reanalyze_transfer f r s m counted).0 else false

    -- A new monitor after its first evaluation.
    unfoldable pub open_transfer :
        Moment f r → Request → State f r → List (AuditBlock Digest) → Watch f r Digest
    unfolding new_monitor reanalyze_transfer
    open_transfer m q ai blocks =
        (reanalyze_transfer f r s m
          (record { monitor = new_monitor m.now q; ai = ai; blocks = blocks })).1

    -- What a transfer can come to, fragment by fragment.
    pub data Reach (v : Watch f r Digest) : Watch f r Digest → Type 0 where
      here : Reach v v
      fragment :
          {w : Watch f r Digest} (m : Moment f r) (bytes_read : ℕ)
          → Reach v w
          → Reach v (watch_fragment m bytes_read w)
      finish :
          {w : Watch f r Digest} (m : Moment f r)
          → Reach v w
          → Reach v (complete_monitoring f r s m w)
