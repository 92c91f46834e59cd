-- ===== src/Monitor.antt =====
-- `ContinuousTransferMonitor` (backend/app/services/continuous_monitor.py): it watches one transfer while
-- it is encrypted. Times are in microseconds, budgets in millionths of epsilon.
pub mod Telemetry
pub mod Reanalysis
pub mod Steps
pub mod Invariant
pub mod Budget
pub mod Tests
use reserach.Base.{ℕ, Bool, true, false, String}

-- `current_risk_level`
pub data RiskLevel : Type 0 where
  normal elevated high_risk blocked : RiskLevel

-- `status`
pub data TransferStatus : Type 0 where
  in_progress stopped completed : TransferStatus

abbrev pub is_blocked : RiskLevel → Bool
is_blocked blocked = true
is_blocked _ = false

abbrev pub is_high_risk : RiskLevel → Bool
is_high_risk high_risk = true
is_high_risk _ = false

abbrev pub is_stopped : TransferStatus → Bool
is_stopped stopped = true
is_stopped _ = false

-- What the monitor reads of the settings.
pub record Settings (F : Type 0) : Type 0 where
  pub ai_continuous_monitoring_enabled : Bool
  pub ai_monitor_interval : ℕ
  pub ai_monitor_every_n_chunks : ℕ
  pub ai_block_threshold : F
  pub dp_max_analyses_per_transfer : ℕ
  pub dp_soft_limit_consumed_percent : ℕ

-- `TransferTelemetry`; the time of the last evaluation is 0 before the first one.
pub record TransferTelemetry (F : Type 0) : Type 0 where
  pub transfer_id : String
  pub sender_id : String
  pub receiver_id : String
  pub file_name : String
  pub file_size : ℕ
  pub started_at : ℕ
  pub bytes_processed : ℕ
  pub chunks_processed : ℕ
  pub last_evaluation_at : ℕ
  pub last_evaluation_chunks : ℕ
  pub current_risk_level : RiskLevel
  pub current_ai_score : F
  pub maximum_ai_score : F
  pub samples_count : ℕ
  pub status : TransferStatus
  pub transfers_last_hour : ℕ
  pub mfa_failed_attempts : ℕ
  pub failed_login_attempts : ℕ
  pub hour_of_day : ℕ

-- The monitor, with whether `_last_audited_risk` is "HIGH_RISK".
pub record TransferMonitor (F : Type 0) : Type 0 where
  pub telemetry : TransferTelemetry F
  pub is_trusted_ip : Bool
  pub high_risk_audited : Bool
