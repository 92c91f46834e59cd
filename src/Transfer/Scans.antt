-- ===== src/Transfer/Scans.antt =====
-- `internal_encrypt` (backend/app/routes/internal_engine_routes.py): the first analysis of the transfer, the
-- malware scan and the soft block. The texts of the reasons are left out.
use reserach.Base.{
  Bool, true, false, ◌&&◌, ◌||◌, String, Option, none, some, List, [], ◌∷◌, one_of, if◌then◌else◌,
}
use reserach.Base.Float.{Float}
use reserach.Privacy.Features.{Real}
use reserach.Ai.{Level}
use reserach.Ai.Features.{Analysis}
use reserach.Malware.{Verdict, scan_failed, ScanResult, fresh_result, scan_full_file}
use reserach.Quarantine.{at_path}
use reserach.Quarantine.Service.{is_malicious_verdict, quarantine_file}
use reserach.Quarantine.Service as QuarantineService
use reserach.Monitor.{TransferMonitor}
use reserach.Monitor.Reanalysis.{
  Reanalysis, reanalyzed, analysis_raised, is_critical, is_high_level, reanalyze_transfer,
}
use reserach.Monitor.Steps as Steps
use reserach.Monitor.Steps.{new_monitor}
use reserach.Transfer.{
  Upload, malware_blocked, scan_failed_closed, scan_raised, ai_block, malware_detected, quarantine,
  suffix, Action, pure, refuse, then_do, ◌>>=◌, ◌>>◌, when, World, Outside, audit,
}
use reserach.Transfer.Admission.{file_size}

abbrev pub archive_extensions : List String
archive_extensions = ".zip" ∷ ".rar" ∷ []

abbrev pub is_scan_failed : Verdict → Bool
is_scan_failed scan_failed = true
is_scan_failed _ = false

-- The keys of `ai_result` that the handler reads or writes; it is `{}` where the analysis raised.
pub record AiResult (F : Type 0) : Type 0 where
  pub is_anomaly : Option Bool
  pub anomaly_score : Option F
  pub level : Option Level

abbrev pub no_result : {F : Type 0} → AiResult F
no_result = record { is_anomaly = none; anomaly_score = none; level = none }

abbrev pub is_severe : Option Level → Bool
is_severe none = false
is_severe (some level) = is_high_level level || is_critical level

module _ (f : Float) (r : Real f) (Digest Model : Type 0) (x : Outside f r Digest Model) where
  open f use {F, lit, le}

  -- What the scans leave for the rest of the handler.
  pub record Scanned : Type 0 where
    pub monitor : TransferMonitor F
    pub ai_result : AiResult F
    pub force_quarantine : Bool
    pub scan_result : ScanResult f Digest

  abbrev pub monitor_request : Upload → Steps.Request f r
  monitor_request q = record {
    transfer_id = q.transfer_id;
    sender_id = q.sender_id;
    receiver_id = q.receiver_id;
    file_name = q.safe_name;
    file_size = file_size f r Digest Model x q;
    transfers_last_hour = q.transfers_last_hour;
    mfa_failed_attempts = q.mfa_failed_attempts;
    failed_login_attempts = q.failed_login_attempts;
    hour_of_day = x.hour_of_day;
    is_trusted_ip = q.is_trusted_ip;
  }

  abbrev pub result_of : Analysis f r → AiResult F
  result_of a = record {
    is_anomaly = some a.is_anomaly;
    anomaly_score = some a.anomaly_score;
    level = some a.level;
  }

  -- What follows `reanalyze_transfer`: the result, and whether it forces quarantine.
  unfoldable pub conclude_analysis :
      Reanalysis f r → Action (World f r Digest Model) (AiResult F × Bool)
  unfolding audit
  conclude_analysis (reanalyzed a quarantined) = pure (result_of a, quarantined)
  conclude_analysis (analysis_raised answer) =
      audit f r Digest Model x ai_block >> pure (no_result, true)

  -- The monitor after the analysis comes with the result.
  unfoldable pub analyse_upload :
      Upload → Action (World f r Digest Model) (TransferMonitor F × (AiResult F × Bool))
  unfolding new_monitor reanalyze_transfer conclude_analysis
  analyse_upload q w =
      let (result, watch) = reanalyze_transfer f r x.service x.first_moment (record {
        monitor = new_monitor f r x.now (monitor_request q);
        ai = w.ai;
        blocks = w.quarantine.blocks;
      }) in
      then_do (λ concluded. pure (watch.monitor, concluded))
        (conclude_analysis result
          (record w { ai = watch.ai; quarantine = record w.quarantine { blocks = watch.blocks } }))

  -- A `PermissionError` counts as a failed scan, of which only the verdict and the confidence are read.
  unfoldable pub scan_upload : Upload → Action (World f r Digest Model) (ScanResult f Digest)
  unfolding scan_full_file fresh_result
  scan_upload q =
      elim (scan_full_file f x.scanner.math x.scanner.hash_bytes x.scanner.model
        x.scanner.fail_closed x.scanner.clamav x.opened q.safe_name) [
          | some scan_result ↦ pure scan_result
          | none ↦
              if x.permission_error
              then pure
                  (record (fresh_result f (x.scanner.hash_bytes q.bytes)) { verdict = scan_failed })
              else refuse scan_raised
        ]

  abbrev pub quarantine_request :
      Upload → ScanResult f Digest → QuarantineService.Request f x.scanner
  quarantine_request q scan_result = record {
    user_id = x.int_of q.sender_id;
    original_filename = q.safe_name;
    detection_engine = "Hybrid (ClamAV + ML + Heuristic)";
    reason = "Malware Scan Failed";
    detection_name = scan_result.clamav_result;
    malware_score = some scan_result.confidence;
    transfer_id = some q.transfer_id;
  }

  -- "Move to quarantine", with the two audit events, and "Hard block".
  unfoldable pub quarantine_upload :
      Upload → ScanResult f Digest → Action (World f r Digest Model) Unit
  unfolding audit quarantine_file
  quarantine_upload q scan_result w =
      let (answer, moved) =
        quarantine_file f x.scanner x.now x.safe_id (quarantine_request q scan_result)
          (at_path q.bytes) w.quarantine in
      (audit f r Digest Model x malware_detected
          >> audit f r Digest Model x quarantine
          >> refuse malware_blocked)
        (record w { quarantine = moved })

  unfoldable pub check_scan : Upload → ScanResult f Digest → Action (World f r Digest Model) Unit
  unfolding quarantine_upload
  check_scan q scan_result =
      when (is_malicious_verdict scan_result.verdict) (quarantine_upload q scan_result)
      >> when (is_scan_failed scan_result.verdict && x.scanner.fail_closed)
          (refuse scan_failed_closed)

  abbrev pub score_or : F → Option F → F
  score_or default none = default
  score_or default (some score) = score

  -- `final_threat_score >= 0.8 or anomaly_level in ["high", "critical"]`
  abbrev pub soft_blocks : AiResult F → Bool
  soft_blocks ai_result =
      le (lit 8_000) (score_or (lit 0) ai_result.anomaly_score) || is_severe ai_result.level

  unfoldable pub scan_all : Upload → Action (World f r Digest Model) Scanned
  unfolding analyse_upload scan_upload check_scan suffix
  scan_all q = do
    analysed ← analyse_upload q
    scan_result ← scan_upload q
    check_scan q scan_result
    pure (record {
      monitor = analysed.0;
      ai_result = analysed.1.0;
      force_quarantine =
          one_of (suffix q.safe_name) archive_extensions
          || analysed.1.1
          || soft_blocks analysed.1.0;
      scan_result = scan_result;
    })
