-- ===== src/Transfer/Scanned.antt =====
-- What a request that has passed the scans of `internal_encrypt` is known to have.
use mathlib.Core.Path.{subst}
use reserach.Quarantine.{at_path}
use reserach.Base.{◌≡◌, refl, ap, Bool, false, ◌&&◌, ◌||◌, one_of, arith}
use reserach.Base.Float.{Float}
use reserach.Privacy.Features.{Real}
use reserach.Malware.{ScanResult}
use reserach.Quarantine.Service.{is_malicious_verdict, quarantine_file}
use reserach.Monitor.{TransferMonitor}
use reserach.Transfer.{
  Upload, malware_detected, quarantine, malware_blocked, scan_failed_closed, suffix, accepted, pure,
  refuse, ◌>>◌, when, World, Outside, audit,
}
use reserach.Transfer.Scans.{
  AiResult, archive_extensions, is_scan_failed, Scanned, soft_blocks, analyse_upload, scan_upload,
  check_scan, quarantine_upload, quarantine_request, scan_all,
}
use reserach.Transfer.Gates.{then_do-accepted, then_do-Stops, when-accepted, Stops}

pub accepted_inj : {A : Type 0} {a b : A} → accepted a ≡ accepted b → a ≡ b
accepted_inj h = cc

module _ (f : Float) (r : Real f) (Digest Model : Type 0) (x : Outside f r Digest Model) where
  open f use {F, lit, le}

  -- What the scans establish.
  pub record IsScanned (q : Upload) (s : Scanned f r Digest Model x) : Type 0 where
    pub harmless : is_malicious_verdict s.scan_result.verdict ≡ false
    pub scanned : is_scan_failed s.scan_result.verdict && x.scanner.fail_closed ≡ false
    pub calm :
        s.force_quarantine ≡ false
        → (one_of (suffix q.safe_name) archive_extensions ≡ false)
          × (soft_blocks f r Digest Model x s.ai_result ≡ false)

  quarantine_upload-Stops :
      (q : Upload) (s : ScanResult f Digest) → Stops (quarantine_upload f r Digest Model x q s)
  unfolding quarantine_upload
  quarantine_upload-Stops q s w =
      let moved =
        (quarantine_file f x.scanner x.now x.safe_id (quarantine_request f r Digest Model x q s)
          (at_path q.bytes) w.quarantine).1 in
      then_do-Stops (λ _. refuse malware_blocked)
        ((audit f r Digest Model x malware_detected >> audit f r Digest Model x quarantine)
          (record w { quarantine = moved }))
        (λ _ u. (malware_blocked, refl))

  check_scan-accepted :
      (q : Upload) (result : ScanResult f Digest) (w : World f r Digest Model)
      {later : World f r Digest Model}
      → check_scan f r Digest Model x q result w ≡ (accepted tt, later)
      → (is_malicious_verdict result.verdict ≡ false)
        × (is_scan_failed result.verdict && x.scanner.fail_closed ≡ false)
  unfolding check_scan
  check_scan-accepted q result w h =
      let closed = is_scan_failed result.verdict && x.scanner.fail_closed in
      let moves = quarantine_upload f r Digest Model x q result in
      let (_, v, clean_check, h1) =
        then_do-accepted (λ _. when closed (refuse scan_failed_closed))
          (when (is_malicious_verdict result.verdict) moves w) h in
      (
        (when-accepted (is_malicious_verdict result.verdict) moves w
            (quarantine_upload-Stops q result) clean_check).0,
        (when-accepted closed (refuse scan_failed_closed) v (λ u. (scan_failed_closed, refl)) h1).0,
      )

  -- What `scan_all` hands on.
  abbrev scanned_of :
      Upload
      → TransferMonitor F × (AiResult F × Bool)
      → ScanResult f Digest
      → Scanned f r Digest Model x
  scanned_of q analysed scan_result = record {
    monitor = analysed.0;
    ai_result = analysed.1.0;
    force_quarantine =
        one_of (suffix q.safe_name) archive_extensions
        || analysed.1.1
        || soft_blocks f r Digest Model x analysed.1.0;
    scan_result = scan_result;
  }

  finish_scans :
      (q : Upload) (analysed : TransferMonitor F × (AiResult F × Bool))
      (result : ScanResult f Digest) (w later : World f r Digest Model)
      (s : Scanned f r Digest Model x)
      → (check_scan f r Digest Model x q result >> pure (scanned_of q analysed result)) w
        ≡ (accepted s, later)
      → IsScanned q s
  finish_scans q analysed result w later s h =
      let (_, v, checked, h1) =
        then_do-accepted (λ _. pure (scanned_of q analysed result))
          (check_scan f r Digest Model x q result w) h in
      let (harmless, scanned) = check_scan-accepted q result w checked in
      subst (IsScanned q) (accepted_inj (ap (λ p. p.0) h1))
        (record { harmless = harmless; scanned = scanned; calm = λ quiet. ground (arith, quiet) })

  pub scan_all-IsScanned :
      (q : Upload) (w later : World f r Digest Model) (s : Scanned f r Digest Model x)
      → scan_all f r Digest Model x q w ≡ (accepted s, later)
      → IsScanned q s
  unfolding scan_all
  scan_all-IsScanned q w later s h =
      let (analysed, v1, analysis, h1) =
        then_do-accepted _ (analyse_upload f r Digest Model x q w) h in
      let (result, v2, scanning, h2) =
        then_do-accepted _ (scan_upload f r Digest Model x q v1) h1 in
      finish_scans q analysed result v2 later s h2
