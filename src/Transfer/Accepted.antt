-- ===== src/Transfer/Accepted.antt =====
-- What a response of `internal_encrypt` says.
use mathlib.Core.Path.{subst}
use reserach.Network.Anomaly.{Signal}
use reserach.Base.{
  ◌≡◌, ◌≢◌, if◌then◌else◌, refl, sym, ap, ◌∙◌, Bool, true, false, ◌&&◌, ◌||◌, Option, none, some,
  List, one_of, arith,
}
use reserach.Base.Float.{Float}
use reserach.Privacy.Features.{Real}
use reserach.Quarantine.Service.{is_malicious_verdict}
use reserach.Monitor.{TransferMonitor}
use reserach.Monitor.Reanalysis.{Watch}
use reserach.Pfce.Upload.{Order, PfceUploadResult}
use reserach.Upce.{HybridMetadata}
use reserach.Transfer.{Upload, ai_block, suffix, accepted, Action, pure, World, Outside, audit}
use reserach.Transfer.Admission.{admit_upload}
use reserach.Transfer.Scans.{AiResult, archive_extensions, is_scan_failed, Scanned, scan_all}
use reserach.Transfer.Network.{check_interception, assess_flow, combine}
use reserach.Transfer.Encryption.{
  Response, order_of, classification_of, policy_of, Encrypted, fragment_sizes, watch_all, give_up,
  complete_upload, finish_upload, encrypt_upload, respond, internal_encrypt,
}
use reserach.Transfer.Scanned.{accepted_inj, IsScanned, scan_all-IsScanned}
use reserach.Transfer.Gates.{then_do-accepted, IsAdmitted, admit_upload-IsAdmitted}

true-ne-false : ◌≢◌ {A = Bool} true false
true-ne-false h = cc

||-false_left : (a b : Bool) → a || b ≡ false → a ≡ false
||-false_left true b h = h
||-false_left false b h = refl

module _ (f : Float) (r : Real f) (Digest Model : Type 0) (x : Outside f r Digest Model) where
  open f use {F, lit, le}

  -- A package is missing only where the failure has forced quarantine.
  abbrev Delivers : Action (World f r Digest Model) (Encrypted f r Digest Model x) → Type 0
  Delivers m =
      (w later : World f r Digest Model) (e : Encrypted f r Digest Model x)
      → m w ≡ (accepted e, later)
      → e.1 ≡ false
      → (result : PfceUploadResult x.primitives HybridMetadata) × (e.0 ≡ some result)

  give_up-Delivers : Delivers (give_up f r Digest Model x)
  unfolding give_up
  give_up-Delivers w later e h quiet =
      let (_, v, logged, h1) =
        then_do-accepted (λ _. pure (none, true)) (audit f r Digest Model x ai_block w) h in
      let same = accepted_inj (ap (λ p. p.0) h1) in
      absurd (true-ne-false (ap (λ p. p.1) same ∙ quiet))

  complete_upload-Delivers :
      (result : PfceUploadResult x.primitives HybridMetadata) (watch : Watch f r Digest)
      → Delivers (complete_upload f r Digest Model x result watch)
  unfolding complete_upload
  complete_upload-Delivers result watch w later e h quiet =
      (result, sym (ap (λ p. p.0) (accepted_inj (ap (λ p. p.0) h))))

  watched-Delivers :
      (raised : Bool) (result : PfceUploadResult x.primitives HybridMetadata)
      (watch : Watch f r Digest) (v w later : World f r Digest Model)
      (e : Encrypted f r Digest Model x)
      → (if raised
          then give_up f r Digest Model x v
          else complete_upload f r Digest Model x result watch w)
        ≡ (accepted e, later)
      → e.1 ≡ false
      → (result : PfceUploadResult x.primitives HybridMetadata) × (e.0 ≡ some result)
  watched-Delivers true result watch v w later e h quiet = give_up-Delivers v later e h quiet
  watched-Delivers false result watch v w later e h quiet =
      complete_upload-Delivers result watch w later e h quiet

  finish_upload-Delivers :
      (monitor : TransferMonitor F) (made : Option (PfceUploadResult x.primitives HybridMetadata))
      → Delivers (finish_upload f r Digest Model x monitor made)
  unfolding finish_upload
  finish_upload-Delivers monitor none w later e h quiet = give_up-Delivers w later e h quiet
  finish_upload-Delivers monitor (some result) w later e h quiet =
      let (raised, watch) =
        watch_all f r Digest Model x 0 (fragment_sizes f r Digest Model x result)
          (record { monitor = monitor; ai = w.ai; blocks = w.quarantine.blocks }) in
      watched-Delivers raised result watch _ w later e h quiet

  encrypt_upload-Delivers :
      (q : Upload) (order : Order x.primitives) (monitor : TransferMonitor F)
      → Delivers (encrypt_upload f r Digest Model x q order monitor)
  unfolding encrypt_upload
  encrypt_upload-Delivers q order monitor w later e h quiet =
      finish_upload-Delivers monitor _ _ later e h quiet

  -- What an accepted request has passed, besides the checks before the scans.
  pub record IsCleared (q : Upload) (a : Response f r Digest Model x) : Type 0 where
    pub harmless : is_malicious_verdict a.malware_verdict ≡ false
    pub scanned : is_scan_failed a.malware_verdict && x.scanner.fail_closed ≡ false
    pub delivered :
        a.quarantined ≡ false
        → (one_of (suffix q.safe_name) archive_extensions ≡ false)
          × (le (lit 8_000) a.anomaly_score ≡ false)
          × ((result : PfceUploadResult x.primitives HybridMetadata) × (a.stored ≡ some result))

  combine_score :
      (ai_result : AiResult F) (network_risk_score : F)
      → (combine f r Digest Model x ai_result network_risk_score).anomaly_score
        ≡ ai_result.anomaly_score
  unfolding combine
  combine_score ai_result network_risk_score = ground arith

  respond-IsCleared :
      (q : Upload) (s : Scanned f r Digest Model x) (risk : F × List Signal)
      (e : Option (PfceUploadResult x.primitives HybridMetadata) × Bool)
      → IsScanned f r Digest Model x q s
      → (e.1 ≡ false
          → (result : PfceUploadResult x.primitives HybridMetadata) × (e.0 ≡ some result))
      → IsCleared q (respond f r Digest Model x q s risk e)
  unfolding respond combine
  respond-IsCleared q s risk e h stored = record {
    harmless = h.harmless;
    scanned = h.scanned;
    delivered = λ quiet.
        let parts : (s.force_quarantine ≡ false) × (e.1 ≡ false) = ground (arith, quiet) in
        let (single, calm) = h.calm parts.0 in
        (
          single,
          rw (combine_score s.ai_result risk.0, parts.0, parts.1) (||-false_left _ _ calm),
          stored parts.1,
        );
  }

  -- A request that is answered was let in by every check: its file name has no executable extension, the
  -- signature and the key are given, the file has the signed hash, the sender's key is not refused, the
  -- signature holds, the scan did not find malware and, where that is required, did not fail. And where
  -- the answer does not say that the transfer is quarantined, the file is no archive, the score is below
  -- 0.8, and the package was written.
  pub internal_encrypt-IsCleared :
      (q : Upload) (w later : World f r Digest Model) (a : Response f r Digest Model x)
      → internal_encrypt f r Digest Model x q w ≡ (accepted a, later)
      → IsAdmitted f r Digest Model x q w × IsCleared q a
  unfolding internal_encrypt
  internal_encrypt-IsCleared q w later a h =
      let (_, v1, admitted, h1) = then_do-accepted _ (admit_upload f r Digest Model x q w) h in
      let (s, v2, scanning, h2) = then_do-accepted _ (scan_all f r Digest Model x q v1) h1 in
      let (_, v3, checked, h3) =
        then_do-accepted _ (check_interception f r Digest Model x q v2) h2 in
      let (risk, v4, assessed, h4) = then_do-accepted _ (assess_flow f r Digest Model x q v3) h3 in
      let order =
        order_of f r Digest Model x q (classification_of f r Digest Model x q)
          (policy_of f r Digest Model x q s (combine f r Digest Model x s.ai_result risk.0)) in
      let (e, v5, encrypted, h5) =
        then_do-accepted _ (encrypt_upload f r Digest Model x q order s.monitor v4) h4 in
      (
        admit_upload-IsAdmitted f r Digest Model x q w v1 admitted,
        subst (IsCleared q) (accepted_inj (ap (λ p. p.0) h5)) (
            respond-IsCleared q s risk e (scan_all-IsScanned f r Digest Model x q v1 v2 s scanning)
              (encrypt_upload-Delivers q order s.monitor v4 v5 e encrypted)),
      )
