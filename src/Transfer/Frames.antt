-- ===== src/Transfer/Frames.antt =====
-- The stages between the checks of the signature and the encryption change neither the trusted keys of
-- clients nor the prekeys nor the key pairs.
use reserach.Base.{
  ◌≡◌, refl, ◌∙◌, Bool, true, false, ◌&&◌, List, Option-cases, Bool-cases, inl, inr,
}
use reserach.Base.Float.{Float}
use reserach.Privacy.Features.{Real}
use reserach.Prekeys.{EcdhPrekey}
use reserach.Mlkem.{PqcKey}
use reserach.Mitm.{Keys, evaluate_transfer}
use reserach.Malware.{ScanResult, scan_full_file}
use reserach.Quarantine.{at_path}
use reserach.Quarantine.Service.{is_malicious_verdict, quarantine_file}
use reserach.Monitor.Reanalysis.{Reanalysis, reanalyzed, analysis_raised, reanalyze_transfer}
use reserach.Monitor.Steps.{new_monitor}
use reserach.Network.Table.{get_flow_stats_by_client}
use reserach.Transfer.{
  ai_block, malware_detected, quarantine, malware_blocked, scan_failed_closed,
  possible_interception, interception_blocked, Upload, Event, Refusal, Result, accepted, rejected,
  Action, pure, refuse, then_do, ◌>>=◌, ◌>>◌, when, World, Outside, audit,
}
use reserach.Transfer.Scans.{
  is_scan_failed, monitor_request, conclude_analysis, analyse_upload, scan_upload, check_scan,
  quarantine_request, quarantine_upload, scan_all,
}
use reserach.Transfer.Network.{blocks, check_interception, assess_flow}

-- The tables of prekeys and of key pairs.
abbrev pub tables :
    {f : Float} {r : Real f} {Digest Model : Type 0}
    → World f r Digest Model
    → List EcdhPrekey × List PqcKey
tables w = (w.prekeys, w.pqc_keys)

-- With the trusted keys of the clients.
abbrev pub stores :
    {f : Float} {r : Real f} {Digest Model : Type 0}
    → World f r Digest Model
    → Keys × (List EcdhPrekey × List PqcKey)
stores w = (w.client_keys, tables w)

module _ (f : Float) (r : Real f) (Digest Model : Type 0) (x : Outside f r Digest Model) where
  abbrev pub W : Type 0
  W = World f r Digest Model

  -- The action changes none of them.
  abbrev pub Frames : {A : Type 0} → Action W A → Type 0
  Frames m = (w : W) → stores (m w).1 ≡ stores w

  then_do-Frames :
      {A B : Type 0} (g : A → Action W B) (result : Result A) (v : W)
      → ((a : A) → Frames (g a))
      → stores (then_do g (result, v)).1 ≡ stores v
  then_do-Frames g (accepted a) v h = h a v
  then_do-Frames g (rejected e) v h = refl

  pub bind-Frames :
      {A B : Type 0} (m : Action W A) (g : A → Action W B)
      → Frames m
      → ((a : A) → Frames (g a))
      → Frames (m >>= g)
  bind-Frames m g hm hg w = then_do-Frames g (m w).0 (m w).1 hg ∙ hm w

  pub when-Frames : (c : Bool) (m : Action W Unit) → Frames m → Frames (when c m)
  when-Frames true m h w = h w
  when-Frames false m h w = refl

  pub audit-Frames : (event : Event) → Frames (audit f r Digest Model x event)
  unfolding audit
  audit-Frames event w = refl

  refused-Frames :
      (event : Event) (e : Refusal) → Frames {A = Unit} (audit f r Digest Model x event >> refuse e)
  refused-Frames event e =
      bind-Frames (audit f r Digest Model x event) (λ _. refuse e) (audit-Frames event)
        (λ _ w. refl)

  -- A check that refuses with an audit event.
  pub audited-Frames :
      (c : Bool) (event : Event) (e : Refusal)
      → Frames {A = Unit} (when c (audit f r Digest Model x event >> refuse e))
  audited-Frames c event e =
      when-Frames c (audit f r Digest Model x event >> refuse e) (refused-Frames event e)

  conclude_analysis-Frames : (a : Reanalysis f r) → Frames (conclude_analysis f r Digest Model x a)
  unfolding conclude_analysis
  conclude_analysis-Frames (reanalyzed a quarantined) w = refl
  conclude_analysis-Frames (analysis_raised answer) w =
      bind-Frames (audit f r Digest Model x ai_block) _ (audit-Frames ai_block) (λ _ v. refl) w

  analyse_upload-Frames : (q : Upload) → Frames (analyse_upload f r Digest Model x q)
  unfolding analyse_upload
  analyse_upload-Frames q w =
      let seen = reanalyze_transfer f r x.service x.first_moment (record {
        monitor = new_monitor f r x.now (monitor_request f r Digest Model x q);
        ai = w.ai;
        blocks = w.quarantine.blocks;
      }) in
      bind-Frames (conclude_analysis f r Digest Model x seen.0) (λ c. pure (seen.1.monitor, c))
        (conclude_analysis-Frames seen.0) (λ c v. refl)
        (record w { ai = seen.1.ai; quarantine = record w.quarantine { blocks = seen.1.blocks } })

  scan_upload-Frames : (q : Upload) → Frames (scan_upload f r Digest Model x q)
  unfolding scan_upload
  scan_upload-Frames q w =
      elim (Option-cases (
        scan_full_file f x.scanner.math x.scanner.hash_bytes x.scanner.model x.scanner.fail_closed
          x.scanner.clamav x.opened q.safe_name)) [
            | inr (result, h) ↦ rw (scan_upload, h) refl
            | inl h ↦ elim (Bool-cases x.permission_error) [
              | inl denied ↦ rw (scan_upload, h, denied) refl
              | inr other ↦ rw (scan_upload, h, other) refl
            ]
          ]

  quarantine_upload-Frames :
      (q : Upload) (s : ScanResult f Digest) → Frames (quarantine_upload f r Digest Model x q s)
  unfolding quarantine_upload
  quarantine_upload-Frames q s w =
      let moved =
        (quarantine_file f x.scanner x.now x.safe_id (quarantine_request f r Digest Model x q s)
          (at_path q.bytes) w.quarantine).1 in
      bind-Frames (audit f r Digest Model x malware_detected >> audit f r Digest Model x quarantine)
        (λ _. refuse malware_blocked)
        (bind-Frames (audit f r Digest Model x malware_detected) _ (audit-Frames malware_detected)
          (λ _. audit-Frames quarantine))
        (λ _ v. refl) (record w { quarantine = moved })

  check_scan-Frames :
      (q : Upload) (s : ScanResult f Digest) → Frames (check_scan f r Digest Model x q s)
  unfolding check_scan
  check_scan-Frames q s =
      bind-Frames (when (is_malicious_verdict s.verdict) (quarantine_upload f r Digest Model x q s))
        _ (when-Frames (is_malicious_verdict s.verdict) _ (quarantine_upload-Frames q s))
        (λ _.
          when-Frames (is_scan_failed s.verdict && x.scanner.fail_closed)
            (refuse scan_failed_closed) (λ v. refl))

  pub scan_all-Frames : (q : Upload) → Frames (scan_all f r Digest Model x q)
  unfolding scan_all
  scan_all-Frames q =
      bind-Frames (analyse_upload f r Digest Model x q) _ (analyse_upload-Frames q) (λ a.
        bind-Frames (scan_upload f r Digest Model x q) _ (scan_upload-Frames q) (λ s.
          bind-Frames (check_scan f r Digest Model x q s) _ (check_scan-Frames q s) (λ _ v. refl)))

  pub check_interception-Frames : (q : Upload) → Frames (check_interception f r Digest Model x q)
  unfolding check_interception
  check_interception-Frames q w =
      let seen = evaluate_transfer x.sensor q.client_ip q.client_port "" "" w.network w.monitors in
      audited-Frames (seen.0.findings.detected && blocks seen.0.severity)
        (possible_interception seen.0.findings.indicators seen.0.severity) interception_blocked
        (record w { monitors = seen.1 })

  pub assess_flow-Frames : (q : Upload) → Frames (assess_flow f r Digest Model x q)
  unfolding assess_flow
  assess_flow-Frames q w =
      elim (Option-cases (get_flow_stats_by_client q.client_ip q.client_port w.network)) [
        | inl h ↦ rw (assess_flow, h) refl
        | inr (entry, h) ↦ rw (assess_flow, h) refl
      ]
