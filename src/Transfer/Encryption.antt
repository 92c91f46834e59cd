-- ===== src/Transfer/Encryption.antt =====
-- `internal_encrypt` (backend/app/routes/internal_engine_routes.py): the classification, the policy, the
-- encryption under the monitor, and the response; and the whole handler.
use Prim.Native.String.{◌++◌ as text_append}
use reserach.Base.{
  ℕ, suc, ◌+◌, ◌-◌, ◌%◌, Bool, true, false, ◌||◌, String, Option, none, some, List, [], ◌∷◌, map,
  take, if◌then◌else◌,
}
use reserach.Base.Float.{Float}
use reserach.Privacy.Features.{Real}
use reserach.Ai.{Level, low, medium, high, critical}
use reserach.Malware.{Verdict}
use reserach.Classification.{scan}
use reserach.Network.Anomaly.{Signal}
use reserach.Pfce.{Signature, Draw}
use reserach.Pfce.Upload.{Order, PfceUploadResult, process_upload}
use reserach.Upce.{HybridMetadata}
use reserach.Upce.Policy.{SecurityPolicy, select_crypto_policy}
use reserach.Monitor.{TransferMonitor}
use reserach.Monitor.Reanalysis.{Watch, complete_monitoring}
use reserach.Monitor.Steps.{watch_fragment, fragment_raises}
use reserach.Transfer.{
  Upload, ai_block, signature_created, Action, pure, ◌>>=◌, ◌>>◌, World, Outside, audit,
}
use reserach.Transfer.Admission.{file_size, actual_hash, fingerprint_of, admit_upload}
use reserach.Transfer.Scans.{AiResult, Scanned, score_or, scan_all}
use reserach.Transfer.Network.{check_interception, assess_flow, combined_risk_score, combine}

-- `ai_result.get("level", "low")`
abbrev pub level_text : Option Level → String
level_text none = "low"
level_text (some low) = "low"
level_text (some medium) = "medium"
level_text (some high) = "high"
level_text (some critical) = "critical"

-- `random.randint(min_bytes, max_bytes)`, from a number that is drawn.
abbrev pub in_range : SecurityPolicy → Draw → Draw
in_range policy d = record d {
  chunk_size =
      policy.min_chunk_bytes + d.chunk_size % suc (policy.max_chunk_bytes - policy.min_chunk_bytes);
}

abbrev pub or_default : {A : Type 0} → A → Option A → A
or_default default none = default
or_default default (some a) = a

module _ (f : Float) (r : Real f) (Digest Model : Type 0) (x : Outside f r Digest Model) where
  open f use {F, lit, le}

  -- What the response says of the decision; `stored` is what stands at `encrypted_path`, none where no
  -- file was written.
  pub record Response : Type 0 where
    pub original_hash : String
    pub stored : Option (PfceUploadResult x.primitives HybridMetadata)
    pub anomaly_score : F
    pub is_anomaly : Bool
    pub anomaly_level : Option Level
    pub classification_type : String
    pub key_fingerprint : String
    pub network_risk_score : F
    pub combined_risk_score : F
    pub network_signals : List Signal
    pub malware_verdict : Verdict
    pub quarantined : Bool

  abbrev pub signature_metadata : Upload → Signature Digest
  signature_metadata q = record {
    signer_id = q.sender_id;
    algorithm = "RSA-PSS-SHA256";
    key_fingerprint = fingerprint_of f r Digest Model x q;
    transfer_id = q.transfer_id;
    file_size = some (file_size f r Digest Model x q);
    signed_at = q.issued_at;
    nonce = q.client_nonce;
    original_file_sha256 = q.original_file_sha256;
    signature = q.client_signature;
  }

  abbrev pub order_of : Upload → String → SecurityPolicy → Order x.primitives
  order_of q classification policy = record {
    sender_id = q.sender_id;
    receiver_id = q.receiver_id;
    stored_name_prefix = x.stored_name;
    classification = classification;
    draws = λ k. in_range policy (x.draws k);
  }

  -- The monitor's call for each fragment, by their sizes, and whether one raises, which ends the loop.
  unfoldable pub watch_all : ℕ → List ℕ → Watch f r Digest → Bool × Watch f r Digest
  unfolding watch_fragment fragment_raises
  watch_all k [] w = (false, w)
  watch_all k (bytes_read ∷ sizes) w =
      let raised = fragment_raises f r x.service (x.moments k) bytes_read w in
      let later = watch_fragment f r x.service (x.moments k) bytes_read w in
      let rest = watch_all (k + 1) sizes later in if raised then (true, later) else rest

  abbrev pub fragment_sizes : PfceUploadResult x.primitives HybridMetadata → List ℕ
  fragment_sizes result = map (λ fragment. fragment.size) result.pfce_package.metadata.fragments

  abbrev pub with_watch : Watch f r Digest → World f r Digest Model → World f r Digest Model
  with_watch watch w = record w {
    ai = watch.ai;
    quarantine = record w.quarantine { blocks = watch.blocks };
  }

  abbrev pub Encrypted : Type 0
  Encrypted = Option (PfceUploadResult x.primitives HybridMetadata) × Bool

  -- The `except` branch: the transfer is to be quarantined, and there is no package.
  unfoldable pub give_up : Action (World f r Digest Model) Encrypted
  unfolding audit
  give_up = audit f r Digest Model x ai_block >> pure (none, true)

  -- The rest of `process_upload` where no evaluation has raised, its audit event being logged as far as
  -- that succeeds, and the end of the monitoring.
  unfoldable pub complete_upload :
      PfceUploadResult x.primitives HybridMetadata
      → Watch f r Digest
      → Action (World f r Digest Model) Encrypted
  unfolding complete_monitoring audit
  complete_upload result watch w =
      let logged = (audit f r Digest Model x signature_created (with_watch watch w)).1 in
      pure (some result, false)
        (with_watch
          (complete_monitoring f r x.service x.last_moment
            (record watch { blocks = logged.quarantine.blocks }))
          logged)

  -- What becomes of the package, with the evaluations of the loop; none where `process_upload` has raised
  -- before the loop.
  unfoldable pub finish_upload :
      TransferMonitor F
      → Option (PfceUploadResult x.primitives HybridMetadata)
      → Action (World f r Digest Model) Encrypted
  unfolding watch_all give_up complete_upload
  finish_upload monitor none w = give_up w
  finish_upload monitor (some result) w =
      let (raised, watch) =
        watch_all 0 (fragment_sizes result)
          (record { monitor = monitor; ai = w.ai; blocks = w.quarantine.blocks }) in
      if raised then give_up (with_watch watch w) else complete_upload result watch w

  -- The package, and whether the encryption failed.
  unfoldable pub encrypt_upload :
      Upload → Order x.primitives → TransferMonitor F → Action (World f r Digest Model) Encrypted
  unfolding process_upload finish_upload
  encrypt_upload q order monitor w =
      let (result, tables) =
        process_upload x.primitives x.requires_tee x.session (some x.key_engine) order
          (text_append x.stored_name ".pfce") (some (signature_metadata q)) q.bytes
          (w.prekeys, w.pqc_keys) in
      finish_upload monitor result (record w { prekeys = tables.0; pqc_keys = tables.1 })

  abbrev pub classification_of : Upload → String
  classification_of q = scan x.patterns (take 4_096 q.bytes) q.safe_name

  abbrev pub policy_of : Upload → Scanned f r Digest Model x → AiResult F → SecurityPolicy
  policy_of q scanned ai_result =
      select_crypto_policy f (classification_of q) (level_text ai_result.level)
        scanned.scan_result.confidence

  unfoldable pub respond :
      Upload
      → Scanned f r Digest Model x
      → F × List Signal
      → Option (PfceUploadResult x.primitives HybridMetadata) × Bool
      → Response
  unfolding combine combined_risk_score
  respond q scanned (network_risk_score, network_signals) (stored, failed) =
      let ai_result = combine f r Digest Model x scanned.ai_result network_risk_score in
      let force_quarantine = scanned.force_quarantine || failed in
      record {
        original_hash = actual_hash f r Digest Model x q;
        stored = stored;
        anomaly_score =
            score_or f r Digest Model x (if force_quarantine then lit 10_000 else lit 0)
              ai_result.anomaly_score;
        is_anomaly = or_default force_quarantine ai_result.is_anomaly;
        anomaly_level = elim ai_result.level [
          | some level ↦ some level
          | none ↦ if force_quarantine then some critical else none
        ];
        classification_type = classification_of q;
        key_fingerprint = fingerprint_of f r Digest Model x q;
        network_risk_score = network_risk_score;
        combined_risk_score =
            combined_risk_score f r Digest Model x scanned.ai_result network_risk_score;
        network_signals = network_signals;
        malware_verdict = scanned.scan_result.verdict;
        quarantined = force_quarantine;
      }

  unfoldable pub internal_encrypt : Upload → Action (World f r Digest Model) Response
  unfolding admit_upload scan_all check_interception assess_flow combine encrypt_upload respond
  internal_encrypt q = do
    admit_upload f r Digest Model x q
    scanned ← scan_all f r Digest Model x q
    check_interception f r Digest Model x q
    risk ← assess_flow f r Digest Model x q
    let ai_result = combine f r Digest Model x scanned.ai_result risk.0
    let order = order_of q (classification_of q) (policy_of q scanned ai_result)
    encrypted ← encrypt_upload q order scanned.monitor
    pure (respond q scanned risk encrypted)
