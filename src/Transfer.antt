-- ===== src/Transfer.antt =====
-- `internal_encrypt` (backend/app/routes/internal_engine_routes.py): the state that a request meets, what it
-- brings, and how it ends. The stages are in the modules below. Left out are the temporary file, times and
-- throughput, the thread that records telemetry, the key files of users and the file of captured packets.
pub mod Admission
pub mod Scans
pub mod Network
pub mod Encryption
pub mod Gates
pub mod Scanned
pub mod Accepted
pub mod Frames
pub mod Trusted
pub mod Substitution
pub mod Interception
pub mod Refused
pub mod Packages
pub mod Delivery
mod Tests
use Prim.Native.String.{◌++◌ as text_append}
use reserach.Base.{
  ℕ, Bool, true, false, not, ◌&&◌, String, Option, none, some, List, has_char, last_part, lower,
  str_eq, if◌then◌else◌,
}
use reserach.Base.Float.{Float}
use reserach.Ledger.{Sha}
use reserach.Ledger.Append as Append
use reserach.Privacy.Features.{Real}
use reserach.Ai.Analysis.{State}
use reserach.Malware.{Bytes, ScanResult}
use reserach.Quarantine.{Quarantine}
use reserach.Quarantine as Quarantined
use reserach.Network.Flow.{FlowStats}
use reserach.Network.Table.{Monitor}
use reserach.Network.Anomaly.{Engine, Stats, Signal}
use reserach.Network.Anomaly as Anomaly
use reserach.Mitm.{Keys, Monitors, Indicator, Severity}
use reserach.Prekeys.{EcdhPrekey, Session}
use reserach.Pfce.{Primitives, Draw}
use reserach.Pfce.Upload.{KeyEngine}
use reserach.Upce.{HybridMetadata}
use reserach.Classification.{Patterns}
use reserach.Mlkem.{PqcKey}
use reserach.Monitor.Reanalysis.{Service, Moment, Reanalysis}

-- The form of the request, with the client's address.
pub record Upload : Type 0 where
  -- `Path(file.filename or "uploaded_file").name`
  pub safe_name : String
  pub bytes : Bytes
  -- `file.size`
  pub size : Option ℕ
  pub sender_id : String
  pub receiver_id : String
  pub transfers_last_hour : ℕ
  pub mfa_failed_attempts : ℕ
  pub failed_login_attempts : ℕ
  pub transfer_id : String
  pub client_signature : String
  pub client_nonce : String
  pub original_file_sha256 : String
  pub issued_at : String
  pub sender_public_key_spki : String
  pub is_trusted_ip : Bool
  pub client_ip : String
  pub client_port : ℕ

-- `HTTPException`s with their details, and an exception that leaves the handler.
pub data Refusal : Type 0 where
  extension_blocked signature_required hash_mismatch key_substituted signature_invalid : Refusal
  malware_blocked scan_failed_closed interception_blocked : Refusal
  ledger_raised scan_raised : Refusal

abbrev pub status_code : Refusal → ℕ
status_code extension_blocked = 406
status_code malware_blocked = 406
status_code scan_failed_closed = 406
status_code ledger_raised = 500
status_code scan_raised = 500
status_code _ = 403

-- The events of the ledger, with what their details say of the request.
pub data Event : Type 0 where
  transfer_blocked : (ext : String) → Event
  integrity_failure : (actual_hash : String) → Event
  public_key_substitution_attempt : (expected observed : String) → Event
  signature_verification_failed : (key_fingerprint : String) → Event
  ai_block malware_detected quarantine signature_created : Event
  possible_interception : (indicators : List Indicator) (severity : Severity) → Event

abbrev pub event_type : Event → String
event_type (transfer_blocked ext) = "TRANSFER_BLOCKED"
event_type (integrity_failure hash) = "INTEGRITY_FAILURE"
event_type (public_key_substitution_attempt e o) = "PUBLIC_KEY_SUBSTITUTION_ATTEMPT"
event_type (signature_verification_failed fp) = "SIGNATURE_VERIFICATION_FAILED"
event_type ai_block = "AI_BLOCK"
event_type malware_detected = "MALWARE_DETECTED"
event_type quarantine = "QUARANTINE"
event_type signature_created = "PFCE_SIGNATURE_CREATED"
event_type (possible_interception i s) = "POSSIBLE_INTERCEPTION"

-- `Path(name).suffix.lower()`: from the last dot, unless it is the first or the last character.
unfoldable pub suffix : String → String
unfolding has_char last_part lower
suffix name =
    let part = last_part b'.' name in
    if has_char b'.' name && not (str_eq part "") && not (str_eq name (text_append "." part))
    then lower (text_append "." part)
    else ""

pub data Result (A : Type 0) : Type 0 where
  accepted : A → Result A
  rejected : Refusal → Result A

-- What was written stays written when an exception leaves the handler.
abbrev pub Action : Type 0 → Type 0 → Type 0
Action W A = W → Result A × W

module _ {W : Type 0} where
  abbrev pub pure : {A : Type 0} → A → Action W A
  pure a w = (accepted a, w)

  abbrev pub refuse : {A : Type 0} → Refusal → Action W A
  refuse e w = (rejected e, w)

  abbrev pub then_do : {A B : Type 0} → (A → Action W B) → Result A × W → Result B × W
  then_do f (accepted a, w) = f a w
  then_do f (rejected e, w) = (rejected e, w)

  infixl 5 ◌>>=◌ ◌>>◌
  abbrev pub ◌>>=◌ : {A B : Type 0} → Action W A → (A → Action W B) → Action W B
  ◌>>=◌ m f w = then_do f (m w)

  abbrev pub ◌>>◌ : {B : Type 0} → Action W Unit → Action W B → Action W B
  ◌>>◌ m k w = then_do (λ _. k) (m w)

  -- `if c:` with a branch that may raise.
  abbrev pub when : Bool → Action W Unit → Action W Unit
  when c m w = if c then m w else (accepted tt, w)

module _ (f : Float) (r : Real f) (Digest Model : Type 0) where
  open f use {F}

  -- The state that requests share; the table of audit blocks is a part of the quarantine's.
  pub record World : Type 0 where
    pub quarantine : Quarantine F Digest
    pub client_keys : Keys
    pub ai : State f r
    pub monitors : Monitors
    pub network : Monitor
    pub engine : Engine FlowStats Model
    pub prekeys : List EcdhPrekey
    pub pqc_keys : List PqcKey

  -- What a request meets outside: the libraries and settings, the clock, the blockchain node at each
  -- append, what the AI service meets at each analysis, and random draws.
  pub record Outside : Type 0 where
    pub primitives : Primitives Digest
    pub hexdigest : Digest → String
    pub verify_client_signature : String → String → String → Bool
    pub get_spki_fingerprint : String → String
    pub service : Service f r Digest
    pub scanner : Quarantined.World f Digest
    pub now : ℕ
    pub node : Event → Append.Node
    pub dumps : Event → String
    -- the first analysis, that of each fragment and the end of the monitoring
    pub first_moment : Moment f r
    pub moments : ℕ → Moment f r
    pub last_moment : Moment f r
    -- what `open` finds at the temporary path; none where it raises, as a `PermissionError` or not
    pub opened : Option Bytes
    pub permission_error : Bool
    pub safe_id : ℕ
    pub hour_of_day : ℕ
    pub int_of : String → Option ℕ
    -- `NETWORK_SENSOR_AVAILABLE`
    pub sensor : Bool
    pub patterns : Patterns
    pub stats_of : FlowStats → Stats f
    pub predict : Model → FlowStats → Anomaly.Verdict f
    pub fit : List FlowStats → Model
    pub min_samples : ℕ
    -- `UPCE_REQUIRE_TEE`
    pub requires_tee : Bool
    pub session : Session
    pub key_engine : KeyEngine HybridMetadata (List PqcKey)
    -- `f"{uuid.uuid4().hex}_{safe_name}"`
    pub stored_name : String
    -- where the size of a fragment is still to be brought into the range of the policy
    pub draws : ℕ → Draw

  module _ (x : Outside) where
    abbrev pub ended : Append.Outcome → Result Unit
    ended Append.returned = accepted tt
    ended Append.runtime_error = rejected ledger_raised

    -- `BlockchainService.append_block` with a session of its own.
    unfoldable pub audit : Event → Action World Unit
    audit event w =
        let (outcome, blocks) =
          Append.append_block x.service.sha x.service.environment (x.node event) (event_type event)
            (x.dumps event) x.now w.quarantine.blocks in
        (ended outcome, record w { quarantine = record w.quarantine { blocks = blocks } })
