-- ===== src/Transfer/Tests.antt =====
-- Tests of the handler, and its theorems at concrete requests.
use reserach.Base.{
  ℕ, ◌+◌, ◌≡◌, refl, sym, ap, Bool, true, false, ◌&&◌, String, Option, none, some, List, [], ◌∷◌,
  length, one_of, inl,
}
use reserach.Base.Float.{decimal}
use reserach.Privacy.Decimal.{decimal_real}
use reserach.Ledger.Symbolic.{Code, symbolic}
use reserach.Malware.{clean}
use reserach.Quarantine.Tests as QuarantineTests
use reserach.Network.Anomaly.{warming_up}
use reserach.Prekeys.{Session}
use reserach.Pfce.{Primitives}
use reserach.Pfce.Upload.{KeyEngine}
use reserach.Pfce.Tests.{toy, dots}
use reserach.Mlkem.{PqcKey}
use reserach.Upce.{HybridMetadata}
use reserach.Monitor.Tests as MonitorTests
use reserach.Transfer.{
  Upload, extension_blocked, Result, accepted, rejected, suffix, World, Outside,
}
use reserach.Transfer.Encryption.{Response, internal_encrypt}
use reserach.Transfer.Gates.{IsAdmitted}
use reserach.Transfer.Accepted.{IsCleared, internal_encrypt-IsCleared}
use reserach.Transfer.Refused.{internal_encrypt-refused}
use reserach.Transfer.Network.{check_interception}
use reserach.Transfer.Encryption.{or_default}
use reserach.Transfer.Delivery.{internal_decrypt-internal_encrypt}
use reserach.Pfce.{IsCorrect}
use reserach.Pfce.Fragments.{join_chunks}
use reserach.Pfce.Tests.{toy-IsCorrect, trusting}
use reserach.Pfce.Upload.{PfceUploadResult}
use reserach.Pfce.Download.{Verifier, ok, check_signature, recover_kek, process_download_stream}
use reserach.Prekeys.{get_and_delete_prekey}
use reserach.Base.{◌⊎◌, string_eq}
use reserach.Base.Dict.{lookup}
use reserach.Mitm.{trusted, TrustedClientKey, verify_public_key}
use reserach.Transfer.Admission.{fingerprint_of}
use reserach.Transfer.{Refusal}
use reserach.Transfer.Substitution.{key_stored_unsigned}
use reserach.Transfer.Interception.{IsOwn, check_interception_accepts}

archive_suffix : suffix "notes.tar.GZ" ≡ ".gz"
unfolding suffix
archive_suffix = refl

no_suffix : suffix ".bashrc" ≡ ""
unfolding suffix
no_suffix = refl

abbrev coded : Primitives Code
coded = record {
  digest_eq = symbolic.eq;
  sha256 = λ bytes. Code.canonical "" "" Code.zeros (length bytes);
  encrypt = toy.encrypt;
  decrypt = toy.decrypt;
  rsa_encrypt = toy.rsa_encrypt;
  rsa_decrypt = toy.rsa_decrypt;
  fragment_name = λ prefix n. dots n;
  str = dots;
  public_key_pem = λ pem. some pem;
}

-- An engine that never agrees on hybrid keys.
abbrev without_hybrid : KeyEngine HybridMetadata (List PqcKey)
without_hybrid = record {
  initialize_transfer_security = λ sender receiver pem transfer_id keys. (none, keys);
  enabled = λ metadata. metadata.enabled;
  recover_transfer_security = λ sender receiver transfer_id metadata private public keys. some none;
}

abbrev session : Session
session = record {
  now = 100;
  fresh = λ n k. record { new_id = dots k; public_pem = "t"; private_pem = "t" };
  between = λ n table. table;
}

-- The scanner finds nothing, the ledger is local, and all signatures hold.
abbrev outside : Outside decimal decimal_real Code Unit
outside = record {
  primitives = coded;
  hexdigest = λ c. "h";
  verify_client_signature = λ payload signature spki. true;
  get_spki_fingerprint = λ spki. spki;
  service = MonitorTests.service;
  scanner = QuarantineTests.opened;
  now = 1_000;
  node = λ event. (MonitorTests.moment 1_000).node;
  dumps = λ event. "{}";
  first_moment = MonitorTests.moment 1_000;
  moments = λ k. MonitorTests.moment (2_000 + k);
  last_moment = MonitorTests.moment 9_000;
  opened = some (1 ∷ 2 ∷ 3 ∷ []);
  permission_error = false;
  safe_id = 1;
  hour_of_day = 14;
  int_of = λ text. none;
  sensor = true;
  patterns = record {
    has_credit_card = λ text. false;
    has_social_security_number = λ text. false;
    decode = λ bytes. "";
  };
  stats_of = λ flow. record {
    retransmissions = 0;
    out_of_order = 0;
    sequence_gaps = 0;
    rst_count = 0;
    packet_rate = 0;
    arp_mapping_changed = false;
  };
  predict = λ model flow. record { decision = 0; is_outlier = false };
  fit = λ samples. tt;
  min_samples = 50;
  requires_tee = false;
  session = session;
  key_engine = without_hybrid;
  stored_name = "s";
  draws = λ k. record {
    chunk_size = 0;
    aes_key = 5 ∷ [];
    file_nonce = [];
    picks_aes = true;
    oaep_seed = [];
    hybrid_wrap_nonce = [];
  };
}

abbrev world : World decimal decimal_real Code Unit
world = record {
  quarantine = record { files = []; items = []; blocks = [] };
  client_keys = [];
  ai = MonitorTests.untouched;
  monitors = record {
    arp_monitor = record { trusted_macs = []; active = true };
    gateway_monitor = record { baseline_gateway_ip = ""; baseline_interface = "" };
  };
  network = record { flows = []; total_packets_processed = 0; pcap_buffers = [] };
  engine = record { model = none; baseline_data = []; state = warming_up };
  prekeys = [];
  pqc_keys = [];
}

abbrev notes : Upload
notes = record {
  safe_name = "notes.txt";
  bytes = 1 ∷ 2 ∷ 3 ∷ [];
  size = none;
  sender_id = "7";
  receiver_id = "8";
  transfers_last_hour = 1;
  mfa_failed_attempts = 0;
  failed_login_attempts = 0;
  transfer_id = "t1";
  client_signature = "sig";
  client_nonce = "n";
  original_file_sha256 = "h";
  issued_at = "now";
  sender_public_key_spki = "aa";
  is_trusted_ip = false;
  client_ip = "10.0.0.2";
  client_port = 443;
}

abbrev script : Upload
script = record notes { safe_name = "run.SH" }

abbrev outcome :
    Upload
    → Result (Response decimal decimal_real Code Unit outside)
      × World decimal decimal_real Code Unit
outcome q = internal_encrypt decimal decimal_real Code Unit outside q world

script_refused : (outcome script).0 ≡ rejected extension_blocked
unfolding internal_encrypt reserach.Ledger.Append.append_block reserach.Ledger.Append.anchor
script_refused = refl

script_refusal : outcome script ≡ (rejected extension_blocked, (outcome script).1)
unfolding internal_encrypt reserach.Ledger.Append.append_block reserach.Ledger.Append.anchor
script_refusal = refl

internal_encrypt-refused_example :
    ((outcome script).1.prekeys ≡ world.prekeys)
    × ((outcome script).1.pqc_keys ≡ world.pqc_keys)
    × (((outcome script).1.client_keys ≡ world.client_keys)
        ⊎ ((outcome script).1.client_keys
            ≡ (verify_public_key script.sender_id
                (fingerprint_of decimal decimal_real Code Unit outside script)
                world.client_keys).1))
internal_encrypt-refused_example =
    internal_encrypt-refused decimal decimal_real Code Unit outside script world (outcome script).1
      extension_blocked script_refusal (λ h. cc)

abbrev fallback : Response decimal decimal_real Code Unit outside
fallback = record {
  original_hash = "";
  stored = none;
  anomaly_score = 0;
  is_anomaly = true;
  anomaly_level = none;
  classification_type = "";
  key_fingerprint = "";
  network_risk_score = 0;
  combined_risk_score = 0;
  network_signals = [];
  malware_verdict = clean;
  quarantined = true;
}

abbrev answer_of :
    Result (Response decimal decimal_real Code Unit outside)
    → Response decimal decimal_real Code Unit outside
answer_of (accepted a) = a
answer_of (rejected e) = fallback

abbrev answer : Response decimal decimal_real Code Unit outside
answer = answer_of (outcome notes).0

notes_accepted : outcome notes ≡ (accepted answer, (outcome notes).1)
unfolding internal_encrypt reserach.Ledger.Append.append_block reserach.Ledger.Append.anchor
    reserach.Ai.Analysis.analyze_transfer reserach.Privacy.Features.privatize_features
    reserach.Monitor.Telemetry.calculate_rolling_heuristics
    reserach.Ai.Heuristics.dp_heuristic_assessment reserach.Privacy.Features.unprotected
    reserach.Base.Float.fmax reserach.Base.Float.fmin reserach.Upce.Policy.select_crypto_policy
    reserach.Classification.scan reserach.Base.contains_any
    reserach.Privacy.Status.get_budget_status reserach.Base.Int.◌-ℤ◌
notes_accepted = refl

notes_delivered : answer.quarantined ≡ false
unfolding internal_encrypt reserach.Ledger.Append.append_block reserach.Ledger.Append.anchor
    reserach.Ai.Analysis.analyze_transfer reserach.Privacy.Features.privatize_features
    reserach.Monitor.Telemetry.calculate_rolling_heuristics
    reserach.Ai.Heuristics.dp_heuristic_assessment reserach.Privacy.Features.unprotected
    reserach.Base.Float.fmax reserach.Base.Float.fmin reserach.Upce.Policy.select_crypto_policy
    reserach.Classification.scan reserach.Base.contains_any
    reserach.Privacy.Status.get_budget_status reserach.Base.Int.◌-ℤ◌
notes_delivered = refl

internal_encrypt-IsCleared_example :
    IsAdmitted decimal decimal_real Code Unit outside notes world
    × IsCleared decimal decimal_real Code Unit outside notes answer
internal_encrypt-IsCleared_example =
    internal_encrypt-IsCleared decimal decimal_real Code Unit outside notes world (outcome notes).1
      answer notes_accepted

archive_quarantined :
    (answer_of (outcome (record notes { safe_name = "notes.zip" })).0).quarantined ≡ true
unfolding internal_encrypt reserach.Ledger.Append.append_block reserach.Ledger.Append.anchor
    reserach.Ai.Analysis.analyze_transfer reserach.Privacy.Features.privatize_features
    reserach.Monitor.Telemetry.calculate_rolling_heuristics
    reserach.Ai.Heuristics.dp_heuristic_assessment reserach.Privacy.Features.unprotected
    reserach.Base.Float.fmax reserach.Base.Float.fmin reserach.Upce.Policy.select_crypto_policy
    reserach.Classification.scan reserach.Base.contains_any
    reserach.Privacy.Status.get_budget_status reserach.Base.Int.◌-ℤ◌
archive_quarantined = refl

check_interception_accepts_example :
    let (result, later) = check_interception decimal decimal_real Code Unit outside notes world in
    (result ≡ accepted tt) × IsOwn later.monitors.gateway_monitor
check_interception_accepts_example =
    check_interception_accepts decimal decimal_real Code Unit outside notes world (inl refl)

coded-IsCorrect : IsCorrect coded
coded-IsCorrect = record {
  decrypt-encrypt = λ c key nonce m. refl;
  rsa_decrypt-encrypt = λ user seed m. refl;
  fragment_name_inj = λ prefix. toy-IsCorrect.fragment_name_inj prefix;
}

abbrev nothing_stored : PfceUploadResult coded HybridMetadata
nothing_stored = record {
  pfce_package = record {
    metadata = record {
      sender_id = "";
      receiver_id = "";
      hybrid = none;
      fragments = [];
      signature = none;
    };
    entries = [];
  };
  fragment_count = 0;
  original_hash = coded.sha256 [];
}

abbrev stored_result : PfceUploadResult coded HybridMetadata
stored_result = or_default nothing_stored answer.stored

notes_stored : answer.stored ≡ some stored_result
unfolding internal_encrypt reserach.Ledger.Append.append_block reserach.Ledger.Append.anchor
    reserach.Ai.Analysis.analyze_transfer reserach.Privacy.Features.privatize_features
    reserach.Monitor.Telemetry.calculate_rolling_heuristics
    reserach.Ai.Heuristics.dp_heuristic_assessment reserach.Privacy.Features.unprotected
    reserach.Base.Float.fmax reserach.Base.Float.fmin reserach.Upce.Policy.select_crypto_policy
    reserach.Classification.scan reserach.Base.contains_any
    reserach.Privacy.Status.get_budget_status reserach.Base.Int.◌-ℤ◌
notes_stored = refl

abbrev clients : Verifier
clients = record trusting { get_spki_fingerprint = λ spki. spki }

abbrev no_engine : Option (KeyEngine HybridMetadata Unit)
no_engine = none

notes_signed : check_signature coded clients stored_result.pfce_package.metadata "8" "aa" ≡ ok tt
unfolding internal_encrypt reserach.Ledger.Append.append_block reserach.Ledger.Append.anchor
    reserach.Ai.Analysis.analyze_transfer reserach.Privacy.Features.privatize_features
    reserach.Monitor.Telemetry.calculate_rolling_heuristics
    reserach.Ai.Heuristics.dp_heuristic_assessment reserach.Privacy.Features.unprotected
    reserach.Base.Float.fmax reserach.Base.Float.fmin reserach.Upce.Policy.select_crypto_policy
    reserach.Classification.scan reserach.Base.contains_any
    reserach.Privacy.Status.get_budget_status reserach.Base.Int.◌-ℤ◌
    reserach.Pfce.Download.check_signature
notes_signed = refl

notes_recovers :
    recover_kek coded no_engine "8" "t1" stored_result.pfce_package.metadata
      (get_and_delete_prekey "8" "t1" []).0
      tt
    ≡ ok none
unfolding recover_kek
notes_recovers = refl

internal_decrypt-internal_encrypt_example :
    let d =
      (process_download_stream coded clients no_engine "t1" "8" "aa" stored_result.pfce_package tt
        []).0 in
    (d.failure ≡ none) × (join_chunks d.yielded ≡ notes.bytes)
internal_decrypt-internal_encrypt_example =
    internal_decrypt-internal_encrypt decimal decimal_real Code Unit outside coded-IsCorrect notes
      world (outcome notes).1 answer stored_result clients no_engine "t1" "aa" tt [] notes_accepted
      notes_stored notes_signed notes_recovers

-- Anyone can sign for anyone.
abbrev forgery : Outside decimal decimal_real Code Unit
forgery = record outside { verify_client_signature = λ payload signature spki. false }

-- The sender has another trusted key.
abbrev known_sender : World decimal decimal_real Code Unit
known_sender = record world {
  client_keys = ("7", record { fingerprint = "bb"; status = trusted }) ∷ [];
}

key_stored_unsigned_example :
    (e : Refusal) × (later : World decimal decimal_real Code Unit) × (internal_encrypt decimal
        decimal_real Code Unit forgery notes known_sender
      ≡ (rejected e, later))
    × ((key : TrustedClientKey) × (lookup string_eq "7" later.client_keys ≡ some key)
        × (key.fingerprint ≡ "aa"))
unfolding suffix verify_public_key
key_stored_unsigned_example =
    key_stored_unsigned decimal decimal_real Code Unit forgery notes known_sender refl refl refl
      refl refl refl
