-- ===== src/Lib.antt =====
-- Verification library of the secure file transfer engine.
--
-- The engine (backend/app) takes files from the Node gateway, scans and encrypts them, and records
-- what it does. These modules model its security logic:
--   Ledger: the hash-chained audit table and its blockchain anchoring,
--     backend/app/services/blockchain_service.py (append_block, verify_chain, _get_web3) and the
--     listeners of backend/app/database/models.py.
--   Privacy: backend/app/security/privacy/differential_privacy.py, the budget accountant
--     (consume_budget with its Lua script and its in-memory fallback) and privatize_features.
--   RateLimit: backend/app/core/rate_limiter.py.
--   InternalAuth: verify_internal_token of backend/app/security/internal_auth.py.
--   Network: backend/app/services/network_monitor.py and network_anomaly.py.
--   Malware: backend/app/services/malware_service.py (extract_features, predict, scan_full_file).
--   Quarantine: backend/app/security/quarantine; it calls Malware's scan and writes audit blocks.
--   Ai: backend/app/services/ai_service.py; analyze_transfer calls Privacy's privatize_features.
--   Monitor: backend/app/services/continuous_monitor.py, with the calls of it in pfce_engine.py and
--     routes/internal_engine_routes.py; it calls Ai, reads Privacy and writes audit blocks.
--   Prekeys: the one-time ECDH prekeys of backend/app/services/crypto_service.py.
--   Pfce: backend/app/services/pfce_engine.py with the fragment encryption of crypto_service.py; an
--     upload claims a prekey, a download deletes it.
--   Mlkem: the ML-KEM key pairs of users, backend/app/services/mlkem_service.py.
--   Upce: backend/app/services/upce_quantum_service.py; it is the key engine that an upload and a
--     download of Pfce are given, and takes the receiver's key pair from Mlkem.
--   Mitm: backend/app/security/mitm; evaluate_transfer reads the flow table of Network.
--   Classification: backend/app/services/classification_service.py.
--   Transfer: internal_encrypt of backend/app/routes/internal_engine_routes.py, which calls all of the
--     above over one state: the checks of the signature (Admission), the analysis and the malware scan
--     (Scans), the interception check (Network), and the encryption and the response (Encryption);
--     internal_decrypt only streams process_download_stream.
-- Each function of the source is a function of the same name that takes the state it changes and
-- returns the new one; a class is a record, an exception a constructor of the result. Base holds
-- texts, lists, dictionaries in insertion order and an interface of floats.
--
-- Parameters, with what is assumed of them: SHA-256 (injective where a theorem says so), the
-- blockchain node, Redis, jwt.decode, ClamAV, the trained models, the ciphers and RSA (decryption
-- undoes encryption), ECDH, ML-KEM and HKDF (both sides get the same secret), random draws,
-- the clock. Times are in microseconds, budgets in millionths of epsilon, float literals in
-- ten-thousandths. The retry
-- loops of append_block and claim_prekey are counted down from their three rounds. An upload reads
-- the stream with one round more than it has bytes, and a fragment with a round for each byte it
-- wants: every round but the last takes a byte, so both are enough, which Pfce.Fragments,
-- Pfce.Parts and Pfce.Rounds prove.
--
-- Taken as given: int(epsilon * scale) is exact, NETWORK_PACKET_SEQUENCE_LIMIT has its default, and
-- liboqs raises nothing when a key pair is generated.
--
-- Not modelled: failures of the database, loading and training of models, packet capture, writing of
-- files, and the components that PROJECT.json lists as such.
pub mod Base
pub mod Ledger
pub mod Privacy
pub mod RateLimit
pub mod InternalAuth
pub mod Network
pub mod Malware
pub mod Quarantine
pub mod Ai
pub mod Monitor
pub mod Prekeys
pub mod Pfce
pub mod Mitm
pub mod Mlkem
pub mod Upce
pub mod Transfer
pub mod Classification
