-- ===== src/Transfer/Packages.antt =====
-- What `internal_encrypt` (backend/app/routes/internal_engine_routes.py) stores: the package that
-- `process_upload` makes of the file, with the hybrid keys that the engine agrees on.
use Prim.Native.String.{◌++◌ as text_append}
use reserach.Base.{
  inl, inr, ◌≡◌, refl, sym, ap, ◌∙◌, Bool, true, false, String, Option, none, some, List, some_inj,
  some-ne-none, if◌then◌else◌,
}
use reserach.Base.Float.{Float}
use reserach.Privacy.Features.{Real}
use reserach.Malware.{Bytes}
use reserach.Prekeys.{EcdhPrekey, Session, claim_prekey}
use reserach.Pfce.{Primitives, Signature}
use reserach.Pfce.Upload.{
  KeyEngine, Order, PfceUploadResult, package_of, initialize_security, process_upload,
}
use reserach.Mlkem.{PqcKey}
use reserach.Upce.{HybridMetadata}
use reserach.Monitor.{TransferMonitor}
use reserach.Monitor.Reanalysis.{Watch}
use reserach.Transfer.{Upload, accepted, ai_block, pure, Action, World, Outside, audit}
use reserach.Transfer.Encryption.{
  Encrypted, signature_metadata, fragment_sizes, watch_all, give_up, complete_upload, finish_upload,
  encrypt_upload,
}
use reserach.Network.Anomaly.{Signal}
use reserach.Transfer.Scans.{Scanned, scan_all}
use reserach.Transfer.Admission.{admit_upload}
use reserach.Transfer.Network.{check_interception, assess_flow}
use reserach.Transfer.Frames.{scan_all-Frames, check_interception-Frames, assess_flow-Frames}
use reserach.Transfer.Gates.{then_do-accepted}
use reserach.Transfer.Scanned.{accepted_inj}
use reserach.Transfer.Trusted.{admit_upload-Turns}
use reserach.Transfer.Frames.{tables, Frames}

abbrev pub public_pem : Option EcdhPrekey → Option String
public_pem none = none
public_pem (some row) = some row.public_key_pem

-- The package of an upload that does not raise.
process_upload-some :
    {Digest Hybrid Keys : Type 0} (p : Primitives Digest) (requires_tee : Bool) (e : Session)
    (engine : KeyEngine Hybrid Keys) (o : Order p) (transfer_id : String)
    (signature : Option (Signature Digest)) (stream : Bytes) (table : List EcdhPrekey) (keys : Keys)
    {result : PfceUploadResult p Hybrid}
    → (process_upload p requires_tee e (some engine) o transfer_id signature stream (table, keys)).0
      ≡ some result
    → let claimed = (claim_prekey e o.receiver_id transfer_id table).0 in
      package_of p o
        (initialize_security p (some engine) o transfer_id claimed keys).0
        signature
        stream
      ≡ result
unfolding process_upload
process_upload-some p true e engine o transfer_id signature stream table keys h =
    absurd (some-ne-none (sym h))
process_upload-some p false e engine o transfer_id signature stream table keys h = some_inj h

module _ (f : Float) (r : Real f) (Digest Model : Type 0) (x : Outside f r Digest Model) where
  -- The hybrid keys that the engine agrees on, with the prekey that the upload claims.
  abbrev pub agreed_keys : Upload → List EcdhPrekey × List PqcKey → Option (Bytes × HybridMetadata)
  agreed_keys q t =
      (x.key_engine.initialize_transfer_security q.sender_id q.receiver_id
        (public_pem
          (claim_prekey x.session q.receiver_id (text_append x.stored_name ".pfce") t.0).0)
        (text_append x.stored_name ".pfce") t.1).0

  pub initialize_security-agreed :
      (o : Order x.primitives) (claimed : Option EcdhPrekey) (keys : List PqcKey)
      → (initialize_security x.primitives
          (some x.key_engine)
          o
          (text_append x.stored_name ".pfce")
          claimed
          keys).0
        ≡ (x.key_engine.initialize_transfer_security o.sender_id o.receiver_id
            (public_pem claimed)
            (text_append x.stored_name ".pfce")
            keys).0
  unfolding initialize_security
  initialize_security-agreed o none keys = refl
  initialize_security-agreed o (some row) keys = refl

  give_up-none :
      (w later : World f r Digest Model) (e : Encrypted f r Digest Model x)
      → give_up f r Digest Model x w ≡ (accepted e, later)
      → none ≡ e.0
  unfolding give_up
  give_up-none w later e h =
      let (_, v, logged, h1) =
        then_do-accepted (λ _. pure (none, true)) (audit f r Digest Model x ai_block w) h in
      ap (λ p. p.0) (accepted_inj (ap (λ p. p.0) h1))

  watched-made :
      (raised : Bool) (made result : PfceUploadResult x.primitives HybridMetadata)
      (watch : Watch f r Digest) (v w later : World f r Digest Model)
      (e : Encrypted f r Digest Model x)
      → (if raised
          then give_up f r Digest Model x v
          else complete_upload f r Digest Model x made watch w)
        ≡ (accepted e, later)
      → e.0 ≡ some result
      → made ≡ result
  unfolding complete_upload
  watched-made true made result watch v w later e h here =
      absurd (some-ne-none (sym (give_up-none v later e h ∙ here)))
  watched-made false made result watch v w later e h here =
      some_inj (ap (λ p. p.0) (accepted_inj (ap (λ p. p.0) h)) ∙ here)

  -- What is handed on is what was made.
  finish_upload-made :
      (monitor : TransferMonitor f.F) (made : Option (PfceUploadResult x.primitives HybridMetadata))
      (w later : World f r Digest Model) (e : Encrypted f r Digest Model x)
      (result : PfceUploadResult x.primitives HybridMetadata)
      → finish_upload f r Digest Model x monitor made w ≡ (accepted e, later)
      → e.0 ≡ some result
      → made ≡ some result
  unfolding finish_upload
  finish_upload-made monitor none w later e result h here = give_up-none w later e h ∙ here
  finish_upload-made monitor (some made) w later e result h here =
      let (raised, watch) =
        watch_all f r Digest Model x 0 (fragment_sizes f r Digest Model x made)
          (record { monitor = monitor; ai = w.ai; blocks = w.quarantine.blocks }) in
      ap some (watched-made raised made result watch _ w later e h here)

  pub encrypt_upload-package :
      (q : Upload) (o : Order x.primitives) (monitor : TransferMonitor f.F)
      (w later : World f r Digest Model) (e : Encrypted f r Digest Model x)
      (result : PfceUploadResult x.primitives HybridMetadata)
      → encrypt_upload f r Digest Model x q o monitor w ≡ (accepted e, later)
      → e.0 ≡ some result
      → let claimed =
          (claim_prekey x.session o.receiver_id (text_append x.stored_name ".pfce") w.prekeys).0 in
        package_of x.primitives o
          (initialize_security x.primitives
            (some x.key_engine)
            o
            (text_append x.stored_name ".pfce")
            claimed
            w.pqc_keys).0
          (some (signature_metadata f r Digest Model x q))
          q.bytes
        ≡ result
  unfolding encrypt_upload
  encrypt_upload-package q o monitor w later e result h here =
      process_upload-some x.primitives x.requires_tee x.session x.key_engine o
        (text_append x.stored_name ".pfce") (some (signature_metadata f r Digest Model x q)) q.bytes
        w.prekeys w.pqc_keys (finish_upload-made monitor _ _ later e result h here)

  accepted-Frames :
      {A : Type 0} (m : Action (World f r Digest Model) A) {w v : World f r Digest Model} {a : A}
      → Frames f r Digest Model x m
      → m w ≡ (accepted a, v)
      → tables v ≡ tables w
  accepted-Frames m h same = ap (λ p. tables p.1) (sym same) ∙ ap (λ t. t.1) (h _)

  admitted-tables :
      (q : Upload) (w v : World f r Digest Model)
      → admit_upload f r Digest Model x q w ≡ (accepted tt, v)
      → tables v ≡ tables w
  admitted-tables q w v admitted = elim (admit_upload-Turns f r Digest Model x q w) [
    | inl same ↦ ap (λ p. tables p.1) (sym admitted) ∙ ap (λ t. t.1) same
    | inr turned ↦ ap (λ p. tables p.1) (sym admitted) ∙ ap (λ t. t.1) turned
  ]

  -- The stages before the encryption.
  pub stages-Frames :
      (q : Upload) (w v1 v2 v3 v4 : World f r Digest Model) {s : Scanned f r Digest Model x}
      {risk : f.F × List Signal}
      → admit_upload f r Digest Model x q w ≡ (accepted tt, v1)
      → scan_all f r Digest Model x q v1 ≡ (accepted s, v2)
      → check_interception f r Digest Model x q v2 ≡ (accepted tt, v3)
      → assess_flow f r Digest Model x q v3 ≡ (accepted risk, v4)
      → tables v4 ≡ tables w
  stages-Frames q w v1 v2 v3 v4 admitted scanning checked assessed =
      accepted-Frames (assess_flow f r Digest Model x q) (assess_flow-Frames f r Digest Model x q)
        assessed
      ∙ accepted-Frames (check_interception f r Digest Model x q)
          (check_interception-Frames f r Digest Model x q) checked
      ∙ accepted-Frames (scan_all f r Digest Model x q) (scan_all-Frames f r Digest Model x q)
          scanning
      ∙ admitted-tables q w v1 admitted
