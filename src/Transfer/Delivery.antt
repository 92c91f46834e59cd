-- ===== src/Transfer/Delivery.antt =====
-- `internal_encrypt` and then `internal_decrypt` (backend/app/routes/internal_engine_routes.py), whose
-- stream is that of `process_download_stream`.
use mathlib.Core.Path.{subst}
use Prim.Native.String.{◌++◌ as text_append}
use reserach.Base.{◌≤◌, ◌≡◌, sym, ap, ◌∙◌, String, Option, none, some, List, arith}
use reserach.Base.Float.{Float}
use reserach.Privacy.Features.{Real}
use reserach.Malware.{Bytes}
use reserach.Prekeys.{EcdhPrekey, claim_prekey, get_and_delete_prekey}
use reserach.Pfce.{IsCorrect}
use reserach.Pfce.Fragments.{join_chunks}
use reserach.Pfce.Upload.{KeyEngine, PfceUploadResult, kek_of, package_of, initialize_security}
use reserach.Pfce.Download.{Verifier, ok, check_signature, recover_kek, process_download_stream}
use reserach.Pfce.RoundTrip.{download-upload}
use reserach.Upce.{HybridMetadata}
use reserach.Upce.Policy.{SecurityPolicy, select_crypto_policy-bounds}
use reserach.Transfer.{Upload, accepted, World, Outside}
use reserach.Transfer.Admission.{admit_upload}
use reserach.Transfer.Scans.{scan_all}
use reserach.Transfer.Network.{check_interception, assess_flow, combine}
use reserach.Transfer.Encryption.{
  Response, signature_metadata, order_of, classification_of, level_text, policy_of, encrypt_upload,
  respond, internal_encrypt,
}
use reserach.Transfer.Gates.{then_do-accepted}
use reserach.Transfer.Scanned.{accepted_inj}
use reserach.Transfer.Frames.{tables}
use reserach.Transfer.Packages.{
  agreed_keys, initialize_security-agreed, encrypt_upload-package, stages-Frames,
}

module _ (f : Float) (r : Real f) (Digest Model : Type 0) (x : Outside f r Digest Model) where
  -- The download of a package that was made with any policy.
  download-package :
      (correct : IsCorrect x.primitives) (q : Upload) (classification : String)
      (policy : SecurityPolicy) (hybrid : Option (Bytes × HybridMetadata))
      (result : PfceUploadResult x.primitives HybridMetadata) {Keys : Type 0} (v : Verifier)
      (engine : Option (KeyEngine HybridMetadata Keys)) (transfer_id spki : String) (keys : Keys)
      (table : List EcdhPrekey)
      → 1 ≤ policy.min_chunk_bytes
      → package_of x.primitives
          (order_of f r Digest Model x q classification policy)
          hybrid
          (some (signature_metadata f r Digest Model x q))
          q.bytes
        ≡ result
      → check_signature x.primitives v result.pfce_package.metadata q.receiver_id spki ≡ ok tt
      → recover_kek x.primitives engine q.receiver_id transfer_id result.pfce_package.metadata
          (get_and_delete_prekey q.receiver_id transfer_id table).0
          keys
        ≡ ok (kek_of hybrid)
      → let d =
          (process_download_stream x.primitives v engine transfer_id q.receiver_id spki
            result.pfce_package keys table).0 in
        (d.failure ≡ none) × (join_chunks d.yielded ≡ q.bytes)
  download-package correct q classification policy hybrid result v engine transfer_id spki keys
        table large made signed recovered =
      let o = order_of f r Digest Model x q classification policy in
      let signature = some (signature_metadata f r Digest Model x q) in
      subst
        (λ (z : PfceUploadResult x.primitives HybridMetadata).
          let d =
            (process_download_stream x.primitives v engine transfer_id q.receiver_id spki
              z.pfce_package keys table).0 in
          (d.failure ≡ none) × (join_chunks d.yielded ≡ q.bytes))
        made
        (download-upload x.primitives o correct v engine hybrid signature transfer_id spki q.bytes
          keys table (λ k. omega (arith, large))
          (ap
              (λ (z : PfceUploadResult x.primitives HybridMetadata).
                check_signature x.primitives v z.pfce_package.metadata q.receiver_id spki)
              made
            ∙ signed)
          (ap
              (λ (z : PfceUploadResult x.primitives HybridMetadata).
                recover_kek x.primitives engine q.receiver_id transfer_id z.pfce_package.metadata
                  (get_and_delete_prekey q.receiver_id transfer_id table).0 keys)
              made
            ∙ recovered))

  -- What `internal_encrypt` has stored, `internal_decrypt` gives back: for any request that is answered,
  -- any state before it and any state of the prekeys and key pairs at the download, where the signature of
  -- the stored package is accepted and the key recovered is the one that was agreed on with the prekeys
  -- and key pairs before the request, the stream ends without failure and is the uploaded file.
  pub internal_decrypt-internal_encrypt :
      (correct : IsCorrect x.primitives) (q : Upload) (w later : World f r Digest Model)
      (a : Response f r Digest Model x) (result : PfceUploadResult x.primitives HybridMetadata)
      {Keys : Type 0} (v : Verifier) (engine : Option (KeyEngine HybridMetadata Keys))
      (transfer_id spki : String) (keys : Keys) (table : List EcdhPrekey)
      → internal_encrypt f r Digest Model x q w ≡ (accepted a, later)
      → a.stored ≡ some result
      → check_signature x.primitives v result.pfce_package.metadata q.receiver_id spki ≡ ok tt
      → recover_kek x.primitives engine q.receiver_id transfer_id result.pfce_package.metadata
          (get_and_delete_prekey q.receiver_id transfer_id table).0
          keys
        ≡ ok (kek_of (agreed_keys f r Digest Model x q (tables w)))
      → let d =
          (process_download_stream x.primitives v engine transfer_id q.receiver_id spki
            result.pfce_package keys table).0 in
        (d.failure ≡ none) × (join_chunks d.yielded ≡ q.bytes)
  unfolding internal_encrypt respond
  internal_decrypt-internal_encrypt correct q w later a result v engine transfer_id spki keys table
        h stored signed recovered =
      let (_, v1, admitted, h1) = then_do-accepted _ (admit_upload f r Digest Model x q w) h in
      let (s, v2, scanning, h2) = then_do-accepted _ (scan_all f r Digest Model x q v1) h1 in
      let (_, v3, checked, h3) =
        then_do-accepted _ (check_interception f r Digest Model x q v2) h2 in
      let (risk, v4, assessed, h4) = then_do-accepted _ (assess_flow f r Digest Model x q v3) h3 in
      let ai_result = combine f r Digest Model x s.ai_result risk.0 in
      let policy = policy_of f r Digest Model x q s ai_result in
      let classification = classification_of f r Digest Model x q in
      let o = order_of f r Digest Model x q classification policy in
      let (e, v5, encrypted, h5) =
        then_do-accepted _ (encrypt_upload f r Digest Model x q o s.monitor v4) h4 in
      let same : tables v4 ≡ tables w =
        stages-Frames f r Digest Model x q w v1 v2 v3 v4 admitted scanning checked assessed in
      let here : e.0 ≡ some result =
        ap (λ (z : Response f r Digest Model x). z.stored) (accepted_inj (ap (λ p. p.0) h5))
        ∙ stored in
      let hybrid =
        (initialize_security x.primitives (some x.key_engine) o (text_append x.stored_name ".pfce")
          (claim_prekey x.session q.receiver_id (text_append x.stored_name ".pfce") v4.prekeys).0
          v4.pqc_keys).0 in
      let agreed : hybrid ≡ agreed_keys f r Digest Model x q (tables w) =
        initialize_security-agreed f r Digest Model x o _ v4.pqc_keys
        ∙ ap (agreed_keys f r Digest Model x q) same in
      download-package correct q classification policy hybrid result v engine transfer_id spki keys
        table
        (select_crypto_policy-bounds f classification (level_text ai_result.level)
          s.scan_result.confidence).0
        (encrypt_upload-package f r Digest Model x q o s.monitor v4 v5 e result encrypted here)
        signed (recovered ∙ ap (λ z. ok (kek_of z)) (sym agreed))
