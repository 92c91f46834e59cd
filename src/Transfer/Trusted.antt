-- ===== src/Transfer/Trusted.antt =====
-- The checks of the signature in `internal_encrypt` (backend/app/routes/internal_engine_routes.py) and the
-- trusted keys of clients, which `verify_public_key` stores.
use reserach.Base.{◌≡◌, refl, ap, ◌∙◌, ◌⊎◌, not, ◌||◌, List, one_of, str_eq, inl, inr}
use reserach.Base.Float.{Float}
use reserach.Privacy.Features.{Real}
use reserach.Prekeys.{EcdhPrekey}
use reserach.Mlkem.{PqcKey}
use reserach.Pfce.Download.{is_given}
use reserach.Mitm.{Keys, verify_public_key}
use reserach.Transfer.{
  suffix, transfer_blocked, extension_blocked, signature_required, integrity_failure, hash_mismatch,
  signature_verification_failed, signature_invalid, public_key_substitution_attempt,
  key_substituted, Upload, Result, accepted, rejected, Action, refuse, then_do, ◌>>=◌, World,
  Outside,
}
use reserach.Transfer.Admission.{
  critical_extensions, actual_hash, signature_holds, fingerprint_of, check_extension, check_given,
  check_file_hash, check_key, check_client_signature, admit_upload,
}
use reserach.Transfer.Frames.{stores, Frames, when-Frames, audited-Frames}

module _ (f : Float) (r : Real f) (Digest Model : Type 0) (x : Outside f r Digest Model) where
  abbrev W : Type 0
  W = World f r Digest Model

  abbrev Stores : Type 0
  Stores = Keys × (List EcdhPrekey × List PqcKey)

  -- The stores after the presented key was checked.
  abbrev pub turn : Upload → Stores → Stores
  turn q t = ((verify_public_key q.sender_id (fingerprint_of f r Digest Model x q) t.0).1, t.1)

  abbrev pub IsTurned : Upload → Stores → Stores → Type 0
  IsTurned q before after = (after ≡ before) ⊎ (after ≡ turn q before)

  -- Nothing is changed but the key presented, which may have been checked once.
  abbrev Turns : {A : Type 0} → Upload → Action W A → Type 0
  Turns q m = (w : W) → IsTurned q (stores w) (stores (m w).1)

  pub IsTurned-first : (q : Upload) {a b c : Stores} → b ≡ a → IsTurned q b c → IsTurned q a c
  IsTurned-first q h (inl same) = inl (same ∙ h)
  IsTurned-first q h (inr turned) = inr (turned ∙ ap (turn q) h)

  pub IsTurned-last : (q : Upload) {a b c : Stores} → IsTurned q a b → c ≡ b → IsTurned q a c
  IsTurned-last q (inl same) h = inl (h ∙ same)
  IsTurned-last q (inr turned) h = inr (h ∙ turned)

  then_do-Turns :
      {A B : Type 0} (q : Upload) (g : A → Action W B) (result : Result A) (v : W)
      → ((a : A) → Turns q (g a))
      → IsTurned q (stores v) (stores (then_do g (result, v)).1)
  then_do-Turns q g (accepted a) v h = h a v
  then_do-Turns q g (rejected e) v h = inl refl

  bind-Turns :
      {A B : Type 0} (q : Upload) (m : Action W A) (g : A → Action W B)
      → Frames f r Digest Model x m
      → ((a : A) → Turns q (g a))
      → Turns q (m >>= g)
  bind-Turns q m g hm hg w = IsTurned-first q (hm w) (then_do-Turns q g (m w).0 (m w).1 hg)

  then_do-after :
      {A B : Type 0} (g : A → Action W B) (result : Result A) (v : W)
      → ((a : A) → Frames f r Digest Model x (g a))
      → stores (then_do g (result, v)).1 ≡ stores v
  then_do-after g (accepted a) v h = h a v
  then_do-after g (rejected e) v h = refl

  Turns-bind :
      {A B : Type 0} (q : Upload) (m : Action W A) (g : A → Action W B)
      → Turns q m
      → ((a : A) → Frames f r Digest Model x (g a))
      → Turns q (m >>= g)
  Turns-bind q m g hm hg w = IsTurned-last q (hm w) (then_do-after g (m w).0 (m w).1 hg)

  check_key-Turns : (q : Upload) → Turns q (check_key f r Digest Model x q)
  unfolding check_key
  check_key-Turns q w =
      let fingerprint = fingerprint_of f r Digest Model x q in
      let answered = verify_public_key q.sender_id fingerprint w.client_keys in
      inr (
        audited-Frames f r Digest Model x (not answered.0.0)
          (public_key_substitution_attempt answered.0.1 fingerprint) key_substituted
          (record w { client_keys = answered.1 }))

  pub admit_upload-Turns : (q : Upload) → Turns q (admit_upload f r Digest Model x q)
  unfolding admit_upload check_extension check_given check_file_hash check_client_signature
  admit_upload-Turns q =
      let ext = suffix q.safe_name in
      let hash = actual_hash f r Digest Model x q in
      bind-Turns q (check_extension f r Digest Model x q) _
        (audited-Frames f r Digest Model x (one_of ext critical_extensions) (transfer_blocked ext)
          extension_blocked)
        (λ _.
          bind-Turns q (check_given f r Digest Model x q) _
            (when-Frames f r Digest Model x
              (not (is_given q.client_signature) || not (is_given q.sender_public_key_spki))
              (refuse signature_required) (λ w. refl))
            (λ _.
              bind-Turns q (check_file_hash f r Digest Model x q) _
                (audited-Frames f r Digest Model x (not (str_eq hash q.original_file_sha256))
                  (integrity_failure hash) hash_mismatch)
                (λ _. Turns-bind q (check_key f r Digest Model x q) _ (check_key-Turns q) (λ _.
                  audited-Frames f r Digest Model x (not (signature_holds f r Digest Model x q))
                    (signature_verification_failed (fingerprint_of f r Digest Model x q))
                    signature_invalid))))
