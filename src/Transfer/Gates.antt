-- ===== src/Transfer/Gates.antt =====
-- What an accepted request has passed.
use mathlib.Core.Path.{subst⁻¹}
use reserach.Base.{
  ◌≡◌, ◌≢◌, refl, sym, ap, ◌∙◌, Bool, true, false, not, ◌||◌, one_of, str_eq, string_eq, beq→eq,
  arith,
}
use reserach.Base.Float.{Float}
use reserach.Privacy.Features.{Real}
use reserach.Mitm.{verify_public_key}
use reserach.Pfce.Download.{is_given}
use reserach.Transfer.{
  Upload, Event, transfer_blocked, integrity_failure, public_key_substitution_attempt,
  signature_verification_failed, Refusal, signature_required, extension_blocked, hash_mismatch,
  key_substituted, signature_invalid, suffix, Result, accepted, rejected, Action, refuse, then_do,
  ◌>>◌, when, World, Outside, audit,
}
use reserach.Transfer.Admission.{
  critical_extensions, actual_hash, fingerprint_of, signature_holds, check_extension, check_given,
  check_file_hash, check_key, check_client_signature, admit_upload,
}

rejected-ne-accepted : {A : Type 0} {e : Refusal} {a : A} → rejected e ≢ accepted a
rejected-ne-accepted h = cc

pub not-false : (b : Bool) → not b ≡ false → b ≡ true
not-false true h = refl
not-false false h = absurd (cc)

module _ {W : Type 0} where
  -- An action that never lets a request through.
  abbrev pub Stops : {A : Type 0} → Action W A → Type 0
  Stops m = (w : W) → (e : Refusal) × ((m w).0 ≡ rejected e)

  pub then_do-accepted :
      {A B : Type 0} (f : A → Action W B) (r : Result A × W) {b : B} {later : W}
      → then_do f r ≡ (accepted b, later)
      → (a : A) × (v : W) × (r ≡ (accepted a, v)) × (f a v ≡ (accepted b, later))
  then_do-accepted f (accepted a, v) h = (a, v, refl, h)
  then_do-accepted f (rejected e, v) h = absurd (cc)

  pub then_do-Stops :
      {A B : Type 0} (f : A → Action W B) (r : Result A × W)
      → ((a : A) → Stops (f a))
      → (e : Refusal) × ((then_do f r).0 ≡ rejected e)
  then_do-Stops f (accepted a, v) h = h a v
  then_do-Stops f (rejected e, v) h = (e, refl)

  pub when-accepted :
      (c : Bool) (m : Action W Unit) (w : W) {later : W}
      → Stops m
      → when c m w ≡ (accepted tt, later)
      → (c ≡ false) × (w ≡ later)
  when-accepted true m w stops h =
      let (e, stopped) = stops w in absurd (rejected-ne-accepted (sym stopped ∙ ap (λ p. p.0) h))
  when-accepted false m w stops h = (refl, ap (λ r. r.1) h)

module _ (f : Float) (r : Real f) (Digest Model : Type 0) (x : Outside f r Digest Model) where
  -- What the checks before the scans establish.
  pub record IsAdmitted (q : Upload) (w : World f r Digest Model) : Type 0 where
    pub allowed : one_of (suffix q.safe_name) critical_extensions ≡ false
    pub given : (is_given q.client_signature ≡ true) × (is_given q.sender_public_key_spki ≡ true)
    pub intact : actual_hash f r Digest Model x q ≡ q.original_file_sha256
    pub known :
        (verify_public_key q.sender_id (fingerprint_of f r Digest Model x q) w.client_keys).0.0
        ≡ true
    pub signed : signature_holds f r Digest Model x q ≡ true

  -- A check that refuses with an audit event.
  audited-accepted :
      (c : Bool) (event : Event) (e : Refusal) (w : World f r Digest Model)
      {later : World f r Digest Model}
      → when c (audit f r Digest Model x event >> refuse e) w ≡ (accepted tt, later)
      → (c ≡ false) × (w ≡ later)
  audited-accepted c event e w h =
      when-accepted c (audit f r Digest Model x event >> refuse e) w
        (λ v. then_do-Stops (λ _. refuse e) (audit f r Digest Model x event v) (λ _ u. (e, refl))) h

  pub admit_upload-IsAdmitted :
      (q : Upload) (w later : World f r Digest Model)
      → admit_upload f r Digest Model x q w ≡ (accepted tt, later)
      → IsAdmitted q w
  unfolding admit_upload check_extension check_given check_file_hash check_key
      check_client_signature
  admit_upload-IsAdmitted q w later h =
      let (_, v1, first_check, h1) =
        then_do-accepted _ (check_extension f r Digest Model x q w) h in
      let ext = suffix q.safe_name in
      let (allowed, e1) =
        audited-accepted (one_of ext critical_extensions) (transfer_blocked ext) extension_blocked w
          first_check in
      let (_, v2, second_check, h2) = then_do-accepted _ (check_given f r Digest Model x q v1) h1 in
      let (given, e2) =
        when-accepted (not (is_given q.client_signature) || not (is_given q.sender_public_key_spki))
          (refuse signature_required) v1 (λ v. (signature_required, refl)) second_check in
      let (_, v3, third_check, h3) =
        then_do-accepted _ (check_file_hash f r Digest Model x q v2) h2 in
      let hash = actual_hash f r Digest Model x q in
      let (intact, e3) =
        audited-accepted (not (str_eq hash q.original_file_sha256)) (integrity_failure hash)
          hash_mismatch v2 third_check in
      let (_, v4, fourth_check, h4) = then_do-accepted _ (check_key f r Digest Model x q v3) h3 in
      let fingerprint = fingerprint_of f r Digest Model x q in
      let answered = verify_public_key q.sender_id fingerprint v3.client_keys in
      let (known, _) =
        audited-accepted (not answered.0.0)
          (public_key_substitution_attempt answered.0.1 fingerprint) key_substituted
          (record v3 { client_keys = answered.1 }) fourth_check in
      let (signed, _) =
        audited-accepted (not (signature_holds f r Digest Model x q))
          (signature_verification_failed fingerprint) signature_invalid v4 h4 in
      let both : (is_given q.client_signature ≡ true) × (is_given q.sender_public_key_spki ≡ true) =
        ground (arith, given) in
      record {
        allowed = allowed;
        given = both;
        intact = beq→eq string_eq hash q.original_file_sha256 (not-false _ intact);
        known =
            subst⁻¹ (λ v. (verify_public_key q.sender_id fingerprint v.client_keys).0.0 ≡ true)
              (e1 ∙ e2 ∙ e3) (not-false _ known);
        signed = not-false _ signed;
      }
