-- ===== src/Transfer/Refused.antt =====
-- What a refused request leaves behind.
use reserach.Base.{
  ◌⊎◌, inl, inr, ◌≡◌, ◌≢◌, if◌then◌else◌, sym, ap, ◌∙◌, Bool, true, false, Option, none, some,
}
use reserach.Base.Float.{Float}
use reserach.Privacy.Features.{Real}
use reserach.Monitor.{TransferMonitor}
use reserach.Ledger.Append as Append
use reserach.Monitor.Reanalysis.{Watch}
use reserach.Pfce.Upload.{Order, PfceUploadResult}
use reserach.Upce.{HybridMetadata}
use reserach.Transfer.{
  ai_block, Upload, Event, Refusal, Result, accepted, rejected, Action, pure, then_do, ◌>>=◌, World,
  Outside, audit, ended, ledger_raised,
}
use reserach.Transfer.Admission.{admit_upload}
use reserach.Transfer.Scans.{scan_all}
use reserach.Transfer.Network.{check_interception, assess_flow, combine}
use reserach.Transfer.Encryption.{
  respond, order_of, classification_of, policy_of, fragment_sizes, watch_all, give_up,
  complete_upload, finish_upload, encrypt_upload, internal_encrypt,
}
use reserach.Mitm.{verify_public_key}
use reserach.Transfer.Admission.{fingerprint_of}
use reserach.Transfer.Trusted.{IsTurned, IsTurned-last, admit_upload-Turns}
use reserach.Transfer.Frames.{
  stores, scan_all-Frames, check_interception-Frames, assess_flow-Frames,
}

rejected_inj :
    {A : Type 0} {e e' : Refusal} → ◌≡◌ {A = Result A} (rejected e) (rejected e') → e ≡ e'
rejected_inj h = cc

module _ (f : Float) (r : Real f) (Digest Model : Type 0) (x : Outside f r Digest Model) where
  abbrev W : Type 0
  W = World f r Digest Model

  abbrev Frames : {A : Type 0} → Action W A → Type 0
  Frames m = (w : W) → stores (m w).1 ≡ stores w

  -- Where the action refuses, it has changed none of the stores; unless the ledger has raised.
  abbrev Restores : {A : Type 0} → Action W A → Type 0
  Restores m =
      (w later : W) (e : Refusal)
      → m w ≡ (rejected e, later)
      → e ≢ ledger_raised
      → stores later ≡ stores w

  then_do-Restores :
      {A B : Type 0} (g : A → Action W B) (result : Result A) (v later : W) (e : Refusal)
      → ((a : A) → Restores (g a))
      → then_do g (result, v) ≡ (rejected e, later)
      → e ≢ ledger_raised
      → stores later ≡ stores v
  then_do-Restores g (accepted a) v later e hg h other = hg a v later e h other
  then_do-Restores g (rejected e') v later e hg h other = ap (λ p. stores p.1) (sym h)

  bind-Restores :
      {A B : Type 0} (m : Action W A) (g : A → Action W B)
      → Frames m
      → ((a : A) → Restores (g a))
      → Restores (m >>= g)
  bind-Restores m g hm hg w later e h other =
      then_do-Restores g (m w).0 (m w).1 later e hg h other ∙ hm w

  then_do-rejected :
      {A B : Type 0} (g : A → B) (result : Result A × W) {e : Refusal} {later : W}
      → then_do (λ a. pure (g a)) result ≡ (rejected e, later)
      → result ≡ (rejected e, later)
  then_do-rejected g (accepted a, v) h = absurd (cc)
  then_do-rejected g (rejected e', v) h =
      λ i. (rejected (rejected_inj (ap (λ p. p.0) h) i), ap (λ p. p.1) h i)

  pure_after-Restores :
      {A B : Type 0} (m : Action W A) (g : A → B) → Restores m → Restores (m >>= λ a. pure (g a))
  pure_after-Restores m g hm w later e h other = hm w later e (then_do-rejected g (m w) h) other

  -- What follows the claim of a prekey refuses only where the ledger raises.
  abbrev Persists : {A : Type 0} → Action W A → Type 0
  Persists m = (w later : W) (e : Refusal) → m w ≡ (rejected e, later) → e ≡ ledger_raised

  ended-rejected :
      (outcome : Append.Outcome) (v later : W) (e : Refusal)
      → ◌≡◌ {A = Result Unit × W} (ended f r Digest Model x outcome, v) (rejected e, later)
      → e ≡ ledger_raised
  ended-rejected Append.returned v later e h = absurd (cc)
  ended-rejected Append.runtime_error v later e h = sym (rejected_inj (ap (λ p. p.0) h))

  audit-Persists : (event : Event) → Persists (audit f r Digest Model x event)
  unfolding audit
  audit-Persists event w later e h = ended-rejected _ _ later e h

  give_up-Persists : Persists (give_up f r Digest Model x)
  unfolding give_up
  give_up-Persists w later e h =
      audit-Persists ai_block w later e (then_do-rejected (λ _. (none, true)) _ h)

  complete_upload-Persists :
      (result : PfceUploadResult x.primitives HybridMetadata) (watch : Watch f r Digest)
      → Persists (complete_upload f r Digest Model x result watch)
  unfolding complete_upload
  complete_upload-Persists result watch w later e h = absurd (cc)

  watched-Persists :
      (raised : Bool) (result : PfceUploadResult x.primitives HybridMetadata)
      (watch : Watch f r Digest) (v w later : W) (e : Refusal)
      → (if raised
          then give_up f r Digest Model x v
          else complete_upload f r Digest Model x result watch w)
        ≡ (rejected e, later)
      → e ≡ ledger_raised
  watched-Persists true result watch v w later e h = give_up-Persists v later e h
  watched-Persists false result watch v w later e h =
      complete_upload-Persists result watch w later e h

  finish_upload-Persists :
      (monitor : TransferMonitor f.F) (made : Option (PfceUploadResult x.primitives HybridMetadata))
      → Persists (finish_upload f r Digest Model x monitor made)
  unfolding finish_upload
  finish_upload-Persists monitor none w later e h = give_up-Persists w later e h
  finish_upload-Persists monitor (some result) w later e h =
      let (raised, watch) =
        watch_all f r Digest Model x 0 (fragment_sizes f r Digest Model x result)
          (record { monitor = monitor; ai = w.ai; blocks = w.quarantine.blocks }) in
      watched-Persists raised result watch _ w later e h

  encrypt_upload-Restores :
      (q : Upload) (order : Order x.primitives) (monitor : TransferMonitor f.F)
      → Restores (encrypt_upload f r Digest Model x q order monitor)
  unfolding encrypt_upload
  encrypt_upload-Restores q order monitor w later e h other =
      absurd (other (finish_upload-Persists monitor _ _ later e h))

  -- The stages after the checks of the signature.
  scanned-Restores :
      (q : Upload)
      → Restores (
          scan_all f r Digest Model x q >>= λ s. check_interception f r Digest Model x q >>= λ _.
          assess_flow f r Digest Model x q >>= λ risk.
          encrypt_upload f r Digest Model x q
            (order_of f r Digest Model x q
              (classification_of f r Digest Model x q)
              (policy_of f r Digest Model x q s (combine f r Digest Model x s.ai_result risk.0)))
            s.monitor
          >>= λ e. pure (respond f r Digest Model x q s risk e))
  scanned-Restores q =
      bind-Restores (scan_all f r Digest Model x q) _ (scan_all-Frames f r Digest Model x q) (λ s.
        bind-Restores (check_interception f r Digest Model x q) _
          (check_interception-Frames f r Digest Model x q)
          (λ _.
            bind-Restores (assess_flow f r Digest Model x q) _
              (assess_flow-Frames f r Digest Model x q)
              (λ risk.
                let order = order_of f r Digest Model x q (classification_of f r Digest Model x q) (
                  policy_of f r Digest Model x q s
                    (combine f r Digest Model x s.ai_result risk.0)) in
                pure_after-Restores (encrypt_upload f r Digest Model x q order s.monitor)
                  (respond f r Digest Model x q s risk)
                  (encrypt_upload-Restores q order s.monitor))))

  then_do-IsTurned :
      {A B : Type 0} (q : Upload) (g : A → Action W B) (result : Result A) (w v later : W)
      (e : Refusal)
      → IsTurned f r Digest Model x q (stores w) (stores v)
      → ((a : A) → Restores (g a))
      → then_do g (result, v) ≡ (rejected e, later)
      → e ≢ ledger_raised
      → IsTurned f r Digest Model x q (stores w) (stores later)
  then_do-IsTurned q g result w v later e turned hg h other =
      IsTurned-last f r Digest Model x q turned (then_do-Restores g result v later e hg h other)

  -- A request that is refused, or that ends with an exception which is not the ledger's, consumes no
  -- prekey and generates no key pair: both tables are as they were. The trusted keys of clients are as
  -- they were, or as `verify_public_key` leaves them for the key presented, whether or not the signature
  -- is valid.
  pub internal_encrypt-refused :
      (q : Upload) (w later : World f r Digest Model) (e : Refusal)
      → internal_encrypt f r Digest Model x q w ≡ (rejected e, later)
      → e ≢ ledger_raised
      → (later.prekeys ≡ w.prekeys)
        × (later.pqc_keys ≡ w.pqc_keys)
        × ((later.client_keys ≡ w.client_keys)
            ⊎ (later.client_keys
                ≡ (verify_public_key q.sender_id
                    (fingerprint_of f r Digest Model x q)
                    w.client_keys).1))
  unfolding internal_encrypt
  internal_encrypt-refused q w later e h other =
      let admitted = admit_upload f r Digest Model x q w in
      let turned =
        then_do-IsTurned q _ admitted.0 w admitted.1 later e
          (admit_upload-Turns f r Digest Model x q w) (λ _. scanned-Restores q) h other in
      elim turned [
        | inl same ↦ (ap (λ t. t.1.0) same, ap (λ t. t.1.1) same, inl (ap (λ t. t.0) same))
        | inr checked ↦
            (ap (λ t. t.1.0) checked, ap (λ t. t.1.1) checked, inr (ap (λ t. t.0) checked))
      ]
