-- ===== src/Pfce/Integrity.antt =====
-- What the receiver can rely on: the checks that stand before the first byte, and the hashes.
use mathlib.Core.Path.{subst⁻¹}
use reserach.Base.{
  some-ne-none, ◌≤◌, ◌≡◌, ◌≢◌, refl, ap, ◌∙◌, sym, true, false, String, Option, none, some, List,
  [], ◌∷◌, length, beq→eq, arith, leb→le, string_eq, Option-cases, suc, Bool-cases, inl, inr, ◌⊎◌,
}
use reserach.Malware.{Bytes}
use reserach.Prekeys.{EcdhPrekey}
use reserach.Pfce.{Signature, FragmentInfo, Metadata, Package, Primitives}
use reserach.Pfce.Upload.{KeyEngine}
use reserach.Pfce.Download.{
  Failure, Checked, ok, refused, Verifier, Download, canonical_payload, check_signed,
  check_signature, sort_by_id, matches, check_hash, decrypt_fragment, unwrap_key, read_entry,
  open_fragment, yield_fragments, yield_with, process_download_stream,
}

pub Checked-cases :
    {A : Type 0} (r : Checked A)
    → ((failure : Failure) × (r ≡ refused failure)) ⊎ ((a : A) × (r ≡ ok a))
Checked-cases (ok a) = inr (a, refl)
Checked-cases (refused failure) = inl (failure, refl)

ok_inj : {A : Type 0} {a b : A} → ok a ≡ ok b → a ≡ b
ok_inj h = cc

refused-ne-ok : {A : Type 0} {failure : Failure} {a : A} → refused failure ≢ ok a
refused-ne-ok h = cc

module _ {Digest : Type 0} (p : Primitives Digest) where
  -- What a signature has to be.
  pub record IsAccepted {Hybrid : Type 0} (v : Verifier) (metadata : Metadata Digest Hybrid)
      (receiver_id spki : String) (s : Signature Digest) : Type 0 where
    pub present : metadata.signature ≡ some s
    pub signed_by_sender : s.signer_id ≡ metadata.sender_id
    pub algorithm_known : s.algorithm ≡ "RSA-PSS-SHA256"
    pub key_long : 2048 ≤ v.get_public_key_size s.signer_id
    pub key_trusted : s.key_fingerprint ≡ v.get_spki_fingerprint spki
    pub verified :
        v.verify_pfce_signature
          (canonical_payload p s receiver_id metadata.fragments)
          s.signature
          spki
        ≡ true

  -- The chunks are those of the first fragments, and have their hashes.
  abbrev pub Intact : List (FragmentInfo Digest) → List Bytes → Type 0
  Intact fragments [] = Unit
  Intact [] (chunk ∷ chunks) = true ≡ false
  Intact (f ∷ fragments) (chunk ∷ chunks) = (p.sha256 chunk ≡ f.hash) × Intact fragments chunks

  check_signed-IsAccepted :
      {Hybrid : Type 0} (v : Verifier) (metadata : Metadata Digest Hybrid)
      (receiver_id spki : String) (s : Signature Digest)
      → metadata.signature ≡ some s
      → check_signed p v metadata receiver_id spki s ≡ ok tt
      → IsAccepted v metadata receiver_id spki s
  unfolding check_signed
  check_signed-IsAccepted v metadata receiver_id spki s here h = record {
    present = here;
    signed_by_sender = beq→eq string_eq _ _ (ground (arith, h));
    algorithm_known = beq→eq string_eq _ _ (ground (arith, h));
    key_long = leb→le 2048 _ (ground (arith, h));
    key_trusted = beq→eq string_eq _ _ (ground (arith, h));
    verified = ground (arith, h);
  }

  check_hash-intact :
      (f : FragmentInfo Digest) (o : Option Bytes) (chunk : Bytes)
      → check_hash p f o ≡ ok chunk
      → p.sha256 chunk ≡ f.hash
  unfolding check_hash
  check_hash-intact f none chunk h = ground (arith, h)
  check_hash-intact f (some found) chunk h =
      elim (Bool-cases (p.digest_eq.beq (p.sha256 found) f.hash)) [
        | inl same ↦
            let e : found ≡ chunk = ok_inj (ground (arith, same, h)) in
            ap p.sha256 (sym e) ∙ beq→eq p.digest_eq _ _ same
        | inr differ ↦ ground (arith, differ, h)
      ]

  decrypt_fragment-intact :
      (f : FragmentInfo Digest) (encrypted : Bytes) (key : Checked Bytes) (chunk : Bytes)
      → decrypt_fragment p f encrypted key ≡ ok chunk
      → p.sha256 chunk ≡ f.hash
  unfolding decrypt_fragment
  decrypt_fragment-intact f encrypted (ok key) chunk h = check_hash-intact f _ chunk h
  decrypt_fragment-intact f encrypted (refused failure) chunk h = absurd (refused-ne-ok h)

  open_fragment-intact :
      (hybrid_kek : Option Bytes) (receiver_id : String) (entries : List (String × Bytes))
      (f : FragmentInfo Digest) (chunk : Bytes)
      → open_fragment p hybrid_kek receiver_id entries f ≡ ok chunk
      → p.sha256 chunk ≡ f.hash
  unfolding open_fragment
  open_fragment-intact hybrid_kek receiver_id entries f chunk h =
      elim (Option-cases (read_entry entries f.filename)) [
        | inl missing ↦ ground (arith, missing, h)
        | inr (file, here) ↦ elim (Bool-cases (matches p f.ciphertext_sha256 (p.sha256 file))) [
          | inl same ↦
              decrypt_fragment-intact f file (unwrap_key p hybrid_kek receiver_id f) chunk
                (ground (arith, here, same, h))
          | inr differ ↦ ground (arith, here, differ, h)
        ]
      ]

  pub yield_fragments-step :
      (hybrid_kek : Option Bytes) (receiver_id : String) (entries : List (String × Bytes))
      (f : FragmentInfo Digest) (fragments : List (FragmentInfo Digest)) (chunk : Bytes)
      → open_fragment p hybrid_kek receiver_id entries f ≡ ok chunk
      → let d = yield_fragments p hybrid_kek receiver_id entries fragments in
        yield_fragments p hybrid_kek receiver_id entries (f ∷ fragments)
        ≡ record { yielded = chunk ∷ d.yielded; failure = d.failure }
  unfolding yield_fragments
  yield_fragments-step hybrid_kek receiver_id entries f fragments chunk h =
      rw (yield_fragments, h) refl

  yield_fragments-stop :
      (hybrid_kek : Option Bytes) (receiver_id : String) (entries : List (String × Bytes))
      (f : FragmentInfo Digest) (fragments : List (FragmentInfo Digest)) (failure : Failure)
      → open_fragment p hybrid_kek receiver_id entries f ≡ refused failure
      → yield_fragments p hybrid_kek receiver_id entries (f ∷ fragments)
        ≡ record { yielded = []; failure = some failure }
  unfolding yield_fragments
  yield_fragments-stop hybrid_kek receiver_id entries f fragments failure h =
      rw (yield_fragments, h) refl

  -- What a download from these fragments promises.
  abbrev pub Sound : List (FragmentInfo Digest) → Download → Type 0
  Sound fragments d =
      Intact fragments d.yielded × (d.failure ≡ none → length d.yielded ≡ length fragments)

  yield_fragments-Sound :
      (hybrid_kek : Option Bytes) (receiver_id : String) (entries : List (String × Bytes))
      (fragments : List (FragmentInfo Digest))
      → Sound fragments (yield_fragments p hybrid_kek receiver_id entries fragments)
  unfolding yield_fragments
  yield_fragments-Sound hybrid_kek receiver_id entries [] = (tt, λ _. refl)
  yield_fragments-Sound hybrid_kek receiver_id entries (f ∷ fragments) =
      let rest = yield_fragments-Sound hybrid_kek receiver_id entries fragments in
      elim (Checked-cases (open_fragment p hybrid_kek receiver_id entries f)) [
        | inl (failure, h) ↦
            subst⁻¹ (Sound (f ∷ fragments))
              (yield_fragments-stop hybrid_kek receiver_id entries f fragments failure h)
              (tt, λ e. absurd (some-ne-none e))
        | inr (chunk, h) ↦
            subst⁻¹ (Sound (f ∷ fragments))
              (yield_fragments-step hybrid_kek receiver_id entries f fragments chunk h)
              (
                (open_fragment-intact hybrid_kek receiver_id entries f chunk h, rest.0),
                λ e. ap suc (rest.1 e),
              )
      ]

  module _ {Hybrid Keys : Type 0} (v : Verifier) (engine : Option (KeyEngine Hybrid Keys)) where
    yield_with-Sound :
        (receiver_id : String) (pkg : Package Digest Hybrid) (r : Checked (Option Bytes))
        → Sound (sort_by_id pkg.metadata.fragments) (yield_with p receiver_id pkg r)
    unfolding yield_with
    yield_with-Sound receiver_id pkg (ok kek) =
        yield_fragments-Sound kek receiver_id pkg.entries (sort_by_id pkg.metadata.fragments)
    yield_with-Sound receiver_id pkg (refused failure) = (tt, λ e. absurd (some-ne-none e))

    -- Where the checks pass, the signature was accepted.
    check_signature-IsAccepted :
        (metadata : Metadata Digest Hybrid) (receiver_id spki : String)
        (o : Option (Signature Digest))
        → metadata.signature ≡ o
        → check_signature p v metadata receiver_id spki ≡ ok tt
        → (s : Signature Digest) × IsAccepted v metadata receiver_id spki s
    unfolding check_signature
    check_signature-IsAccepted metadata receiver_id spki none none_here h =
        ground (arith, none_here, h)
    check_signature-IsAccepted metadata receiver_id spki (some s) here h =
        (s, check_signed-IsAccepted v metadata receiver_id spki s here (ground (arith, here, h)))

    -- However a download goes: either it was refused before the first byte, with the prekey still there,
    -- or the signature is the sender's own, with an accepted algorithm and key, and every chunk that is
    -- yielded is one of the fragments in their order and has its hash; without failure, none is missing.
    pub process_download_stream-Sound :
        (transfer_id receiver_id spki : String) (pkg : Package Digest Hybrid) (keys : Keys)
        (table : List EcdhPrekey)
        → let (d, later) =
            process_download_stream p v engine transfer_id receiver_id spki pkg keys table in
          ((d.yielded ≡ []) × (d.failure ≢ none) × (later ≡ table))
          ⊎ (((s : Signature Digest) × IsAccepted v pkg.metadata receiver_id spki s)
              × Sound (sort_by_id pkg.metadata.fragments) d)
    unfolding process_download_stream
    process_download_stream-Sound transfer_id receiver_id spki pkg keys table =
        elim (Checked-cases (check_signature p v pkg.metadata receiver_id spki)) [
          | inl (failure, h) ↦ rw (process_download_stream, h) (inl (refl, some-ne-none, refl))
          | inr (_, h) ↦
              rw (process_download_stream, h)
                (inr (
                  check_signature-IsAccepted pkg.metadata receiver_id spki pkg.metadata.signature
                      refl h,
                  yield_with-Sound receiver_id pkg _,
                ))
        ]
