-- ===== src/Pfce/Truncation.antt =====
-- What the signature does not cover: the list of fragments.
use mathlib.Core.Path.{subst}
use reserach.Base.{
  ℕ, zero, suc, ◌≤◌, ◌+◌, ◌≡◌, refl, ap, ◌∙◌, sym, String, Option, none, some, List, [], ◌∷◌, map,
  length, take, All, All-and, arith, Bool-cases, inl, inr,
}
use reserach.Malware.{Bytes}
use reserach.Prekeys.{EcdhPrekey, get_and_delete_prekey}
use reserach.Pfce.{Signature, Package, Primitives, IsCorrect}
use reserach.Pfce.Fragments.{is_empty, read_fragment}
use reserach.Pfce.Upload.{
  KeyEngine, Order, make_part, upload_rounds, entry, upload_parts, kek_of, package_of,
}
use reserach.Pfce.Download.{
  ok, Verifier, canonical_payload, check_signed, check_signature, sort_by_id, yield_fragments,
  recover_kek, yield_with, process_download_stream,
}
use reserach.Pfce.Parts.{chunk_of, info_of, HasEntry, upload_rounds-HasEntry, upload_rounds-sorted}
use reserach.Pfce.RoundTrip.{IsOpened, upload_rounds-opens, yield_fragments-opened}

take-map : {A B : Type 0} (f : A → B) (n : ℕ) (xs : List A) → take n (map f xs) ≡ map f (take n xs)
take-map f zero xs = refl
take-map f (suc n) [] = refl
take-map f (suc n) (x ∷ xs) = ap (λ ys. f x ∷ ys) (take-map f n xs)

All-take : {A : Type 0} (P : A → Type 0) (n : ℕ) (xs : List A) → All P xs → All P (take n xs)
All-take P zero xs h = tt
All-take P (suc n) [] h = tt
All-take P (suc n) (x ∷ xs) h = (h.0, All-take P n xs h.1)

-- The package with the fragments from the `n`-th on left out of its metadata.
abbrev pub truncate : {Digest Hybrid : Type 0} → ℕ → Package Digest Hybrid → Package Digest Hybrid
truncate n pkg = record pkg {
  metadata = record pkg.metadata { fragments = take n pkg.metadata.fragments };
}

recover_kek-truncate :
    {Digest Hybrid Keys : Type 0} (p : Primitives Digest) (engine : Option (KeyEngine Hybrid Keys))
    (receiver_id transfer_id : String) (n : ℕ) (pkg : Package Digest Hybrid) (pem : Option String)
    (keys : Keys)
    → recover_kek p engine receiver_id transfer_id (truncate n pkg).metadata pem keys
      ≡ recover_kek p engine receiver_id transfer_id pkg.metadata pem keys
unfolding recover_kek
recover_kek-truncate p none receiver_id transfer_id n pkg pem keys = refl
recover_kek-truncate p (some upce) receiver_id transfer_id n pkg pem keys = refl

module _ {Digest : Type 0} (p : Primitives Digest) where
  -- A signature that gives the size is accepted with any list of fragments or with none.
  check_signature-truncate :
      {Hybrid : Type 0} (v : Verifier) (receiver_id spki : String) (n size : ℕ)
      (s : Signature Digest) (pkg : Package Digest Hybrid)
      → pkg.metadata.signature ≡ some s
      → s.file_size ≡ some size
      → check_signature p v (truncate n pkg).metadata receiver_id spki
        ≡ check_signature p v pkg.metadata receiver_id spki
  unfolding check_signature check_signed canonical_payload
  check_signature-truncate v receiver_id spki n size s pkg here given =
      rw (check_signature, here, check_signed, canonical_payload, given) refl

  module _ (o : Order p) where
    take-upload_rounds :
        (hybrid_kek : Option Bytes) (k rounds n : ℕ) (stream : Bytes)
        → k ≤ rounds
        → take k (upload_rounds p o hybrid_kek rounds n stream)
          ≡ upload_rounds p o hybrid_kek k n stream
    unfolding upload_rounds
    take-upload_rounds hybrid_kek zero rounds n stream h = refl
    take-upload_rounds hybrid_kek (suc k) zero n stream h = absurd (omega (arith, h))
    take-upload_rounds hybrid_kek (suc k) (suc rounds) n stream h =
        let read = read_fragment (o.draws n).chunk_size stream in
        elim (Bool-cases (is_empty read.0)) [
          | inl nothing ↦ rw nothing refl
          | inr more ↦ rw more (
              ap (λ parts. make_part p o hybrid_kek n read.0 ∷ parts)
                (take-upload_rounds hybrid_kek k rounds (n + 1) read.1 (omega (arith, h))))
        ]

    -- Where the first parts of an upload are listed, with all files there.
    yield_fragments-truncate :
        (correct : IsCorrect p) (hybrid_kek : Option Bytes) (k : ℕ) (stream : Bytes)
        → k ≤ suc (length stream)
        → let parts = upload_parts p o hybrid_kek stream in
          yield_fragments p hybrid_kek o.receiver_id
            (map (entry p) parts)
            (sort_by_id (take k (map (info_of p o) parts)))
          ≡ record { yielded = take k (map (chunk_of p o) parts); failure = none }
    unfolding upload_parts
    yield_fragments-truncate correct hybrid_kek k stream h =
        let rounds = suc (length stream) in
        let parts = upload_rounds p o hybrid_kek rounds 0 stream in
        let entries = map (entry p) parts in
        let opened =
          All-and _ (HasEntry p o hybrid_kek entries) (IsOpened p o hybrid_kek entries) parts
            (λ part opens here. opens here)
            (upload_rounds-opens p o correct hybrid_kek entries rounds 0 stream)
            (upload_rounds-HasEntry p o hybrid_kek correct rounds 0 stream) in
        let few = take-upload_rounds hybrid_kek k rounds 0 stream h in
        let first_parts = upload_rounds p o hybrid_kek k 0 stream in
        let sorted : sort_by_id (take k (map (info_of p o) parts)) ≡ map (info_of p o) first_parts =
          ap sort_by_id (take-map (info_of p o) k parts ∙ ap (map (info_of p o)) few)
          ∙ upload_rounds-sorted p o hybrid_kek k 0 stream in
        ap (yield_fragments p hybrid_kek o.receiver_id entries) sorted
        ∙ yield_fragments-opened p o hybrid_kek entries first_parts (
            subst (All (IsOpened p o hybrid_kek entries)) few
              (All-take (IsOpened p o hybrid_kek entries) k parts opened))
        ∙ ap (λ chunks. record { yielded = chunks; failure = none })
            (sym (take-map (chunk_of p o) k parts ∙ ap (map (chunk_of p o)) few))

    module _ {Hybrid Keys : Type 0} where
      -- Fragments can be left out unnoticed: of an uploaded package whose signature gives the file's size
      -- and is accepted, only the first fragments need to be listed. The download then ends without
      -- failure and yields just these, for every number of them, also none: neither the signed size nor
      -- the signed hash is compared with what is yielded.
      pub truncated_accepted :
          (correct : IsCorrect p) (v : Verifier) (engine : Option (KeyEngine Hybrid Keys))
          (hybrid : Option (Bytes × Hybrid)) (s : Signature Digest) (transfer_id spki : String)
          (size k : ℕ) (stream : Bytes) (keys : Keys) (table : List EcdhPrekey)
          → s.file_size ≡ some size
          → k ≤ suc (length stream)
          → let pkg = (package_of p o hybrid (some s) stream).pfce_package in
            check_signature p v pkg.metadata o.receiver_id spki ≡ ok tt
            → recover_kek p engine o.receiver_id transfer_id pkg.metadata
                (get_and_delete_prekey o.receiver_id transfer_id table).0
                keys
              ≡ ok (kek_of hybrid)
            → (process_download_stream p v engine transfer_id o.receiver_id spki
                (truncate k pkg)
                keys
                table).0
              ≡ record {
                yielded = take k (map (chunk_of p o) (upload_parts p o (kek_of hybrid) stream));
                failure = none;
              }
      unfolding process_download_stream yield_with package_of
      truncated_accepted correct v engine hybrid s transfer_id spki size k stream keys table given
            few signed recovered =
          let pkg = (package_of p o hybrid (some s) stream).pfce_package in
          let still_signed =
            check_signature-truncate v o.receiver_id spki k size s pkg refl given ∙ signed in
          let still_recovered =
            recover_kek-truncate p engine o.receiver_id transfer_id k pkg
              (get_and_delete_prekey o.receiver_id transfer_id table).0 keys
            ∙ recovered in
          rw (process_download_stream, still_signed, still_recovered)
            (yield_fragments-truncate correct (kek_of hybrid) k stream few)
