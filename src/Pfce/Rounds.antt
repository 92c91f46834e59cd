-- ===== src/Pfce/Rounds.antt =====
-- The `while True` loop of `process_upload` (backend/app/services/pfce_engine.py) ends.
use reserach.Base.{
  ℕ, zero, suc, ◌≤◌, ◌<◌, ◌+◌, ◌≡◌, refl, ap, Option, ◌∷◌, length, arith, Bool-cases, inl, inr,
}
use reserach.Malware.{Bytes}
use reserach.Pfce.{Primitives}
use reserach.Pfce.Fragments.{is_empty, read_fragment}
use reserach.Pfce.Parts.{read_fragment-left}
use reserach.Pfce.Upload.{Order, make_part, upload_rounds}

module _ {Digest : Type 0} (p : Primitives Digest) (o : Order p) (hybrid_kek : Option Bytes) where
  -- The loop ends by itself: with more rounds than the stream has bytes, the parts do not depend on how
  -- many rounds are left, and there are at most as many parts as bytes.
  pub upload_rounds_ends :
      (rounds more n : ℕ) (stream : Bytes)
      → length stream < rounds
      → length stream < more
      → (upload_rounds p o hybrid_kek rounds n stream ≡ upload_rounds p o hybrid_kek more n stream)
        × (length (upload_rounds p o hybrid_kek rounds n stream) ≤ length stream)
  unfolding upload_rounds
  upload_rounds_ends zero more n stream h k = absurd (omega (arith, h))
  upload_rounds_ends (suc rounds) zero n stream h k = absurd (omega (arith, k))
  upload_rounds_ends (suc rounds) (suc more) n stream h k =
      let read = read_fragment (o.draws n).chunk_size stream in
      elim (Bool-cases (is_empty read.0)) [
        | inl none_left ↦ rw none_left (refl, omega arith)
        | inr left ↦
            let shorter = read_fragment-left (o.draws n).chunk_size stream left in
            let (same, few) =
              upload_rounds_ends rounds more (n + 1) read.1 (omega (arith, shorter, h))
                (omega (arith, shorter, k)) in
            rw left (
              ap (λ rest. make_part p o hybrid_kek n read.0 ∷ rest) same,
              omega (arith, few, shorter),
            )
      ]
