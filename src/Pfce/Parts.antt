-- ===== src/Pfce/Parts.antt =====
-- What the parts of an upload are: their bytes make up the stream, they are numbered in order, and each
-- has a file of its own in the archive.
use reserach.Base.{
  ℕ, zero, suc, ◌≤◌, ◌<◌, ◌+◌, ◌≡◌, refl, ap, ◌∙◌, sym, true, false, String, Option, some, List, [],
  ◌∷◌, ◌++◌, map, length, length-append, All, All-imp, All-and, beq-eq_false, string_eq, str_eq,
  str_eq_refl, arith, le→leb, Bool-cases, inl, inr,
}
use reserach.Malware.{Bytes}
use reserach.Pfce.{FragmentInfo, Primitives, IsCorrect}
use reserach.Pfce.Fragments.{
  is_empty, join_chunks, is_empty-length, length-is_empty, read_rounds, read_fragment,
  read_rounds-append, read_rounds-length,
}
use reserach.Pfce.Upload.{Part, Order, make_part, upload_rounds, entry}
use reserach.Pfce.Download.{insert_by_id, sort_by_id, read_entry}

no_bytes : (xs : Bytes) → length xs ≡ 0 → xs ≡ []
no_bytes [] h = refl
no_bytes (x ∷ xs) h = ground (arith, h)

read_fragment-append :
    (n : ℕ) (stream : Bytes) → (read_fragment n stream).0 ++ (read_fragment n stream).1 ≡ stream
unfolding read_fragment
read_fragment-append n stream = read_rounds-append n n [] stream

read_fragment-empty :
    (n : ℕ) (stream : Bytes) → 1 ≤ n → is_empty (read_fragment n stream).0 ≡ true → stream ≡ []
unfolding read_fragment
read_fragment-empty n stream h nothing = no_bytes stream (
    omega (
      arith,
      read_rounds-length n n [] stream (omega arith),
      is_empty-length (read_rounds n n [] stream).0 nothing,
    ))

pub read_fragment-left :
    (n : ℕ) (stream : Bytes)
    → is_empty (read_fragment n stream).0 ≡ false
    → length (read_fragment n stream).1 < length stream
read_fragment-left n stream more =
    let read = read_fragment n stream in
    let sum = ap length (read_fragment-append n stream) in
    omega (arith, sum, length-append read.0 read.1, length-is_empty read.0 more)

module _ {Digest : Type 0} (p : Primitives Digest) (o : Order p) where
  abbrev pub chunk_of : Part p → Bytes
  chunk_of part = part.chunk

  abbrev pub info_of : Part p → FragmentInfo Digest
  info_of part = part.info

  module _ (hybrid_kek : Option Bytes) where
    pub upload_rounds-join_chunks :
        (rounds n : ℕ) (stream : Bytes)
        → ((k : ℕ) → 1 ≤ (o.draws k).chunk_size)
        → length stream < rounds
        → join_chunks (map chunk_of (upload_rounds p o hybrid_kek rounds n stream)) ≡ stream
    unfolding upload_rounds make_part
    upload_rounds-join_chunks zero n stream positive h = absurd (omega (arith, h))
    upload_rounds-join_chunks (suc rounds) n stream positive h =
        let read = read_fragment (o.draws n).chunk_size stream in
        elim (Bool-cases (is_empty read.0)) [
          | inl nothing ↦
              rw nothing
                (sym (read_fragment-empty (o.draws n).chunk_size stream (positive n) nothing))
          | inr more ↦ rw more (
              ap (λ xs. read.0 ++ xs)
                (upload_rounds-join_chunks rounds (n + 1) read.1 positive
                  (omega (arith, h, read_fragment-left (o.draws n).chunk_size stream more)))
              ∙ read_fragment-append (o.draws n).chunk_size stream)
        ]

    -- The numbers of the fragments from a round on, and the names of their files.
    abbrev IsFrom : ℕ → Part p → Type 0
    IsFrom n part =
        (n ≤ part.info.fragment_id)
        × (part.info.filename ≡ p.fragment_name o.stored_name_prefix part.info.fragment_id)

    upload_rounds-IsFrom :
        (rounds n : ℕ) (stream : Bytes)
        → All (IsFrom n) (upload_rounds p o hybrid_kek rounds n stream)
    unfolding upload_rounds make_part
    upload_rounds-IsFrom zero n stream = tt
    upload_rounds-IsFrom (suc rounds) n stream =
        let read = read_fragment (o.draws n).chunk_size stream in
        let rest = upload_rounds p o hybrid_kek rounds (n + 1) read.1 in
        elim (Bool-cases (is_empty read.0)) [
          | inl nothing ↦ rw nothing tt
          | inr more ↦ rw more (
            (omega arith, refl),
            All-imp (IsFrom (n + 1)) (IsFrom n) rest (λ part h. (omega (arith, h.0), h.1))
                (upload_rounds-IsFrom rounds (n + 1) read.1),
          )
        ]

    -- The archive gives each part its own file.
    abbrev pub HasEntry : List (String × Bytes) → Part p → Type 0
    HasEntry entries part = read_entry entries part.info.filename ≡ some part.file

    other_name :
        (correct : IsCorrect p) (n : ℕ) (part : Part p)
        → IsFrom (n + 1) part
        → str_eq (p.fragment_name o.stored_name_prefix n) part.info.filename ≡ false
    other_name correct n part h = beq-eq_false string_eq _ _ (λ same.
        let e : n ≡ part.info.fragment_id =
          correct.fragment_name_inj o.stored_name_prefix n part.info.fragment_id (same ∙ h.1) in
        omega (arith, e, h.0))

    pub upload_rounds-HasEntry :
        (correct : IsCorrect p) (rounds n : ℕ) (stream : Bytes)
        → All
            (HasEntry (map (entry p) (upload_rounds p o hybrid_kek rounds n stream)))
            (upload_rounds p o hybrid_kek rounds n stream)
    unfolding upload_rounds make_part
    upload_rounds-HasEntry correct zero n stream = tt
    upload_rounds-HasEntry correct (suc rounds) n stream =
        let read = read_fragment (o.draws n).chunk_size stream in
        let rest = upload_rounds p o hybrid_kek rounds (n + 1) read.1 in
        elim (Bool-cases (is_empty read.0)) [
          | inl nothing ↦ rw nothing tt
          | inr more ↦ rw more (
            rw (str_eq_refl (p.fragment_name o.stored_name_prefix n)) refl,
            All-and (IsFrom (n + 1)) (HasEntry (map (entry p) rest)) _ rest
                (λ part from here. rw (other_name correct n part from) here)
                (upload_rounds-IsFrom rounds (n + 1) read.1)
                (upload_rounds-HasEntry correct rounds (n + 1) read.1),
          )
        ]

    insert_by_id-least :
        (f : FragmentInfo Digest) (parts : List (Part p))
        → All (IsFrom (f.fragment_id + 1)) parts
        → insert_by_id f (map info_of parts) ≡ f ∷ map info_of parts
    unfolding insert_by_id
    insert_by_id-least f [] h = refl
    insert_by_id-least f (part ∷ parts) h =
        rw (le→leb f.fragment_id part.info.fragment_id (omega (arith, h.0.0))) refl

    -- The fragments are in order already.
    pub upload_rounds-sorted :
        (rounds n : ℕ) (stream : Bytes)
        → sort_by_id (map info_of (upload_rounds p o hybrid_kek rounds n stream))
          ≡ map info_of (upload_rounds p o hybrid_kek rounds n stream)
    unfolding upload_rounds make_part sort_by_id
    upload_rounds-sorted zero n stream = refl
    upload_rounds-sorted (suc rounds) n stream =
        let read = read_fragment (o.draws n).chunk_size stream in
        let rest = upload_rounds p o hybrid_kek rounds (n + 1) read.1 in
        let head = make_part p o hybrid_kek n read.0 in
        elim (Bool-cases (is_empty read.0)) [
          | inl nothing ↦ rw nothing refl
          | inr more ↦ rw more (
              ap (insert_by_id head.info) (upload_rounds-sorted rounds (n + 1) read.1)
              ∙ insert_by_id-least head.info rest (upload_rounds-IsFrom rounds (n + 1) read.1))
        ]
