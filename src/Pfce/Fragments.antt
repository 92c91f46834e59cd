-- ===== src/Pfce/Fragments.antt =====
-- The loop of `process_upload` that reads one fragment from the stream, at most a mebibyte at a time.
-- `read` gives what is asked as long as there is so much.
use reserach.Base.{
  ℕ, zero, suc, ◌≤◌, ◌+◌, ◌-◌, min, max, ◌≡◌, refl, ap, ◌∙◌, List, [], ◌∷◌, ◌++◌, Bool, true, false,
  ltb, length, take, drop, take-append-drop, length-take, length-drop, length-append, ltb→lt,
  append_assoc, arith, if◌then◌else◌, Bool-cases, inl, inr,
}
use reserach.Malware.{Bytes}

abbrev pub mebibyte : ℕ
mebibyte = 1_048_576

abbrev pub is_empty : Bytes → Bool
is_empty [] = true
is_empty (b ∷ bytes) = false

abbrev pub join_chunks : List Bytes → Bytes
join_chunks [] = []
join_chunks (chunk ∷ chunks) = chunk ++ join_chunks chunks

-- The rounds that are left, the bytes wanted in all and those read so far; the result is what the
-- fragment's file holds and what is left of the stream.
unfoldable pub read_rounds : ℕ → ℕ → Bytes → Bytes → Bytes × Bytes
read_rounds zero chunk_size read stream = (read, stream)
read_rounds (suc rounds) chunk_size read stream =
    let read_amount = min mebibyte (chunk_size - length read) in
    let chunk_part = take read_amount stream in
    let more = read_rounds rounds chunk_size (read ++ chunk_part) (drop read_amount stream) in
    if ltb (length read) chunk_size
    then (if is_empty chunk_part then (read, stream) else more)
    else (read, stream)

-- A round that goes on reads at least a byte, so that as many rounds as bytes are enough.
unfoldable pub read_fragment : ℕ → Bytes → Bytes × Bytes
unfolding read_rounds
read_fragment chunk_size stream = read_rounds chunk_size chunk_size [] stream

pub is_empty-length : (xs : Bytes) → is_empty xs ≡ true → length xs ≡ 0
is_empty-length [] h = refl
is_empty-length (x ∷ xs) h = ground (arith, h)

pub length-is_empty : (xs : Bytes) → is_empty xs ≡ false → 1 ≤ length xs
length-is_empty [] h = ground (arith, h)
length-is_empty (x ∷ xs) h = omega arith

-- Nothing is lost: what has been read and what is left make up the stream.
pub read_rounds-append :
    (rounds chunk_size : ℕ) (read stream : Bytes)
    → (read_rounds rounds chunk_size read stream).0 ++ (read_rounds rounds chunk_size read stream).1
      ≡ read ++ stream
unfolding read_rounds
read_rounds-append zero chunk_size read stream = refl
read_rounds-append (suc rounds) chunk_size read stream =
    let amount = min mebibyte (chunk_size - length read) in
    let part = take amount stream in
    elim (Bool-cases (ltb (length read) chunk_size)) [
      | inl wanted ↦ elim (Bool-cases (is_empty part)) [
        | inl nothing ↦ rw wanted (rw nothing refl)
        | inr some_bytes ↦ rw wanted (
            rw some_bytes (
              read_rounds-append rounds chunk_size (read ++ part) (drop amount stream)
              ∙ append_assoc read part (drop amount stream)
              ∙ ap (λ xs. read ++ xs) (take-append-drop amount stream)))
      ]
      | inr full ↦ rw full refl
    ]

-- With a round for each byte that is wanted, the loop stops only where it has as many bytes as wanted or
-- the stream has ended.
pub read_rounds-length :
    (rounds chunk_size : ℕ) (read stream : Bytes)
    → chunk_size - length read ≤ rounds
    → length (read_rounds rounds chunk_size read stream).0
      ≡ max (length read) (min chunk_size (length read + length stream))
unfolding read_rounds
read_rounds-length zero chunk_size read stream h = omega arith
read_rounds-length (suc rounds) chunk_size read stream h =
    let amount = min mebibyte (chunk_size - length read) in
    let part = take amount stream in
    let size = length-take amount stream in
    elim (Bool-cases (ltb (length read) chunk_size)) [
      | inl wanted ↦
          let lt = ltb→lt (length read) chunk_size wanted in
          elim (Bool-cases (is_empty part)) [
            | inl nothing ↦ rw wanted (rw nothing (omega (arith, is_empty-length part nothing)))
            | inr some_bytes ↦
                let more = length-is_empty part some_bytes in
                let sum = length-append read part in
                let left = length-drop amount stream in
                rw wanted (
                  rw some_bytes (
                    read_rounds-length rounds chunk_size (read ++ part) (drop amount stream)
                      (omega arith)
                    ∙ omega arith))
          ]
      | inr full ↦ rw full (ground arith)
    ]
