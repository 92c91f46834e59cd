-- ===== src/Network/Streams.antt =====
-- Sequence numbers: what a stream in order counts, and what happens past 2 ^ 32.
use reserach.Base.{
  ℕ, suc, ◌+◌, ◌≤◌, ◌<◌, ◌≡◌, refl, ◌∙◌, ap, Bool, true, false, List, [], ◌∷◌, length, arith, All,
  inl, inr, Bool-cases, ◌==◌, ◌&&◌,
}
use reserach.Network.Flow.{
  Packet, FlowStats, track, bump, occupies, is_old, is_gap, new_expected, advance, follow_sequence,
  follow_acks, count_packet, count_flags, add_packet,
}

-- The number expected next in a direction, the retransmissions and the gaps.
abbrev pub Numbers : Type 0
Numbers = ℕ × ℕ × ℕ

abbrev pub numbers : Bool → FlowStats → Numbers
numbers is_incoming f =
    ((track is_incoming f).expected_seq, f.retransmission_count, f.sequence_gap_count)

-- What a packet that carries data, SYN or FIN does to them.
abbrev pub next_numbers : Packet → Numbers → Numbers
next_numbers p (expected, old, gaps) =
    (advance p expected, bump (is_old p expected) old, bump (is_gap p expected) gaps)

numbers-follow_acks :
    (p : Packet) (is_incoming : Bool) (f : FlowStats)
    → numbers is_incoming (follow_acks p is_incoming f) ≡ numbers is_incoming f
unfolding follow_acks
numbers-follow_acks p true f = elim (Bool-cases p.acks) [
  | inl acked ↦ elim (Bool-cases ((p.ack == f.incoming.last_ack) && (p.payload_len == 0))) [
    | inl same ↦ rw (acked, same) refl
    | inr other ↦ rw (acked, other) refl
  ]
  | inr plain ↦ rw plain refl
]
numbers-follow_acks p false f = elim (Bool-cases p.acks) [
  | inl acked ↦ elim (Bool-cases ((p.ack == f.outgoing.last_ack) && (p.payload_len == 0))) [
    | inl same ↦ rw (acked, same) refl
    | inr other ↦ rw (acked, other) refl
  ]
  | inr plain ↦ rw plain refl
]

numbers-follow_sequence :
    (p : Packet) (is_incoming : Bool) (f : FlowStats)
    → occupies p ≡ true
    → numbers is_incoming (follow_sequence p is_incoming f) ≡ next_numbers p (numbers is_incoming f)
unfolding follow_sequence
numbers-follow_sequence p true f h = rw h refl
numbers-follow_sequence p false f h = rw h refl

numbers-count :
    (p : Packet) (is_incoming : Bool) (timestamp : ℕ) (f : FlowStats)
    → numbers is_incoming (count_flags p (count_packet p is_incoming timestamp f))
      ≡ numbers is_incoming f
unfolding count_flags count_packet
numbers-count p true timestamp f = refl
numbers-count p false timestamp f = refl

numbers-add_packet :
    (p : Packet) (is_incoming : Bool) (timestamp : ℕ) (f : FlowStats)
    → occupies p ≡ true
    → numbers is_incoming (add_packet p is_incoming timestamp f)
      ≡ next_numbers p (numbers is_incoming f)
unfolding add_packet
numbers-add_packet p is_incoming timestamp f h =
    let counted = count_flags p (count_packet p is_incoming timestamp f) in
    numbers-follow_acks p is_incoming (follow_sequence p is_incoming counted)
    ∙ numbers-follow_sequence p is_incoming counted h
    ∙ ap (next_numbers p) (numbers-count p is_incoming timestamp f)

-- Packets of one direction, in the order in which they are captured.
unfoldable pub add_all : Bool → List Packet → FlowStats → FlowStats
add_all is_incoming [] f = f
add_all is_incoming (p ∷ ps) f = add_all is_incoming ps (add_packet p is_incoming p.time f)

-- Each packet carries data, SYN or FIN, and starts at the number where the one before ended.
abbrev pub InOrder : ℕ → List Packet → Type 0
InOrder expected [] = Unit
InOrder expected (p ∷ ps) = (occupies p ≡ true) × (p.seq ≡ expected) × InOrder (new_expected p) ps

next_in_order :
    (p : Packet) (expected old gaps : ℕ)
    → occupies p ≡ true
    → p.seq ≡ expected
    → next_numbers p (expected, old, gaps) ≡ (new_expected p, old, gaps)
unfolding advance is_old is_gap new_expected occupies
next_in_order p expected old gaps h k =
    let parts : (advance p expected ≡ new_expected p)
        × (bump (is_old p expected) old ≡ old)
        × (bump (is_gap p expected) gaps ≡ gaps) =
      ground arith in
    λ i. (parts.0 i, parts.1 i, parts.2 i)

-- A stream in order, from the number that the flow expects in its direction on, counts no
-- retransmission and no gap, however the packets are cut.
pub add_all-InOrder :
    (is_incoming : Bool) (ps : List Packet) (f : FlowStats)
    → InOrder (track is_incoming f).expected_seq ps
    → ((add_all is_incoming ps f).retransmission_count ≡ f.retransmission_count)
      × ((add_all is_incoming ps f).sequence_gap_count ≡ f.sequence_gap_count)
unfolding add_all
add_all-InOrder is_incoming [] f h = (refl, refl)
add_all-InOrder is_incoming (p ∷ ps) f h =
    let g = add_packet p is_incoming p.time f in
    let step : numbers is_incoming g
        ≡ (new_expected p, f.retransmission_count, f.sequence_gap_count) =
      numbers-add_packet p is_incoming p.time f h.0
      ∙ next_in_order p (track is_incoming f).expected_seq f.retransmission_count
          f.sequence_gap_count h.0 h.1 in
    let expected : (track is_incoming g).expected_seq ≡ new_expected p =
      ap (λ (n : Numbers). n.0) step in
    let (old, gap) = add_all-InOrder is_incoming ps g (rw expected h.2) in
    (old ∙ ap (λ (n : Numbers). n.1) step, gap ∙ ap (λ (n : Numbers). n.2) step)

next_wrapped :
    (p : Packet) (expected old : ℕ)
    → 4_294_967_296 ≤ expected
    → p.seq < 4_294_967_296
    → (4_294_967_296 ≤ advance p expected) × (bump (is_old p expected) old ≡ suc old)
unfolding advance is_old
next_wrapped p expected old h k = ground arith

abbrev pub OnWire : Packet → Type 0
OnWire p = (occupies p ≡ true) × (p.seq < 4_294_967_296)

-- Sequence numbers are 32 bits wide, but the number that is expected next is not reduced: once it has
-- reached 2 ^ 32, each further packet with data, SYN or FIN in that direction counts as a
-- retransmission.
pub wraparound_retransmits :
    (is_incoming : Bool) (ps : List Packet) (f : FlowStats)
    → 4_294_967_296 ≤ (track is_incoming f).expected_seq
    → All OnWire ps
    → (add_all is_incoming ps f).retransmission_count ≡ f.retransmission_count + length ps
unfolding add_all
wraparound_retransmits is_incoming [] f h k = omega arith
wraparound_retransmits is_incoming (p ∷ ps) f h k =
    let g = add_packet p is_incoming p.time f in
    let step = numbers-add_packet p is_incoming p.time f k.0.0 in
    let (far, old) =
      next_wrapped p (track is_incoming f).expected_seq f.retransmission_count h k.0.1 in
    let far' : 4_294_967_296 ≤ (track is_incoming g).expected_seq =
      rw (ap (λ (n : Numbers). n.0) step) far in
    omega
      (arith, wraparound_retransmits is_incoming ps g far' k.1, ap (λ (n : Numbers). n.1) step, old)
