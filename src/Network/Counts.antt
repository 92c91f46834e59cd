-- ===== src/Network/Counts.antt =====
-- The counters of a connection agree with each other and with the packets that were added.
use reserach.Base.{
  ℕ, suc, ◌+◌, ◌-◌, ◌≤◌, min, ◌≡◌, refl, ap, Bool, true, false, List, [], ◌∷◌, ◌++◌, length,
  length-append, arith, inl, inr, Bool-cases, ◌&&◌, ◌==◌, leb, suc, String,
}
use reserach.Base.Int.{pos, ◌-ℤ◌}
use reserach.Network.Flow.{
  Packet, FlowStats, Track, new_flow, bump, signed, set_track, count_packet, count_flags, track,
  advance, occupies, is_old, is_gap, follow_sequence, follow_acks, add_packet,
  packet_sequence_limit,
}

abbrev pub sum : List ℕ → ℕ
sum [] = 0
sum (n ∷ ns) = n + sum ns

sum-append : (ms ns : List ℕ) → sum (ms ++ ns) ≡ sum ms + sum ns
sum-append [] ns = omega arith
sum-append (m ∷ ms) ns = omega (arith, sum-append ms ns)

pub record IsConsistent (f : FlowStats) : Type 0 where
  pub packets : f.incoming_packets + f.outgoing_packets ≡ f.packet_count
  pub bytes : f.incoming_bytes + f.outgoing_bytes ≡ f.total_bytes
  pub sizes : sum f.packet_sizes ≡ f.total_bytes
  pub measured : length f.packet_sizes ≡ f.packet_count
  pub sequence : length f.packet_size_sequence ≡ min f.packet_count packet_sequence_limit
  pub times : length f.interarrival_times ≤ f.packet_count - 1
  pub gaps : f.out_of_order_count ≡ f.sequence_gap_count

count_packet-IsConsistent :
    (p : Packet) (is_incoming : Bool) (timestamp : ℕ) (f : FlowStats)
    → IsConsistent f
    → IsConsistent (count_packet p is_incoming timestamp f)
unfolding count_packet
count_packet-IsConsistent p is_incoming timestamp f h = record {
  packets = ground (arith, h.packets);
  bytes = ground (arith, h.bytes);
  sizes = omega (arith, h.sizes, sum-append f.packet_sizes (p.len ∷ []));
  measured = omega (arith, h.measured, length-append f.packet_sizes (p.len ∷ []));
  sequence =
      ground
        (arith, h.sequence, length-append f.packet_size_sequence (signed is_incoming p.len ∷ []));
  times = ground (
    arith,
    h.times,
    length-append f.interarrival_times ((pos timestamp -ℤ pos f.last_seen) ∷ []),
  );
  gaps = h.gaps;
}

set_track-IsConsistent :
    (is_incoming : Bool) (t : Track) (f : FlowStats)
    → IsConsistent f
    → IsConsistent (set_track is_incoming t f)
set_track-IsConsistent true t f h = record {
  packets = h.packets;
  bytes = h.bytes;
  sizes = h.sizes;
  measured = h.measured;
  sequence = h.sequence;
  times = h.times;
  gaps = h.gaps;
}
set_track-IsConsistent false t f h = record {
  packets = h.packets;
  bytes = h.bytes;
  sizes = h.sizes;
  measured = h.measured;
  sequence = h.sequence;
  times = h.times;
  gaps = h.gaps;
}

count_flags-IsConsistent :
    (p : Packet) (f : FlowStats) → IsConsistent f → IsConsistent (count_flags p f)
unfolding count_flags
count_flags-IsConsistent p f h = record {
  packets = h.packets;
  bytes = h.bytes;
  sizes = h.sizes;
  measured = h.measured;
  sequence = h.sequence;
  times = h.times;
  gaps = h.gaps;
}

recount-IsConsistent :
    (old gap : Bool) (f : FlowStats)
    → IsConsistent f
    → IsConsistent (record f {
      retransmission_count = bump old f.retransmission_count;
      sequence_gap_count = bump gap f.sequence_gap_count;
      out_of_order_count = bump gap f.out_of_order_count;
    })
recount-IsConsistent old gap f h = record {
  packets = h.packets;
  bytes = h.bytes;
  sizes = h.sizes;
  measured = h.measured;
  sequence = h.sequence;
  times = h.times;
  gaps = ap (bump gap) h.gaps;
}

duplicate-IsConsistent :
    (n : ℕ) (f : FlowStats) → IsConsistent f → IsConsistent (record f { duplicate_ack_count = n })
duplicate-IsConsistent n f h = record {
  packets = h.packets;
  bytes = h.bytes;
  sizes = h.sizes;
  measured = h.measured;
  sequence = h.sequence;
  times = h.times;
  gaps = h.gaps;
}

follow_sequence-IsConsistent :
    (p : Packet) (is_incoming : Bool) (f : FlowStats)
    → IsConsistent f
    → IsConsistent (follow_sequence p is_incoming f)
unfolding follow_sequence
follow_sequence-IsConsistent p is_incoming f h = elim (Bool-cases (occupies p)) [
  | inl occupied ↦
      let t = track is_incoming f in
      let old = is_old p t.expected_seq in
      let gap = is_gap p t.expected_seq in
      rw occupied (
        set_track-IsConsistent is_incoming (record t { expected_seq = advance p t.expected_seq })
          (record f {
            retransmission_count = bump old f.retransmission_count;
            sequence_gap_count = bump gap f.sequence_gap_count;
            out_of_order_count = bump gap f.out_of_order_count;
          })
          (recount-IsConsistent old gap f h))
  | inr empty ↦ rw empty h
]

follow_acks-IsConsistent :
    (p : Packet) (is_incoming : Bool) (f : FlowStats)
    → IsConsistent f
    → IsConsistent (follow_acks p is_incoming f)
unfolding follow_acks
follow_acks-IsConsistent p is_incoming f h =
    let t = track is_incoming f in
    elim (Bool-cases p.acks) [
      | inl acknowledged ↦ elim (Bool-cases ((p.ack == t.last_ack) && (p.payload_len == 0))) [
        | inl duplicate ↦
            let n = bump (leb 3 (suc t.dup_acks)) f.duplicate_ack_count in
            rw (acknowledged, duplicate)
              (set_track-IsConsistent is_incoming (record t { dup_acks = suc t.dup_acks })
                (record f { duplicate_ack_count = n }) (duplicate-IsConsistent n f h))
        | inr fresh ↦
            rw (acknowledged, fresh)
              (set_track-IsConsistent is_incoming (record t { last_ack = p.ack; dup_acks = 0 }) f h)
      ]
      | inr plain ↦ rw plain h
    ]

-- A packet keeps the counters of a connection consistent: the two directions add up to the packets
-- and to the bytes, which are the sum of the sizes; there is one size for each packet, at most one
-- waiting time fewer, the first 256 signed sizes, and as many packets out of order as gaps.
pub add_packet-IsConsistent :
    (p : Packet) (is_incoming : Bool) (timestamp : ℕ) (f : FlowStats)
    → IsConsistent f
    → IsConsistent (add_packet p is_incoming timestamp f)
unfolding add_packet
add_packet-IsConsistent p is_incoming timestamp f h =
    let counted = count_packet p is_incoming timestamp f in
    let h1 = count_packet-IsConsistent p is_incoming timestamp f h in
    let flagged = count_flags p counted in
    follow_acks-IsConsistent p is_incoming (follow_sequence p is_incoming flagged)
      (follow_sequence-IsConsistent p is_incoming flagged (count_flags-IsConsistent p counted h1))

pub new_flow-IsConsistent :
    (now : ℕ) (src dst : String) (sport dport : ℕ) → IsConsistent (new_flow now src dst sport dport)
unfolding new_flow
new_flow-IsConsistent now src dst sport dport = record {
  packets = refl;
  bytes = refl;
  sizes = refl;
  measured = refl;
  sequence = refl;
  times = omega arith;
  gaps = refl;
}
