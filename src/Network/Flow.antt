-- ===== src/Network/Flow.antt =====
-- `FlowStats` (backend/app/services/network_monitor.py): the counters of one TCP connection.
use reserach.Base.{
  ℕ, suc, ◌+◌, Bool, true, false, ◌&&◌, ◌||◌, not, String, List, [], ◌∷◌, ◌++◌, length, ltb, leb,
  ◌==◌, if◌then◌else◌,
}
use reserach.Base.Int.{ℤ, pos, ◌-ℤ◌}

-- The packets that reach `_process_packet` carry IP and TCP.
pub record Packet : Type 0 where
  pub src : String
  pub dst : String
  pub sport : ℕ
  pub dport : ℕ
  pub len : ℕ
  pub payload_len : ℕ
  pub seq : ℕ
  pub ack : ℕ
  pub syn : Bool
  pub fin : Bool
  pub rst : Bool
  pub acks : Bool
  pub psh : Bool
  pub time : ℕ

-- `expected_seq`, `last_ack` and `dup_acks` of one direction.
pub record Track : Type 0 where
  pub expected_seq : ℕ
  pub last_ack : ℕ
  pub dup_acks : ℕ

pub record FlowStats : Type 0 where
  pub src_ip : String
  pub dst_ip : String
  pub src_port : ℕ
  pub dst_port : ℕ
  pub start_time : ℕ
  pub last_seen : ℕ
  pub packet_count : ℕ
  pub total_bytes : ℕ
  pub incoming_packets : ℕ
  pub outgoing_packets : ℕ
  pub incoming_bytes : ℕ
  pub outgoing_bytes : ℕ
  pub packet_sizes : List ℕ
  pub packet_size_sequence : List ℤ
  pub interarrival_times : List ℤ
  pub syn_count : ℕ
  pub fin_count : ℕ
  pub rst_count : ℕ
  pub ack_count : ℕ
  pub psh_count : ℕ
  pub retransmission_count : ℕ
  pub out_of_order_count : ℕ
  pub sequence_gap_count : ℕ
  pub duplicate_ack_count : ℕ
  pub outgoing : Track
  pub incoming : Track

-- The default of NETWORK_PACKET_SEQUENCE_LIMIT.
abbrev pub packet_sequence_limit : ℕ
packet_sequence_limit = 256

abbrev pub new_track : Track
new_track = record { expected_seq = 0; last_ack = 0; dup_acks = 0 }

-- `FlowStats.__init__`
unfoldable pub new_flow : ℕ → String → String → ℕ → ℕ → FlowStats
new_flow now src_ip dst_ip src_port dst_port = record {
  src_ip = src_ip;
  dst_ip = dst_ip;
  src_port = src_port;
  dst_port = dst_port;
  start_time = now;
  last_seen = now;
  packet_count = 0;
  total_bytes = 0;
  incoming_packets = 0;
  outgoing_packets = 0;
  incoming_bytes = 0;
  outgoing_bytes = 0;
  packet_sizes = [];
  packet_size_sequence = [];
  interarrival_times = [];
  syn_count = 0;
  fin_count = 0;
  rst_count = 0;
  ack_count = 0;
  psh_count = 0;
  retransmission_count = 0;
  out_of_order_count = 0;
  sequence_gap_count = 0;
  duplicate_ack_count = 0;
  outgoing = new_track;
  incoming = new_track;
}

-- `n += 1` under a flag
abbrev pub bump : Bool → ℕ → ℕ
bump flag n = if flag then suc n else n

-- `direction_sign * pkt_len`
abbrev pub signed : Bool → ℕ → ℤ
signed is_incoming n = if is_incoming then pos 0 -ℤ pos n else pos n

-- The first half of `add_packet`: counts, sizes, times and directions.
unfoldable pub count_packet : Packet → Bool → ℕ → FlowStats → FlowStats
count_packet p is_incoming timestamp f = record f {
  packet_count = suc f.packet_count;
  total_bytes = f.total_bytes + p.len;
  interarrival_times =
      if ltb 0 f.last_seen && ltb 1 (suc f.packet_count)
      then f.interarrival_times ++ (pos timestamp -ℤ pos f.last_seen) ∷ []
      else f.interarrival_times;
  last_seen = timestamp;
  packet_sizes = f.packet_sizes ++ p.len ∷ [];
  packet_size_sequence =
      if ltb (length f.packet_size_sequence) packet_sequence_limit
      then f.packet_size_sequence ++ signed is_incoming p.len ∷ []
      else f.packet_size_sequence;
  incoming_packets = bump is_incoming f.incoming_packets;
  incoming_bytes = if is_incoming then f.incoming_bytes + p.len else f.incoming_bytes;
  outgoing_packets = bump (not is_incoming) f.outgoing_packets;
  outgoing_bytes = if is_incoming then f.outgoing_bytes else f.outgoing_bytes + p.len;
}

-- The TCP flags.
unfoldable pub count_flags : Packet → FlowStats → FlowStats
count_flags p f = record f {
  syn_count = bump p.syn f.syn_count;
  fin_count = bump p.fin f.fin_count;
  rst_count = bump p.rst f.rst_count;
  ack_count = bump p.acks f.ack_count;
  psh_count = bump p.psh f.psh_count;
}

abbrev pub track : Bool → FlowStats → Track
track is_incoming f = if is_incoming then f.incoming else f.outgoing

abbrev pub set_track : Bool → Track → FlowStats → FlowStats
set_track true t f = record f { incoming = t }
set_track false t f = record f { outgoing = t }

-- `payload_len > 0 or 'S' in flags or 'F' in flags`
unfoldable pub occupies : Packet → Bool
occupies p = ltb 0 p.payload_len || p.syn || p.fin

-- `seq < expected`, `seq > expected`, where an `expected` of 0 stands for none.
unfoldable pub is_old : Packet → ℕ → Bool
is_old p expected = not (expected == 0) && ltb p.seq expected

unfoldable pub is_gap : Packet → ℕ → Bool
is_gap p expected = not (expected == 0) && ltb expected p.seq

-- "Advance expected seq"
unfoldable pub new_expected : Packet → ℕ
new_expected p = bump (p.syn || p.fin) (p.seq + p.payload_len)

unfoldable pub advance : Packet → ℕ → ℕ
advance p expected = if ltb expected (new_expected p) then new_expected p else expected

unfoldable pub follow_sequence : Packet → Bool → FlowStats → FlowStats
follow_sequence p is_incoming f =
    let t = track is_incoming f in
    if occupies p
    then set_track is_incoming (record t { expected_seq = advance p t.expected_seq })
        (record f {
          retransmission_count = bump (is_old p t.expected_seq) f.retransmission_count;
          sequence_gap_count = bump (is_gap p t.expected_seq) f.sequence_gap_count;
          out_of_order_count = bump (is_gap p t.expected_seq) f.out_of_order_count;
        })
    else f

-- The duplicate acknowledgements.
unfoldable pub follow_acks : Packet → Bool → FlowStats → FlowStats
follow_acks p is_incoming f =
    let t = track is_incoming f in
    if p.acks
    then (if (p.ack == t.last_ack) && (p.payload_len == 0)
        then set_track is_incoming (record t { dup_acks = suc t.dup_acks })
            (record f { duplicate_ack_count = bump (leb 3 (suc t.dup_acks)) f.duplicate_ack_count })
        else set_track is_incoming (record t { last_ack = p.ack; dup_acks = 0 }) f)
    else f

unfoldable pub add_packet : Packet → Bool → ℕ → FlowStats → FlowStats
add_packet p is_incoming timestamp f =
    follow_acks p is_incoming
      (follow_sequence p is_incoming (count_flags p (count_packet p is_incoming timestamp f)))
