-- ===== src/Network/Bounded.antt =====
-- The monitor's memory is bounded, and its table is keyed by the endpoints of the flows.
use reserach.Base.{
  ℕ, suc, ◌≤◌, ◌≡◌, refl, ◌∙◌, String, Bool, true, false, not, List, [], ◌∷◌, ◌++◌, ◌==◌, ◌&&◌,
  length, length-append, length-drop, length-keep, All, All-keep, arith, inl, inr, Bool-cases,
  Option-cases, str_lt_asymm, str_lt_antisymm, leb,
}
use reserach.Base.Dict.{
  lookup, insert, length-insert_new, length-insert_old, All-insert, All-lookup,
}
use reserach.Network.Flow.{
  Packet, FlowStats, new_flow, occupies, count_packet, count_flags, follow_sequence, follow_acks,
  add_packet,
}
use reserach.Network.Counts.{IsConsistent, add_packet-IsConsistent, new_flow-IsConsistent}
use reserach.Network.Table.{
  Settings, FlowKey, key_eq, Monitor, get_flow_key, packet_key, pcap_limit, or_empty, buffer_packet,
  keep_packet, update_flow, process_packet, is_expired, is_dropped, cleanup_expired_flows,
}

-- Both directions of a connection have one key.
pub get_flow_key_symm :
    (ip1 : String) (port1 : ℕ) (ip2 : String) (port2 : ℕ)
    → get_flow_key ip1 port1 ip2 port2 ≡ get_flow_key ip2 port2 ip1 port1
unfolding get_flow_key
get_flow_key_symm ip1 port1 ip2 port2 =
    ground (arith, str_lt_asymm ip1 ip2, str_lt_asymm ip2 ip1, str_lt_antisymm ip1 ip2)

-- The key that a flow's own endpoints have.
abbrev pub own_key : FlowStats → FlowKey
own_key f = get_flow_key f.src_ip f.src_port f.dst_ip f.dst_port

own_key-follow_sequence :
    (p : Packet) (is_incoming : Bool) (f : FlowStats)
    → own_key (follow_sequence p is_incoming f) ≡ own_key f
unfolding follow_sequence
own_key-follow_sequence p true f = elim (Bool-cases (occupies p)) [
  | inl full ↦ rw full refl
  | inr empty ↦ rw empty refl
]
own_key-follow_sequence p false f = elim (Bool-cases (occupies p)) [
  | inl full ↦ rw full refl
  | inr empty ↦ rw empty refl
]

own_key-follow_acks :
    (p : Packet) (is_incoming : Bool) (f : FlowStats)
    → own_key (follow_acks p is_incoming f) ≡ own_key f
unfolding follow_acks
own_key-follow_acks p true f = elim (Bool-cases p.acks) [
  | inl acked ↦ elim (Bool-cases ((p.ack == f.incoming.last_ack) && (p.payload_len == 0))) [
    | inl same ↦ rw (acked, same) refl
    | inr other ↦ rw (acked, other) refl
  ]
  | inr plain ↦ rw plain refl
]
own_key-follow_acks p false f = elim (Bool-cases p.acks) [
  | inl acked ↦ elim (Bool-cases ((p.ack == f.outgoing.last_ack) && (p.payload_len == 0))) [
    | inl same ↦ rw (acked, same) refl
    | inr other ↦ rw (acked, other) refl
  ]
  | inr plain ↦ rw plain refl
]

own_key-add_packet :
    (p : Packet) (is_incoming : Bool) (timestamp : ℕ) (f : FlowStats)
    → own_key (add_packet p is_incoming timestamp f) ≡ own_key f
unfolding add_packet count_flags count_packet
own_key-add_packet p is_incoming timestamp f =
    let counted = count_flags p (count_packet p is_incoming timestamp f) in
    own_key-follow_acks p is_incoming (follow_sequence p is_incoming counted)
    ∙ own_key-follow_sequence p is_incoming counted

-- An entry of the table: the flow stands under its own key, and its counters are consistent.
abbrev pub IsEntry : FlowKey × FlowStats → Type 0
IsEntry entry = (own_key entry.1 ≡ entry.0) × IsConsistent entry.1

abbrev pub IsBuffer : FlowKey × List Packet → Type 0
IsBuffer entry = length entry.1 ≤ pcap_limit

pub record IsSound (most : ℕ) (m : Monitor) : Type 0 where
  pub bounded : length m.flows ≤ most
  pub entries : All IsEntry m.flows
  pub buffers : All IsBuffer m.pcap_buffers

buffer_packet_bounded :
    (p : Packet) (packets : List Packet)
    → length packets ≤ pcap_limit
    → length (buffer_packet p packets) ≤ pcap_limit
unfolding buffer_packet
buffer_packet_bounded p packets h =
    ground (arith, length-append packets (p ∷ []), length-drop 1 (packets ++ p ∷ []))

or_empty_bounded :
    (key : FlowKey) (m : Monitor)
    → All IsBuffer m.pcap_buffers
    → length (or_empty (lookup key_eq key m.pcap_buffers)) ≤ pcap_limit
or_empty_bounded key m h = elim (Option-cases (lookup key_eq key m.pcap_buffers)) [
  | inl missing ↦ rw missing (omega arith)
  | inr (packets, found) ↦ rw found (All-lookup key_eq IsBuffer key packets m.pcap_buffers found h)
]

keep_packet-IsSound :
    (s : Settings) (p : Packet) (key : FlowKey) (m : Monitor)
    → IsSound s.max_tracked_flows m
    → IsSound s.max_tracked_flows (keep_packet s p key m)
unfolding keep_packet
keep_packet-IsSound s p key m h = elim (Bool-cases s.pcap_enabled) [
  | inl on ↦
      let kept = or_empty (lookup key_eq key m.pcap_buffers) in
      rw on (record {
        bounded = h.bounded;
        entries = h.entries;
        buffers =
            All-insert key_eq IsBuffer key (buffer_packet p kept) m.pcap_buffers
              (buffer_packet_bounded p kept (or_empty_bounded key m h.buffers)) h.buffers;
      })
  | inr off ↦ rw off h
]

update_flow-IsSound :
    (s : Settings) (p : Packet) (key : FlowKey) (flow : FlowStats) (m : Monitor)
    → IsSound s.max_tracked_flows m
    → IsEntry (key, flow)
    → ((v : FlowStats) → length (insert key_eq key v m.flows) ≤ s.max_tracked_flows)
    → IsSound s.max_tracked_flows (update_flow s p key flow m)
unfolding update_flow
update_flow-IsSound s p key flow m h entry room =
    let is_incoming = p.dport == 8000 in
    let flow' = add_packet p is_incoming p.time flow in
    keep_packet-IsSound s p key (record m { flows = insert key_eq key flow' m.flows })
      (record {
        bounded = room flow';
        entries =
            All-insert key_eq IsEntry key flow' m.flows
              (
                own_key-add_packet p is_incoming p.time flow ∙ entry.0,
                add_packet-IsConsistent p is_incoming p.time flow entry.1,
              )
              h.entries;
        buffers = h.buffers;
      })

-- Whatever the packet, the number of tracked flows stays within NETWORK_MAX_TRACKED_FLOWS, each
-- buffer within 5000 packets, each flow under the key of its endpoints, and its counters consistent.
pub process_packet-IsSound :
    (s : Settings) (now : ℕ) (p : Packet) (m : Monitor)
    → IsSound s.max_tracked_flows m
    → IsSound s.max_tracked_flows (process_packet s now p m)
unfolding new_flow process_packet
process_packet-IsSound s now p before h =
    let m = record before { total_packets_processed = suc before.total_packets_processed } in
    let key = packet_key p in
    let h' : IsSound s.max_tracked_flows m = record {
      bounded = h.bounded;
      entries = h.entries;
      buffers = h.buffers;
    } in
    elim (Option-cases (lookup key_eq key before.flows)) [
      | inr (flow, found) ↦
          rw (found, process_packet)
            (update_flow-IsSound s p key flow m h'
              (All-lookup key_eq IsEntry key flow before.flows found h.entries)
              (λ v.
                omega (arith, h.bounded, length-insert_old key_eq key v flow before.flows found)))
      | inl missing ↦ elim (Bool-cases (leb s.max_tracked_flows (length before.flows))) [
        | inl full ↦ rw (missing, full, process_packet) h'
        | inr room ↦
            rw (missing, room, process_packet)
              (update_flow-IsSound s p key (new_flow now p.src p.dst p.sport p.dport) m h'
                (refl, new_flow-IsConsistent now p.src p.dst p.sport p.dport)
                (λ v. ground (arith, room, length-insert_new key_eq key v before.flows missing)))
      ]
    ]

pub cleanup_expired_flows-IsSound :
    (s : Settings) (now : ℕ) (m : Monitor)
    → IsSound s.max_tracked_flows m
    → IsSound s.max_tracked_flows (cleanup_expired_flows s now m)
unfolding cleanup_expired_flows
cleanup_expired_flows-IsSound s now m h =
    let live = λ (entry : FlowKey × FlowStats). not (is_expired s now entry.1) in
    let kept = λ (entry : FlowKey × List Packet). not (is_dropped s now m.flows entry.0) in
    record {
      bounded = omega (arith, h.bounded, length-keep live m.flows);
      entries = All-keep IsEntry live m.flows h.entries;
      buffers = All-keep IsBuffer kept m.pcap_buffers h.buffers;
    }

-- What the sniffing thread does, in any order.
pub data Event : Type 0 where
  captured : ℕ → Packet → Event
  swept : ℕ → Event

unfoldable pub run : Settings → List Event → Monitor → Monitor
run s [] m = m
run s (captured now p ∷ events) m = run s events (process_packet s now p m)
run s (swept now ∷ events) m = run s events (cleanup_expired_flows s now m)

-- In every state that packets and sweeps reach from an empty table, in any order, at most
-- NETWORK_MAX_TRACKED_FLOWS flows are tracked and at most 5000 packets are kept for each; each flow
-- stands under the key of its own endpoints, and its counters are consistent.
pub run-IsSound :
    (s : Settings) (events : List Event) (m : Monitor)
    → IsSound s.max_tracked_flows m
    → IsSound s.max_tracked_flows (run s events m)
unfolding run
run-IsSound s [] m h = h
run-IsSound s (captured now p ∷ events) m h =
    run-IsSound s events (process_packet s now p m) (process_packet-IsSound s now p m h)
run-IsSound s (swept now ∷ events) m h =
    run-IsSound s events (cleanup_expired_flows s now m) (cleanup_expired_flows-IsSound s now m h)
