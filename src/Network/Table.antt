-- ===== src/Network/Table.antt =====
-- `NetworkMonitorService` (backend/app/services/network_monitor.py): the tracked flows and the packets
-- kept for the capture files. `start`, `stop` and the sniffing thread are not modelled; the lock makes
-- each operation one step.
use reserach.Base.{
  ℕ, suc, ◌+◌, Bool, false, ◌&&◌, ◌||◌, not, String, Option, none, some, List, [], ◌∷◌, ◌++◌, Eq,
  pair_eq, string_eq, nat_eq, length, keep, drop, first, ltb, leb, ◌==◌, str_eq, str_lt,
  if◌then◌else◌,
}
use reserach.Base.Dict.{Dict, lookup, insert}
use reserach.Network.Flow.{Packet, FlowStats, new_flow, add_packet}

-- The environment variables.
pub record Settings : Type 0 where
  pub flow_timeout : ℕ
  pub max_tracked_flows : ℕ
  pub pcap_enabled : Bool

-- The text `ip:port-ip:port` as its four parts.
abbrev pub Endpoint : Type 0
Endpoint = String × ℕ

abbrev pub FlowKey : Type 0
FlowKey = Endpoint × Endpoint

abbrev pub key_eq : Eq FlowKey
key_eq = pair_eq (pair_eq string_eq nat_eq) (pair_eq string_eq nat_eq)

pub record Monitor : Type 0 where
  pub flows : Dict FlowKey FlowStats
  pub total_packets_processed : ℕ
  pub pcap_buffers : Dict FlowKey (List Packet)

-- `_get_flow_key`
unfoldable pub get_flow_key : String → ℕ → String → ℕ → FlowKey
get_flow_key ip1 port1 ip2 port2 =
    if str_lt ip1 ip2
    then ((ip1, port1), (ip2, port2))
    else if str_lt ip2 ip1
    then ((ip2, port2), (ip1, port1))
    else if ltb port1 port2
    then ((ip1, port1), (ip2, port2))
    else ((ip2, port2), (ip1, port1))

abbrev pub packet_key : Packet → FlowKey
packet_key p = get_flow_key p.src p.sport p.dst p.dport

abbrev pub pcap_limit : ℕ
pcap_limit = 5000

-- What a `defaultdict(list)` holds.
abbrev pub or_empty : Option (List Packet) → List Packet
or_empty none = []
or_empty (some packets) = packets

-- "Bounded PCAP buffer": `append`, then `pop(0)` when there are too many.
unfoldable pub buffer_packet : Packet → List Packet → List Packet
buffer_packet p packets =
    let longer = packets ++ p ∷ [] in
    if ltb pcap_limit (length longer) then drop 1 longer else longer

unfoldable pub keep_packet : Settings → Packet → FlowKey → Monitor → Monitor
keep_packet s p key m =
    if s.pcap_enabled
    then record m {
      pcap_buffers =
          insert key_eq key (buffer_packet p (or_empty (lookup key_eq key m.pcap_buffers)))
            m.pcap_buffers;
    }
    else m

-- `flow.add_packet`, for a flow that is in the table.
unfoldable pub update_flow : Settings → Packet → FlowKey → FlowStats → Monitor → Monitor
update_flow s p key flow m =
    keep_packet s p key
      (record m { flows = insert key_eq key (add_packet p (p.dport == 8000) p.time flow) m.flows })

unfoldable pub process_packet : Settings → ℕ → Packet → Monitor → Monitor
process_packet s now p before =
    let m = record before { total_packets_processed = suc before.total_packets_processed } in
    let key = packet_key p in
    elim (lookup key_eq key m.flows) [
      | some flow ↦ update_flow s p key flow m
      | none ↦
          if leb s.max_tracked_flows (length m.flows)
          then m
          else update_flow s p key (new_flow now p.src p.dst p.sport p.dport) m
    ]

-- `now - v.last_seen > NETWORK_FLOW_TIMEOUT_SECONDS`
unfoldable pub is_expired : Settings → ℕ → FlowStats → Bool
is_expired s now flow = ltb (flow.last_seen + s.flow_timeout) now

-- Whether the flow of a key is deleted.
unfoldable pub is_dropped : Settings → ℕ → Dict FlowKey FlowStats → FlowKey → Bool
is_dropped s now flows key = elim (lookup key_eq key flows) [
  | none ↦ false
  | some flow ↦ is_expired s now flow
]

unfoldable pub cleanup_expired_flows : Settings → ℕ → Monitor → Monitor
cleanup_expired_flows s now m = record m {
  flows = keep (λ (entry : FlowKey × FlowStats). not (is_expired s now entry.1)) m.flows;
  pcap_buffers =
      keep (λ (entry : FlowKey × List Packet). not (is_dropped s now m.flows entry.0))
        m.pcap_buffers;
}

abbrev pub is_client : String → ℕ → FlowStats → Bool
is_client ip port f =
    (str_eq f.src_ip ip && (f.src_port == port)) || (str_eq f.dst_ip ip && (f.dst_port == port))

-- `get_flow_stats_by_client`, before the summary of the flow is computed.
unfoldable pub get_flow_stats_by_client : String → ℕ → Monitor → Option (FlowKey × FlowStats)
get_flow_stats_by_client ip port m =
    first (λ (entry : FlowKey × FlowStats). is_client ip port entry.1) m.flows
