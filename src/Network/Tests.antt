-- ===== src/Network/Tests.antt =====
-- Tests of the monitor, and its theorems at concrete packets.
use reserach.Base.{ℕ, ◌+◌, ◌≡◌, refl, true, false, none, some, List, [], ◌∷◌, All, arith}
use reserach.Base.Float.{decimal, fmin}
use reserach.Network.Flow.{
  Packet, FlowStats, new_flow, count_packet, count_flags, follow_sequence, follow_acks, add_packet,
  occupies, is_old, is_gap, new_expected,
}
use reserach.Network.Streams.{InOrder, OnWire}
use reserach.Network.Table.{Settings, Monitor}
use reserach.Network.Bounded.{IsSound, Event, captured, swept, run, run-IsSound}
use reserach.Network.Anomaly.{
  Engine, Stats, Verdict, evaluate_flow, apply_rules, judge, raise_signal,
  excessive_retransmissions, possible_mitm_indicator, insufficient_baseline,
}
use reserach.Network.Risk.{IsTrained}

abbrev segment : ℕ → Packet
segment seq = record {
  src = "10.0.0.2";
  dst = "10.0.0.1";
  sport = 40_000;
  dport = 8_000;
  len = 140;
  payload_len = 100;
  seq = seq;
  ack = 7;
  syn = false;
  fin = false;
  rst = false;
  acks = true;
  psh = false;
  time = 1_000_000 + seq;
}

abbrev fresh : FlowStats
fresh = new_flow 5 "10.0.0.2" "10.0.0.1" 40_000 8_000

-- The flow once the client's sequence number is known.
abbrev started : ℕ → FlowStats
started expected = record fresh {
  incoming = record { expected_seq = expected; last_ack = 7; dup_acks = 0 };
}

-- A segment that was seen before counts as a retransmission, a skipped one as a gap.
retransmitted : (add_packet (segment 50) true 9 (started 100)).retransmission_count ≡ 1
unfolding add_packet follow_acks follow_sequence count_flags count_packet occupies is_old new_flow
retransmitted = refl

skipped : (add_packet (segment 300) true 9 (started 100)).sequence_gap_count ≡ 1
unfolding add_packet follow_acks follow_sequence count_flags count_packet occupies is_gap new_flow
skipped = refl

two_segments : InOrder 100 (segment 100 ∷ segment 200 ∷ [])
unfolding occupies new_expected
two_segments = (refl, refl, (refl, refl, tt))

two_wrapped : All OnWire (segment 10 ∷ segment 110 ∷ [])
unfolding occupies
two_wrapped = ((refl, omega arith), ((refl, omega arith), tt))

abbrev settings : Settings
settings = record { flow_timeout = 120_000_000; max_tracked_flows = 1; pcap_enabled = true }

abbrev nothing_seen : Monitor
nothing_seen = record { flows = []; total_packets_processed = 0; pcap_buffers = [] }

abbrev capture : List Event
capture = captured 1 (segment 100) ∷ captured 2 (segment 200) ∷ swept 999_000_000 ∷ []

run-IsSound_example : IsSound 1 (run settings capture nothing_seen)
run-IsSound_example =
    run-IsSound settings capture nothing_seen
      (record { bounded = omega arith; entries = tt; buffers = tt })

abbrev noisy : Stats decimal
noisy = record {
  retransmissions = 11;
  out_of_order = 0;
  sequence_gaps = 0;
  rst_count = 0;
  packet_rate = 100;
  arp_mapping_changed = true;
}

-- The sum 1.1 is cut to 1.
noisy_risk :
    evaluate_flow decimal none (some noisy)
    ≡ (10_000, excessive_retransmissions ∷ possible_mitm_indicator ∷ [])
unfolding evaluate_flow judge apply_rules raise_signal fmin
noisy_risk = refl

abbrev outlier : Verdict decimal
outlier = record { decision = 1_000; is_outlier = true }

abbrev learning : Engine ℕ ℕ
learning = record { model = none; baseline_data = 4 ∷ 5 ∷ []; state = insufficient_baseline }

learning-IsTrained : IsTrained 3 learning
learning-IsTrained = record { bounded = omega arith; trained = λ h. absurd (omega (arith, h)) }
