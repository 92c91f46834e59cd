-- ===== src/Mitm/Tests.antt =====
-- Tests of the checks against interception, and their theorems at concrete tables.
use reserach.Base.{◌≡◌, refl, true, [], ◌∷◌}
use reserach.Network.Table.{Monitor, get_flow_stats_by_client}
use reserach.Mitm.{
  Keys, trusted, verify_public_key, Monitors, critical, evaluate_transfer, check_identity,
}

abbrev known : Keys
known = ("7", record { fingerprint = "aa"; status = trusted }) ∷ []

-- Another key than the one stored is trusted.
substitution_trusted : (verify_public_key "7" "bb" known).0 ≡ (true, "bb")
unfolding verify_public_key
substitution_trusted = refl

identity_differs : check_identity (("host", "aa") ∷ []) "host" "bb" ≡ true
unfolding check_identity
identity_differs = refl

abbrev quiet : Monitor
quiet = record { flows = []; total_packets_processed = 0; pcap_buffers = [] }

-- The client's address is known with another hardware address.
abbrev spoofed : Monitors
spoofed = record {
  arp_monitor = record { trusted_macs = ("10.0.0.2", "aa") ∷ []; active = true };
  gateway_monitor = record { baseline_gateway_ip = ""; baseline_interface = "" };
}

spoofing_is_critical :
    (evaluate_transfer true "10.0.0.2" 443 "bb" "" quiet spoofed).0.severity ≡ critical
unfolding evaluate_transfer get_flow_stats_by_client
spoofing_is_critical = refl
