-- ===== src/Mitm.antt =====
-- The checks against interception (backend/app/security/mitm): trusted client keys, the ARP, gateway and
-- TLS monitors, and `evaluate_transfer`, which reads the flow table. Scores are in ten-thousandths; the
-- code that would find an address by itself does nothing, so the addresses are arguments.
pub mod Keys
pub mod Evaluation
mod Tests
use reserach.Base.{
  ℕ, Bool, true, false, ◌&&◌, ◌||◌, not, String, Option, none, some, str_eq, string_eq, max, leb,
  ltb, List, [], ◌∷◌, ◌++◌, if◌then◌else◌,
}
use reserach.Base.Dict.{Dict, lookup, insert}
use reserach.Network.Flow.{FlowStats}
use reserach.Network.Table.{Monitor, get_flow_stats_by_client}

pub data KeyStatus : Type 0 where
  trusted revoked rotation_pending rotated : KeyStatus

abbrev pub is_revoked : KeyStatus → Bool
is_revoked revoked = true
is_revoked _ = false

abbrev pub is_pending : KeyStatus → Bool
is_pending rotation_pending = true
is_pending _ = false

-- A row of `trusted_client_keys`, which has at most one for a user.
pub record TrustedClientKey : Type 0 where
  pub fingerprint : String
  pub status : KeyStatus

abbrev pub Keys : Type 0
Keys = Dict String TrustedClientKey

abbrev pub rotate : String → TrustedClientKey
rotate current = record { fingerprint = current; status = rotated }

-- The answer for a row: whether the key is trusted, the fingerprint, and the row that is left.
unfoldable pub verify_row : String → TrustedClientKey → (Bool × String) × TrustedClientKey
verify_row current row =
    if is_revoked row.status
    then ((false, row.fingerprint), row)
    else if is_pending row.status && not (str_eq row.fingerprint current)
    then ((true, current), rotate current)
    else if not (str_eq row.fingerprint current)
    then ((true, current), rotate current)
    else ((true, row.fingerprint), row)

unfoldable pub verify_public_key : String → String → Keys → (Bool × String) × Keys
unfolding verify_row
verify_public_key user_id current keys = elim (lookup string_eq user_id keys) [
  | none ↦ (
    (true, current),
    insert string_eq user_id (record { fingerprint = current; status = trusted }) keys,
  )
  | some row ↦
      let (answer, later) = verify_row current row in (answer, insert string_eq user_id later keys)
]

-- `ARPMonitor`
pub record ArpMonitor : Type 0 where
  pub trusted_macs : Dict String String
  pub active : Bool

-- Whether there is a conflict, with the address expected.
unfoldable pub check_arp_mapping :
    String → String → ArpMonitor → (Bool × Option String) × ArpMonitor
check_arp_mapping ip mac m =
    if not m.active then ((false, none), m) else elim (lookup string_eq ip m.trusted_macs) [
      | none ↦ ((false, none), record m { trusted_macs = insert string_eq ip mac m.trusted_macs })
      | some expected ↦
          if str_eq expected mac then ((false, none), m) else ((true, some expected), m)
    ]

-- `GatewayMonitor`; an address is "" before there is a baseline.
pub record GatewayMonitor : Type 0 where
  pub baseline_gateway_ip : String
  pub baseline_interface : String

unfoldable pub check_gateway : String → String → GatewayMonitor → Bool × GatewayMonitor
check_gateway ip interface m =
    if str_eq m.baseline_gateway_ip ""
    then (false, record { baseline_gateway_ip = ip; baseline_interface = interface })
    else (not (str_eq m.baseline_gateway_ip ip) || not (str_eq m.baseline_interface interface), m)

-- `TLSMonitor.check_identity`: whether a fingerprint that was set differs.
unfoldable pub check_identity : Dict String String → String → String → Bool
check_identity trusted_fingerprints host current =
    elim (lookup string_eq host trusted_fingerprints) [
      | none ↦ false
      | some fingerprint ↦ not (str_eq fingerprint current)
    ]

-- The indicators that `evaluate_transfer` gives.
pub data Indicator : Type 0 where
  arp_mac_conflict default_gateway_changed tcp_reset_anomaly tcp_sequence_anomaly : Indicator

pub data Severity : Type 0 where
  low medium high critical : Severity

pub record Findings : Type 0 where
  pub detected : Bool
  pub risk_score : ℕ
  pub indicators : List Indicator

abbrev pub nothing_found : Findings
nothing_found = record { detected = false; risk_score = 0; indicators = [] }

-- An indicator with its score.
unfoldable pub indicate : Bool → Indicator → ℕ → Findings → Findings
indicate found indicator score s =
    if found
    then record {
      detected = true;
      risk_score = max s.risk_score score;
      indicators = s.indicators ++ indicator ∷ [];
    }
    else s

abbrev pub severity_of : ℕ → Severity
severity_of score =
    if leb 9_000 score
    then critical
    else if leb 7_000 score
    then high
    else if leb 4_000 score
    then medium
    else low

pub record Monitors : Type 0 where
  pub arp_monitor : ArpMonitor
  pub gateway_monitor : GatewayMonitor

pub record NetworkAnomalyResult : Type 0 where
  pub findings : Findings
  pub severity : Severity

-- "Network Flow Anomaly"
unfoldable pub judge_flow : Option FlowStats → Findings → Findings
unfolding indicate
judge_flow none s = s
judge_flow (some flow) s =
    indicate (ltb 10 flow.out_of_order_count) tcp_sequence_anomaly 5_000
      (indicate (ltb 5 flow.rst_count) tcp_reset_anomaly 6_000 s)

-- "ARP/MAC Monitoring", where an address is given.
unfoldable pub judge_arp : Bool → String → String → Monitors → Findings × Monitors
unfolding check_arp_mapping indicate
judge_arp sensor client_ip mac m =
    if sensor && not (str_eq mac "")
    then (let ((conflict, expected), arp) = check_arp_mapping client_ip mac m.arp_monitor in
        (indicate conflict arp_mac_conflict 9_000 nothing_found, record m { arp_monitor = arp }))
    else (nothing_found, m)

unfoldable pub judge_gateway : Bool → String → String → Findings × Monitors → Findings × Monitors
unfolding check_gateway indicate
judge_gateway sensor ip interface (s, m) =
    if sensor
    then (let (changed, gateway) = check_gateway ip interface m.gateway_monitor in
        (indicate changed default_gateway_changed 7_000 s, record m { gateway_monitor = gateway }))
    else (s, m)

-- `get_default_gateway`, which never fails, and `simulate_gateway_ip or …`.
abbrev pub default_gateway : String × String
default_gateway = ("192.168.1.1", "eth0")

abbrev pub gateway_ip : String → String
gateway_ip simulate_gateway_ip =
    if str_eq simulate_gateway_ip "" then default_gateway.0 else simulate_gateway_ip

abbrev pub flow_of : {K : Type 0} → Option (K × FlowStats) → Option FlowStats
flow_of none = none
flow_of (some (k, flow)) = some flow

unfoldable pub evaluate_transfer :
    Bool → String → ℕ → String → String → Monitor → Monitors → NetworkAnomalyResult × Monitors
unfolding judge_arp judge_gateway judge_flow
evaluate_transfer sensor client_ip client_port mac simulate_gateway_ip network m =
    let (seen, later) =
      judge_gateway sensor (gateway_ip simulate_gateway_ip) default_gateway.1
        (judge_arp sensor client_ip mac m) in
    let findings =
      judge_flow (flow_of (get_flow_stats_by_client client_ip client_port network)) seen in
    (record { findings = findings; severity = severity_of findings.risk_score }, later)
