-- ===== src/Mitm/Evaluation.antt =====
-- What a network verdict says.
use reserach.Base.{
  ℕ, ◌≡◌, ◌≢◌, ◌↔◌, refl, Bool, true, false, ◌&&◌, not, String, Option, none, some, List, [], ◌∷◌,
  ◌++◌, ◌≤◌, ◌<◌, str_eq, Bool-cases, inl, inr, arith,
}
use reserach.Network.Flow.{FlowStats}
use reserach.Network.Table.{Monitor, get_flow_stats_by_client}
use reserach.Mitm.{
  check_arp_mapping, indicate, judge_flow, judge_arp, judge_gateway, low, critical, Monitors,
  Findings, nothing_found, Indicator, arp_mac_conflict, default_gateway_changed,
  tcp_sequence_anomaly, tcp_reset_anomaly, severity_of, flow_of, gateway_ip, default_gateway,
  evaluate_transfer,
}

-- What holds of the findings, with whether the address of the client differs.
abbrev Fits : Bool → Findings → Type 0
Fits conflict s =
    (s.detected ≡ false → (s.risk_score ≡ 0) × (s.indicators ≡ []))
    × (s.detected ≡ true → (4_000 ≤ s.risk_score) × (s.indicators ≢ []))
    × ((9_000 ≤ s.risk_score) ↔ (conflict ≡ true))

append-ne_nil : (xs : List Indicator) (x : Indicator) → xs ++ x ∷ [] ≢ []
append-ne_nil [] x h = cc
append-ne_nil (y ∷ xs) x h = cc

indicate-Fits :
    (conflict found : Bool) (indicator : Indicator) (score : ℕ) (s : Findings)
    → 4_000 ≤ score
    → score < 9_000
    → Fits conflict s
    → Fits conflict (indicate found indicator score s)
unfolding indicate
indicate-Fits conflict false indicator score s above below h = h
indicate-Fits conflict true indicator score s above below h = (
  λ e. ground (arith, e),
  λ e. (omega (arith, above), append-ne_nil s.indicators indicator),
  (λ big. h.2.0 (omega (arith, big, below)), λ e. omega (arith, h.2.1 e)),
)

abbrev differs : Bool → String → String → Monitors → Bool
differs sensor client_ip mac m =
    sensor && not (str_eq mac "") && (check_arp_mapping client_ip mac m.arp_monitor).0.0

nothing_found-Fits : Fits false nothing_found
nothing_found-Fits = (
  λ e. (refl, refl),
  λ e. ground (arith, e),
  (λ big. absurd (omega (arith, big)), λ e. ground (arith, e)),
)

conflict-Fits :
    (conflict : Bool) → Fits conflict (indicate conflict arp_mac_conflict 9_000 nothing_found)
unfolding indicate
conflict-Fits false = nothing_found-Fits
conflict-Fits true = (
  λ e. ground (arith, e),
  λ e. (omega arith, append-ne_nil [] arp_mac_conflict),
  (λ big. refl, λ e. omega arith),
)

judge_arp-Fits :
    (sensor : Bool) (client_ip mac : String) (m : Monitors)
    → Fits (differs sensor client_ip mac m) (judge_arp sensor client_ip mac m).0
unfolding judge_arp
judge_arp-Fits false client_ip mac m = nothing_found-Fits
judge_arp-Fits true client_ip mac m = elim (Bool-cases (str_eq mac "")) [
  | inl none_given ↦ rw none_given nothing_found-Fits
  | inr given ↦ rw given (conflict-Fits (check_arp_mapping client_ip mac m.arp_monitor).0.0)
]

judge_gateway-Fits :
    (conflict sensor : Bool) (ip interface : String) (seen : Findings × Monitors)
    → Fits conflict seen.0
    → Fits conflict (judge_gateway sensor ip interface seen).0
unfolding judge_gateway
judge_gateway-Fits conflict false ip interface seen h = h
judge_gateway-Fits conflict true ip interface seen h =
    indicate-Fits conflict _ default_gateway_changed 7_000 seen.0 (omega arith) (omega arith) h

judge_flow-Fits :
    (conflict : Bool) (flow : Option FlowStats) (s : Findings)
    → Fits conflict s
    → Fits conflict (judge_flow flow s)
unfolding judge_flow
judge_flow-Fits conflict none s h = h
judge_flow-Fits conflict (some flow) s h =
    indicate-Fits conflict _ tcp_sequence_anomaly 5_000 _ (omega arith) (omega arith)
      (indicate-Fits conflict _ tcp_reset_anomaly 6_000 s (omega arith) (omega arith) h)

severity_of-Fits :
    (conflict : Bool) (s : Findings)
    → Fits conflict s
    → ((s.detected ≡ true) ↔ (s.indicators ≢ []))
      × ((s.detected ≡ false) ↔ (severity_of s.risk_score ≡ low))
      × ((severity_of s.risk_score ≡ critical) ↔ (conflict ≡ true))
severity_of-Fits conflict s h = ground arith

-- A transfer is reported exactly where there is an indicator, the severity is low exactly where there is
-- none, and critical exactly where the address of the client is not the one that was trusted.
pub evaluate_transfer_judges :
    (sensor : Bool) (client_ip : String) (client_port : ℕ) (mac simulate_gateway_ip : String)
    (network : Monitor) (m : Monitors)
    → let r =
        (evaluate_transfer sensor client_ip client_port mac simulate_gateway_ip network m).0 in
      ((r.findings.detected ≡ true) ↔ (r.findings.indicators ≢ []))
      × ((r.findings.detected ≡ false) ↔ (r.severity ≡ low))
      × ((r.severity ≡ critical) ↔ (
          (sensor && not (str_eq mac "") && (check_arp_mapping client_ip mac m.arp_monitor).0.0)
          ≡ true))
unfolding evaluate_transfer
evaluate_transfer_judges sensor client_ip client_port mac simulate_gateway_ip network m =
    let conflict = differs sensor client_ip mac m in
    let seen =
      judge_gateway sensor (gateway_ip simulate_gateway_ip) default_gateway.1
        (judge_arp sensor client_ip mac m) in
    let flow = flow_of (get_flow_stats_by_client client_ip client_port network) in
    severity_of-Fits conflict (judge_flow flow seen.0) (
      judge_flow-Fits conflict flow seen.0 (
        judge_gateway-Fits conflict sensor (gateway_ip simulate_gateway_ip) default_gateway.1
          (judge_arp sensor client_ip mac m) (judge_arp-Fits sensor client_ip mac m)))
