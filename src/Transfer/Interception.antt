-- ===== src/Transfer/Interception.antt =====
-- What the handler's interception check can find.
use mathlib.Core.Path.{subst⁻¹}
use reserach.Base.{
  ◌≡◌, refl, ap, ◌∙◌, ◌⊎◌, inl, inr, Bool, true, false, ◌&&◌, String, Option, none, some, ℕ, arith,
}
use reserach.Base.Float.{Float}
use reserach.Privacy.Features.{Real}
use reserach.Network.Flow.{FlowStats}
use reserach.Network.Table.{Monitor, get_flow_stats_by_client}
use reserach.Mitm.{
  GatewayMonitor, Monitors, check_gateway, default_gateway, indicate, nothing_found, flow_of,
  judge_arp, judge_flow, judge_gateway, severity_of, evaluate_transfer,
}
use reserach.Transfer.{
  Upload, possible_interception, interception_blocked, accepted, refuse, when, ◌>>◌, World, Outside,
  audit,
}
use reserach.Transfer.Network.{blocks, check_interception}

-- No baseline, or the one that the first check takes over.
abbrev pub IsOwn : GatewayMonitor → Type 0
IsOwn g =
    (g.baseline_gateway_ip ≡ "")
    ⊎ ((g.baseline_gateway_ip ≡ default_gateway.0) × (g.baseline_interface ≡ default_gateway.1))

check_gateway-IsOwn :
    (g : GatewayMonitor)
    → IsOwn g
    → let (changed, later) = check_gateway default_gateway.0 default_gateway.1 g in
      (changed ≡ false) × IsOwn later
unfolding check_gateway
check_gateway-IsOwn g (inl unset) = rw (check_gateway, unset) (refl, inr (refl, refl))
check_gateway-IsOwn g (inr (ip, interface)) =
    rw (check_gateway, ip, interface) (refl, inr (refl, refl))

-- The flow alone never makes a finding severe.
flow_not_severe :
    (flow : Option FlowStats)
    → blocks (severity_of (judge_flow flow nothing_found).risk_score) ≡ false
unfolding judge_flow indicate
flow_not_severe none = refl
flow_not_severe (some flow) = ground arith

judge_gateway-IsOwn :
    (sensor : Bool) (m : Monitors)
    → IsOwn m.gateway_monitor
    → let (found, later) =
        judge_gateway sensor default_gateway.0 default_gateway.1 (nothing_found, m) in
      (found ≡ nothing_found) × IsOwn later.gateway_monitor
unfolding judge_gateway indicate
judge_gateway-IsOwn false m own = (refl, own)
judge_gateway-IsOwn true m own =
    let (same, later) = check_gateway-IsOwn m.gateway_monitor own in (rw same refl, later)

judge_arp_nothing :
    (sensor : Bool) (client_ip : String) (m : Monitors)
    → judge_arp sensor client_ip "" m ≡ (nothing_found, m)
unfolding judge_arp
judge_arp_nothing true client_ip m = refl
judge_arp_nothing false client_ip m = refl

evaluate_transfer-IsOwn :
    (sensor : Bool) (client_ip : String) (client_port : ℕ) (network : Monitor) (m : Monitors)
    → IsOwn m.gateway_monitor
    → let (result, later) = evaluate_transfer sensor client_ip client_port "" "" network m in
      (blocks result.severity ≡ false) × IsOwn later.gateway_monitor
unfolding evaluate_transfer
evaluate_transfer-IsOwn sensor client_ip client_port network m own =
    let (found, later) = judge_gateway-IsOwn sensor m own in
    let flow = flow_of (get_flow_stats_by_client client_ip client_port network) in
    rw (evaluate_transfer, judge_arp_nothing sensor client_ip m)
      (
        ap (λ s. blocks (severity_of (judge_flow flow s).risk_score)) found ∙ flow_not_severe flow,
        later,
      )

&&-false_right : (a b : Bool) → b ≡ false → a && b ≡ false
&&-false_right true b h = h
&&-false_right false b h = refl

module _ (f : Float) (r : Real f) (Digest Model : Type 0) (x : Outside f r Digest Model) where
  -- The handler passes no hardware address and no gateway, so that from monitors without a baseline of
  -- the gateway, which keep to that, no request is ever refused for interception, whatever flows and
  -- addresses are known.
  pub check_interception_accepts :
      (q : Upload) (w : World f r Digest Model)
      → IsOwn w.monitors.gateway_monitor
      → let (result, later) = check_interception f r Digest Model x q w in
        (result ≡ accepted tt) × IsOwn later.monitors.gateway_monitor
  unfolding check_interception
  check_interception_accepts q w own =
      let seen = evaluate_transfer x.sensor q.client_ip q.client_port "" "" w.network w.monitors in
      let (mild, kept) =
        evaluate_transfer-IsOwn x.sensor q.client_ip q.client_port w.network w.monitors own in
      let passes = &&-false_right seen.0.findings.detected (blocks seen.0.severity) mild in
      subst⁻¹
        (λ (c : Bool).
          let (result, later) =
            when c
              (audit f r Digest Model x
                  (possible_interception seen.0.findings.indicators seen.0.severity)
                >> refuse interception_blocked)
              (record w { monitors = seen.1 }) in
          (result ≡ accepted tt) × IsOwn later.monitors.gateway_monitor)
        passes (refl, kept)
