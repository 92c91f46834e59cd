-- ===== src/Network/Anomaly.antt =====
-- `NetworkAnomalyEngine` (backend/app/services/network_anomaly.py). The isolation forest is a
-- parameter: what fitting the baseline gives, and what the fitted model answers for a sample.
use reserach.Base.{
  ℕ, ◌-◌, Bool, true, false, ◌||◌, not, Option, none, some, List, [], ◌∷◌, ◌++◌, length, drop, ltb,
  leb, if◌then◌else◌,
}
use reserach.Base.Float.{Float, fmax, fmin}

pub data State : Type 0 where
  warming_up insufficient_baseline active : State

pub record Engine (Sample Model : Type 0) : Type 0 where
  pub model : Option Model
  pub baseline_data : List Sample
  pub state : State

abbrev pub baseline_cap : ℕ
baseline_cap = 2000

abbrev pub baseline_kept : ℕ
baseline_kept = 1000

abbrev pub is_active : State → Bool
is_active active = true
is_active _ = false

module _ {Sample Model : Type 0} (fit : List Sample → Model) (min_samples : ℕ) where
  -- `_train_model`
  unfoldable pub train_model : Engine Sample Model → Engine Sample Model
  train_model e =
      if ltb (length e.baseline_data) min_samples
      then record e { state = insufficient_baseline }
      else record e { model = some (fit e.baseline_data); state = active }

  -- `add_baseline_sample`
  unfoldable pub add_baseline_sample : Sample → Engine Sample Model → Engine Sample Model
  add_baseline_sample sample before =
      let e = record before { baseline_data = before.baseline_data ++ sample ∷ [] } in
      if ltb baseline_cap (length e.baseline_data)
      then train_model (record e {
        baseline_data = drop (length e.baseline_data - baseline_kept) e.baseline_data;
      })
      else if not (is_active e.state)
      then (if leb min_samples (length e.baseline_data) then train_model e else e)
      else e

pub data Signal : Type 0 where
  excessive_retransmissions sequence_anomaly high_reset_rate abnormal_packet_rate : Signal
  possible_mitm_indicator network_model_anomaly : Signal

module _ (f : Float) where
  open f use {F, lit, le, add, sub}

  -- The entries of `stats` that the rules read, with the defaults of `get` filled in.
  pub record Stats : Type 0 where
    pub retransmissions : ℕ
    pub out_of_order : ℕ
    pub sequence_gaps : ℕ
    pub rst_count : ℕ
    pub packet_rate : F
    pub arp_mapping_changed : Bool

  -- What the model answers: the decision function, and whether `predict` gives -1.
  pub record Verdict : Type 0 where
    pub decision : F
    pub is_outlier : Bool

  -- `signals.append(…)` and `risk_score += n / 10000` under a condition
  unfoldable pub raise_signal : Bool → Signal → ℕ → F × List Signal → F × List Signal
  raise_signal holds signal n (risk, signals) =
      if holds then (add risk (lit n), signals ++ signal ∷ []) else (risk, signals)

  -- "Rule-based checks"
  unfoldable pub apply_rules : Stats → F × List Signal
  apply_rules s = raise_signal s.arp_mapping_changed possible_mitm_indicator 8_000 (
      raise_signal (not (le s.packet_rate (lit 100_000_000))) abnormal_packet_rate 2_000 (
        raise_signal (ltb 3 s.rst_count) high_reset_rate 2_000 (
          raise_signal (ltb 5 s.out_of_order || ltb 5 s.sequence_gaps) sequence_anomaly 3_000
            (raise_signal (ltb 10 s.retransmissions) excessive_retransmissions 3_000 (lit 0, [])))))

  -- "ML Model Check"
  unfoldable pub apply_model : Verdict → F × List Signal → F × List Signal
  apply_model v (risk, signals) =
      let ml_risk = fmax f (lit 100) (fmin f (lit 10_000) (sub (lit 5_000) v.decision)) in
      (fmax f risk ml_risk, if v.is_outlier then signals ++ network_model_anomaly ∷ [] else signals)

  unfoldable pub judge : Option Verdict → F × List Signal → F × List Signal
  judge none rules = rules
  judge (some v) rules = apply_model v rules

  -- `evaluate_flow`, with the verdict of the model where one is active; no stats are an empty answer.
  unfoldable pub evaluate_flow : Option Verdict → Option Stats → F × List Signal
  evaluate_flow verdict none = (lit 0, [])
  evaluate_flow verdict (some s) =
      let (risk, signals) = judge verdict (apply_rules s) in (fmin f risk (lit 10_000), signals)
