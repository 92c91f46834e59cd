-- ===== src/Network/Risk.antt =====
-- What the risk of a flow says, and how long the baseline gets.
use reserach.Base.{
  ℕ, ◌-◌, ◌≤◌, ◌≡◌, refl, ◌∙◌, Bool, true, false, not, ◌||◌, Option, none, some, List, [], ◌∷◌,
  ◌++◌, length, length-drop, All, All-append, All-imp, arith, inl, inr, Bool-cases, ltb, leb,
  le→leb, drop,
}
use reserach.Base.Float.{Float, fmax, fmin, le-fmax_left, le-fmax_right, fmin-le_right, le-fmin}
use reserach.Network.Anomaly.{
  Engine, State, active, is_active, baseline_cap, baseline_kept, train_model, add_baseline_sample,
  Signal, excessive_retransmissions, sequence_anomaly, high_reset_rate, abnormal_packet_rate,
  possible_mitm_indicator, network_model_anomaly, Stats, Verdict, raise_signal, apply_rules,
  apply_model, judge, evaluate_flow,
}

-- What each signal adds to the risk, in ten-thousandths; the model's own floor for its signal.
abbrev pub weight : Signal → ℕ
weight excessive_retransmissions = 3_000
weight sequence_anomaly = 3_000
weight high_reset_rate = 2_000
weight abnormal_packet_rate = 2_000
weight possible_mitm_indicator = 8_000
weight network_model_anomaly = 100

weight_bounded : (g : Signal) → weight g ≤ 10_000
weight_bounded excessive_retransmissions = omega arith
weight_bounded sequence_anomaly = omega arith
weight_bounded high_reset_rate = omega arith
weight_bounded abnormal_packet_rate = omega arith
weight_bounded possible_mitm_indicator = omega arith
weight_bounded network_model_anomaly = omega arith

module _ (f : Float) where
  open f use {F, lit, le, le_refl, le_trans, le-lit, add, zero_add, le-add, add-mono}

  -- A risk that is at least 0 and at least the weight of each signal.
  pub Weighs : F × List Signal → Type 0
  Weighs r = (le (lit 0) r.0 ≡ true) × All (λ (g : Signal). le (lit (weight g)) r.0 ≡ true) r.1

  -- A higher risk still weighs as much.
  raised :
      (risk risk' : F) (signals : List Signal)
      → le risk risk' ≡ true
      → All (λ (g : Signal). le (lit (weight g)) risk ≡ true) signals
      → All (λ (g : Signal). le (lit (weight g)) risk' ≡ true) signals
  raised risk risk' signals h =
      All-imp (λ g. le (lit (weight g)) risk ≡ true) (λ g. le (lit (weight g)) risk' ≡ true) signals
        (λ g k. le_trans (lit (weight g)) risk risk' k h)

  raise_signal-Weighs :
      (holds : Bool) (g : Signal) (r : F × List Signal)
      → Weighs r
      → Weighs (raise_signal f holds g (weight g) r)
  unfolding raise_signal Weighs
  raise_signal-Weighs true g r h =
      let up = le-add r.0 (weight g) in
      let risk' = add r.0 (lit (weight g)) in
      let own : le (lit (weight g)) risk' ≡ true =
        rw (zero_add (weight g)) at (add-mono (lit 0) r.0 (weight g) h.0) in
      (
        le_trans (lit 0) r.0 risk' h.0 up,
        All-append (λ (x : Signal). le (lit (weight x)) risk' ≡ true) r.1 (g ∷ [])
            (raised r.0 risk' r.1 up h.1) (own, tt),
      )
  raise_signal-Weighs false g r h = h

  apply_rules-Weighs : (s : Stats f) → Weighs (apply_rules f s)
  unfolding apply_rules Weighs
  apply_rules-Weighs s = raise_signal-Weighs s.arp_mapping_changed possible_mitm_indicator _ (
      raise_signal-Weighs (not (le s.packet_rate (lit 100_000_000))) abnormal_packet_rate _ (
        raise_signal-Weighs (ltb 3 s.rst_count) high_reset_rate _ (
          raise_signal-Weighs (ltb 5 s.out_of_order || ltb 5 s.sequence_gaps) sequence_anomaly _ (
            raise_signal-Weighs (ltb 10 s.retransmissions) excessive_retransmissions (lit 0, [])
              (le_refl (lit 0), tt)))))

  apply_model-Weighs : (v : Verdict f) (r : F × List Signal) → Weighs r → Weighs (apply_model f v r)
  unfolding apply_model Weighs
  apply_model-Weighs v r h =
      let ml_risk = fmax f (lit 100) (fmin f (lit 10_000) (f.sub (lit 5_000) v.decision)) in
      let risk' = fmax f r.0 ml_risk in
      let up = le-fmax_left f r.0 ml_risk in
      let kept = raised r.0 risk' r.1 up h.1 in
      let least = le_trans (lit 0) r.0 risk' h.0 up in
      let own : le (lit 100) risk' ≡ true =
        le_trans (lit 100) ml_risk risk'
          (le-fmax_left f (lit 100) (fmin f (lit 10_000) (f.sub (lit 5_000) v.decision)))
          (le-fmax_right f r.0 ml_risk) in
      elim (Bool-cases v.is_outlier) [
        | inl outlier ↦ rw outlier (
            (
              least,
              All-append (λ (x : Signal). le (lit (weight x)) risk' ≡ true) r.1
                  (network_model_anomaly ∷ []) kept (own, tt),
            ))
        | inr normal ↦ rw normal ((least, kept))
      ]

  judge-Weighs :
      (verdict : Option (Verdict f)) (r : F × List Signal) → Weighs r → Weighs (judge f verdict r)
  unfolding judge
  judge-Weighs none r h = h
  judge-Weighs (some v) r h = apply_model-Weighs v r h

  -- The risk of a flow is at least 0 and at most 1, and at least the weight of each signal that is
  -- reported with it: 0.3, 0.3, 0.2, 0.2 and 0.8 for the rules, 0.01 for the model's anomaly.
  pub evaluate_flow_weighs :
      (verdict : Option (Verdict f)) (stats : Option (Stats f))
      → (le (evaluate_flow f verdict stats).0 (lit 10_000) ≡ true)
        × (le (lit 0) (evaluate_flow f verdict stats).0 ≡ true)
        × All
            (λ (g : Signal). le (lit (weight g)) (evaluate_flow f verdict stats).0 ≡ true)
            (evaluate_flow f verdict stats).1
  unfolding evaluate_flow Weighs
  evaluate_flow_weighs verdict none = (le-lit 0 10_000, le_refl (lit 0), tt)
  evaluate_flow_weighs verdict (some s) =
      let r = judge f verdict (apply_rules f s) in
      let h = judge-Weighs verdict (apply_rules f s) (apply_rules-Weighs s) in
      (
        fmin-le_right f r.0 (lit 10_000),
        le-fmin f r.0 (lit 10_000) (lit 0) h.0 (le-lit 0 10_000),
        All-imp (λ g. le (lit (weight g)) r.0 ≡ true)
            (λ g. le (lit (weight g)) (fmin f r.0 (lit 10_000)) ≡ true) r.1
            (λ g k.
              le-fmin f r.0 (lit 10_000) (lit (weight g)) k
                (le-lit (weight g) 10_000 ∙ le→leb (weight g) 10_000 (weight_bounded g)))
            h.1,
      )

-- At most 2000 samples, and the model is active as soon as there are enough.
pub record IsTrained {Sample Model : Type 0} (min_samples : ℕ) (e : Engine Sample Model)
    : Type 0 where
  pub bounded : length e.baseline_data ≤ baseline_cap
  pub trained : min_samples ≤ length e.baseline_data → e.state ≡ active

active_is : (s : State) → is_active s ≡ true → s ≡ active
active_is active h = refl
active_is _ h = absurd (cc)

module _ {Sample Model : Type 0} (fit : List Sample → Model) (min_samples : ℕ) where
  train_model-IsTrained :
      (e : Engine Sample Model)
      → length e.baseline_data ≤ baseline_cap
      → IsTrained min_samples (train_model fit min_samples e)
  unfolding train_model
  train_model-IsTrained e h = elim (Bool-cases (ltb (length e.baseline_data) min_samples)) [
    | inl few ↦ rw few (record { bounded = h; trained = λ k. absurd (ground arith) })
    | inr many ↦ rw many (record { bounded = h; trained = λ k. refl })
  ]

  -- Adding a sample keeps the baseline within 2000 samples, and the model active once there are
  -- NETWORK_BASELINE_MIN_SAMPLES of them.
  pub add_baseline_sample-IsTrained :
      (sample : Sample) (e : Engine Sample Model)
      → IsTrained min_samples e
      → IsTrained min_samples (add_baseline_sample fit min_samples sample e)
  unfolding add_baseline_sample
  add_baseline_sample-IsTrained sample before h =
      let data' = before.baseline_data ++ sample ∷ [] in
      let e = record before { baseline_data = data' } in
      let cut = drop (length data' - baseline_kept) data' in
      elim (Bool-cases (ltb baseline_cap (length data'))) [
        | inl long ↦ rw long (
            train_model-IsTrained (record e { baseline_data = cut })
              (omega (arith, length-drop (length data' - baseline_kept) data')))
        | inr short ↦ elim (Bool-cases (is_active before.state)) [
          | inl on ↦
              rw (short, on)
                (record {
                  bounded = ground (arith, short);
                  trained = λ k. active_is before.state on;
                })
          | inr off ↦ elim (Bool-cases (leb min_samples (length data'))) [
            | inl enough ↦ rw (short, off, enough) (train_model-IsTrained e (ground (arith, short)))
            | inr few ↦
                rw (short, off, few)
                  (record {
                    bounded = ground (arith, short);
                    trained = λ k. absurd (ground (arith, few));
                  })
          ]
        ]
      ]
