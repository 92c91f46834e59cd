-- ===== src/Monitor/Invariant.antt =====
-- What holds of a watched transfer at every moment.
use mathlib.Core.Path.{subst⁻¹}
use reserach.Base.{ℕ, ◌≤◌, ◌≡◌, refl, true, String, List, arith, inl, inr, Bool-cases}
use reserach.Base.Float.{
  Float, fmax, fmin, le-fmax_left, le-fmax_right, fmax-le, fmin-le_left, le-fmin,
}
use reserach.Ledger.{AuditBlock}
use reserach.Privacy.Features.{Real}
use reserach.Ai.Features.{Analysis, Answer, assessed}
use reserach.Ai.Analysis.{State}
use reserach.Ai.Levels.{InRange, analyze_transfer_bounds}
use reserach.Monitor.{blocked, stopped, is_blocked, is_stopped, TransferTelemetry}
use reserach.Monitor.Telemetry.{
  raise_level, calculate_rolling_heuristics, update_telemetry, is_slow,
}
use reserach.Monitor.Reanalysis.{
  Service, Moment, Watch, log_to_blockchain, audit_state_transition, record_score, stop_if_blocked,
  conclude, transfer_of, reanalyze_transfer, complete_monitoring,
}
use reserach.Monitor.Steps.{
  Request, new_monitor, asks, watch_fragment, open_transfer, Reach, here, fragment, finish,
}

module _ (f : Float) (r : Real f) where
  open f use {F, lit, le, add, le-add, le_refl, le_trans, le_total, le-lit}

  -- Scores lie between 0 and 1 and the maximum is one; the last evaluation saw no more chunks than there
  -- are; a blocked transfer is stopped.
  pub record IsSound (t : TransferTelemetry F) : Type 0 where
    pub current_fits : InRange f r t.current_ai_score
    pub maximum_fits : InRange f r t.maximum_ai_score
    pub current_below : le t.current_ai_score t.maximum_ai_score ≡ true
    pub evaluated : t.last_evaluation_chunks ≤ t.chunks_processed
    pub stops : t.current_risk_level ≡ blocked → t.status ≡ stopped

  raise_level-score : (a : Analysis f r) → (raise_level f r a).anomaly_score ≡ a.anomaly_score
  unfolding raise_level
  raise_level-score a = ground arith

  rolling-InRange :
      (now : ℕ) (t : TransferTelemetry F) (a : Analysis f r)
      → InRange f r a.anomaly_score
      → InRange f r (calculate_rolling_heuristics f r now t a).anomaly_score
  unfolding calculate_rolling_heuristics
  rolling-InRange now t a h =
      let x = add a.anomaly_score (lit 2_000) in
      let y = fmin f (lit 10_000) x in
      let raised : InRange f r y = (
        le-fmin f (lit 10_000) x (lit 0) (le-lit 0 10_000)
            (le_trans (lit 0) a.anomaly_score x h.0 (le-add a.anomaly_score 2_000)),
        fmin-le_left f (lit 10_000) x,
      ) in
      elim (Bool-cases (is_slow now t)) [
        | inl slow ↦ rw slow (subst⁻¹ (InRange f r) (raise_level-score _) raised)
        | inr quick ↦ rw quick h
      ]

  module _ {Digest : Type 0} (s : Service f r Digest) where
    audit-telemetry :
        (m : Moment f r) (reason : String) (w : Watch f r Digest)
        → (audit_state_transition f r s m reason w).monitor.telemetry ≡ w.monitor.telemetry
    unfolding audit_state_transition log_to_blockchain
    audit-telemetry m reason w = ground arith

    -- Apart from the status, that is set where the risk level is blocked.
    abbrev IsRecorded : TransferTelemetry F → Type 0
    IsRecorded t =
        InRange f r t.current_ai_score
        × InRange f r t.maximum_ai_score
        × (le t.current_ai_score t.maximum_ai_score ≡ true)
        × (t.last_evaluation_chunks ≤ t.chunks_processed)

    stop_if_blocked-IsSound :
        (a : Analysis f r) (w : Watch f r Digest)
        → IsRecorded w.monitor.telemetry
        → IsSound (stop_if_blocked f r s a w).1.monitor.telemetry
    unfolding stop_if_blocked
    stop_if_blocked-IsSound a w (fits, top, below, seen) =
        elim (Bool-cases (is_blocked w.monitor.telemetry.current_risk_level)) [
          | inl stop ↦ rw stop (record {
            current_fits = fits;
            maximum_fits = top;
            current_below = below;
            evaluated = seen;
            stops = λ _. refl;
          })
          | inr go ↦ rw go (record {
            current_fits = fits;
            maximum_fits = top;
            current_below = below;
            evaluated = seen;
            stops = λ e. ground (arith, go, e);
          })
        ]

    record_score-IsRecorded :
        (now : ℕ) (a : Analysis f r) (t : TransferTelemetry F)
        → InRange f r a.anomaly_score
        → InRange f r t.maximum_ai_score
        → IsRecorded (record_score f r s now a t)
    unfolding record_score
    record_score-IsRecorded now a t h k =
        let x = fmax f t.maximum_ai_score a.anomaly_score in
        let top : InRange f r x = (
          le_trans (lit 0) t.maximum_ai_score x k.0
              (le-fmax_left f t.maximum_ai_score a.anomaly_score),
          fmax-le f t.maximum_ai_score a.anomaly_score (lit 10_000) k.1 h.1,
        ) in
        (h, top, le-fmax_right f t.maximum_ai_score a.anomaly_score, omega arith)

    conclude-IsSound :
        (m : Moment f r) (answer : Answer f r) (w : Watch f r Digest)
        → ((a : Analysis f r) → answer ≡ assessed a → InRange f r a.anomaly_score)
        → IsSound w.monitor.telemetry
        → IsSound (conclude f r s m answer w).1.monitor.telemetry
    unfolding conclude
    conclude-IsSound m (assessed a) w fits h =
        let t = w.monitor.telemetry in
        let b = calculate_rolling_heuristics f r m.now t a in
        let u : Watch f r Digest = record w {
          monitor = record w.monitor { telemetry = record_score f r s m.now b t };
        } in
        stop_if_blocked-IsSound b (audit_state_transition f r s m b.reason u) (
          subst⁻¹ IsRecorded (audit-telemetry m b.reason u) (
            record_score-IsRecorded m.now b t (rolling-InRange m.now t a (fits a refl))
              h.maximum_fits))
    conclude-IsSound m _ w fits h = h

    reanalyze-IsSound :
        (m : Moment f r) (w : Watch f r Digest)
        → IsSound w.monitor.telemetry
        → IsSound (reanalyze_transfer f r s m w).1.monitor.telemetry
    unfolding reanalyze_transfer
    reanalyze-IsSound m w h =
        conclude-IsSound m _ _
          (λ a.
            analyze_transfer_bounds f r s.rounding s.ai_large_file_mb s.policies s.limits m.call
              (transfer_of f r s m w.monitor) w.ai m.trained a)
          h

    fragment-IsSound :
        (m : Moment f r) (bytes_read : ℕ) (w : Watch f r Digest)
        → IsSound w.monitor.telemetry
        → IsSound (watch_fragment f r s m bytes_read w).monitor.telemetry
    unfolding watch_fragment update_telemetry
    fragment-IsSound m bytes_read w h =
        let u : Watch f r Digest = record w {
          monitor = record w.monitor {
            telemetry = update_telemetry bytes_read w.monitor.telemetry;
          };
        } in
        let counted : IsSound u.monitor.telemetry = record {
          current_fits = h.current_fits;
          maximum_fits = h.maximum_fits;
          current_below = h.current_below;
          evaluated = omega (arith, h.evaluated);
          stops = h.stops;
        } in
        elim (Bool-cases (asks f r s m u)) [
          | inl now ↦ rw now (reanalyze-IsSound m u counted)
          | inr later ↦ rw later counted
        ]

    complete-IsSound :
        (m : Moment f r) (w : Watch f r Digest)
        → IsSound w.monitor.telemetry
        → IsSound (complete_monitoring f r s m w).monitor.telemetry
    unfolding complete_monitoring log_to_blockchain
    complete-IsSound m w h = elim (Bool-cases (is_stopped w.monitor.telemetry.status)) [
      | inl stop ↦ rw stop h
      | inr go ↦ rw go (record {
        current_fits = h.current_fits;
        maximum_fits = h.maximum_fits;
        current_below = h.current_below;
        evaluated = h.evaluated;
        stops = λ e. ground (arith, go, h.stops e);
      })
    ]

    new_monitor-IsSound : (now : ℕ) (q : Request f r) → IsSound (new_monitor f r now q).telemetry
    unfolding new_monitor
    new_monitor-IsSound now q = record {
      current_fits = (le_refl (lit 0), le-lit 0 10_000);
      maximum_fits = (le_refl (lit 0), le-lit 0 10_000);
      current_below = le_refl (lit 0);
      evaluated = omega arith;
      stops = λ e. ground (arith, e);
    }

    Reach-IsSound :
        (v w : Watch f r Digest)
        → Reach f r s v w
        → IsSound v.monitor.telemetry
        → IsSound w.monitor.telemetry
    Reach-IsSound v _ here h = h
    Reach-IsSound v _ (fragment m n path) h = fragment-IsSound m n _ (Reach-IsSound v _ path h)
    Reach-IsSound v _ (finish m path) h = complete-IsSound m _ (Reach-IsSound v _ path h)

    -- At every moment of a transfer that was opened, with any verdicts and failures on the way: the current
    -- and the maximum score lie between 0 and 1, the current one is at most the maximum, the last
    -- evaluation saw no more chunks than have been processed, and a transfer whose risk level is blocked
    -- is stopped.
    pub transfer-IsSound :
        (m : Moment f r) (q : Request f r) (ai : State f r) (blocks : List (AuditBlock Digest))
        (w : Watch f r Digest)
        → Reach f r s (open_transfer f r s m q ai blocks) w
        → IsSound w.monitor.telemetry
    unfolding open_transfer
    transfer-IsSound m q ai blocks w path =
        Reach-IsSound _ w path (reanalyze-IsSound m _ (new_monitor-IsSound m.now q))
