-- ===== src/Monitor/Budget.antt =====
-- How often a transfer is evaluated, and when evaluation stops.
use mathlib.Core.Path.{subst⁻¹}
use reserach.Base.{
  ℕ, ◌≤◌, ◌<◌, ◌+◌, max, ◌≡◌, refl, true, List, if◌then◌else◌, arith, inl, inr, Bool-cases,
}
use reserach.Base.Float.{Float}
use reserach.Ledger.{AuditBlock}
use reserach.Privacy.{Limits}
use reserach.Privacy.Status.{BudgetStatus, get_budget_status}
use reserach.Privacy.Features.{Real}
use reserach.Ai.Features.{Answer, assessed}
use reserach.Ai.Analysis.{State}
use reserach.Monitor.{stopped, Settings, TransferTelemetry}
use reserach.Monitor.Telemetry.{update_telemetry, should_reanalyse}
use reserach.Monitor.Reanalysis.{
  Service, Moment, Watch, Reanalysis, reanalyzed, analysis_raised, log_to_blockchain,
  audit_state_transition, record_score, stop_if_blocked, conclude, ask_ai, reanalyze_transfer,
  complete_monitoring,
}
use reserach.Monitor.Steps.{
  Request, new_monitor, asks, watch_fragment, open_transfer, Reach, here, fragment, finish,
}

module _ {F : Type 0} where
  should_reanalyse-samples :
      (s : Settings F) (limits : Limits) (now : ℕ) (status : BudgetStatus) (t : TransferTelemetry F)
      → should_reanalyse s limits now status t ≡ true
      → t.samples_count < s.dp_max_analyses_per_transfer
  unfolding should_reanalyse
  should_reanalyse-samples s limits now status t h = ground arith

module _ (f : Float) (r : Real f) {Digest : Type 0} (s : Service f r Digest) where
  -- An evaluation is completed where `reanalyze_transfer` returns.
  abbrev pub one_if_returned : Reanalysis f r → ℕ
  one_if_returned (reanalyzed a quarantined) = 1
  one_if_returned (analysis_raised answer) = 0

  -- The evaluations that the call for a fragment completes.
  abbrev pub fragment_evaluations : Moment f r → ℕ → Watch f r Digest → ℕ
  fragment_evaluations m bytes_read w =
      let counted : Watch f r Digest = record w {
        monitor = record w.monitor { telemetry = update_telemetry bytes_read w.monitor.telemetry };
      } in
      if asks f r s m counted then one_if_returned (reanalyze_transfer f r s m counted).0 else 0

  -- The evaluations that are completed in a run.
  abbrev pub evaluations : {v w : Watch f r Digest} → Reach f r s v w → ℕ
  evaluations here = 0
  evaluations (fragment {w} m bytes_read path) =
      evaluations path + fragment_evaluations m bytes_read w
  evaluations (finish m path) = evaluations path

  conclude-samples :
      (m : Moment f r) (answer : Answer f r) (w : Watch f r Digest)
      → (conclude f r s m answer w).1.monitor.telemetry.samples_count
        ≡ w.monitor.telemetry.samples_count + one_if_returned (conclude f r s m answer w).0
  unfolding conclude stop_if_blocked audit_state_transition log_to_blockchain record_score
  conclude-samples m (assessed a) w = ground arith
  conclude-samples m _ w = omega arith

  -- The counter counts what is completed.
  reanalyze-samples :
      (m : Moment f r) (w : Watch f r Digest)
      → (reanalyze_transfer f r s m w).1.monitor.telemetry.samples_count
        ≡ w.monitor.telemetry.samples_count + one_if_returned (reanalyze_transfer f r s m w).0
  unfolding reanalyze_transfer
  reanalyze-samples m w =
      conclude-samples m (ask_ai f r s m w).0 (record w { ai = (ask_ai f r s m w).1 })

  one_if_returned-le : (a : Reanalysis f r) → one_if_returned a ≤ 1
  one_if_returned-le (reanalyzed a quarantined) = omega arith
  one_if_returned-le (analysis_raised answer) = omega arith

  -- A moment of a transfer keeps the bound.
  abbrev IsFew : Watch f r Digest → Type 0
  IsFew w = w.monitor.telemetry.samples_count ≤ max 1 s.settings.dp_max_analyses_per_transfer

  asks-samples :
      (m : Moment f r) (w : Watch f r Digest)
      → asks f r s m w ≡ true
      → w.monitor.telemetry.samples_count < s.settings.dp_max_analyses_per_transfer
  unfolding asks
  asks-samples m w =
      should_reanalyse-samples s.settings s.limits m.now
        (get_budget_status s.limits m.call.epoch_hours m.call.now m.call.redis_reachable
          w.monitor.telemetry.sender_id w.ai.accountant)
        w.monitor.telemetry

  -- The call for a fragment counts what it completes, and keeps the bound.
  fragment-samples :
      (m : Moment f r) (bytes_read : ℕ) (w : Watch f r Digest)
      → IsFew w
      → ((watch_fragment f r s m bytes_read w).monitor.telemetry.samples_count
          ≡ w.monitor.telemetry.samples_count + fragment_evaluations m bytes_read w)
        × IsFew (watch_fragment f r s m bytes_read w)
  unfolding watch_fragment update_telemetry
  fragment-samples m bytes_read w h =
      let u : Watch f r Digest = record w {
        monitor = record w.monitor { telemetry = update_telemetry bytes_read w.monitor.telemetry };
      } in
      elim (Bool-cases (asks f r s m u)) [
        | inl now ↦ rw now (
          reanalyze-samples m u,
          omega (
            arith,
            reanalyze-samples m u,
            asks-samples m u now,
            one_if_returned-le (reanalyze_transfer f r s m u).0,
          ),
        )
        | inr later ↦ rw later (omega arith, h)
      ]

  complete-samples :
      (m : Moment f r) (w : Watch f r Digest)
      → (complete_monitoring f r s m w).monitor.telemetry.samples_count
        ≡ w.monitor.telemetry.samples_count
  unfolding complete_monitoring log_to_blockchain
  complete-samples m w = ground arith

  Reach-samples :
      (v w : Watch f r Digest) (path : Reach f r s v w)
      → IsFew v
      → (w.monitor.telemetry.samples_count ≡ v.monitor.telemetry.samples_count + evaluations path)
        × IsFew w
  Reach-samples v _ here h = (omega arith, h)
  Reach-samples v _ (fragment {w} m n path) h =
      let (counted, few) = Reach-samples v w path h in
      let (more, still) = fragment-samples m n w few in (omega (arith, counted, more), still)
  Reach-samples v _ (finish {w} m path) h =
      let (counted, few) = Reach-samples v w path h in
      let same = complete-samples m w in (omega (arith, counted, same), omega (arith, same, few))

  -- The evaluation with which a transfer starts, where it is completed.
  abbrev pub first_evaluation : Moment f r → Request f r → State f r → List (AuditBlock Digest) → ℕ
  first_evaluation m q ai blocks =
      one_if_returned
        (reanalyze_transfer f r s m
          (record { monitor = new_monitor f r m.now q; ai = ai; blocks = blocks })).0

  -- However many fragments a transfer has, at most as many evaluations of it are completed, the one that
  -- it starts with included, as the setting allows (or one, where it allows none), and `samples_count` is
  -- their number. Evaluations that raise are not counted by the code, and not bounded here.
  pub samples_bounded :
      (m : Moment f r) (q : Request f r) (ai : State f r) (blocks : List (AuditBlock Digest))
      (w : Watch f r Digest) (path : Reach f r s (open_transfer f r s m q ai blocks) w)
      → (w.monitor.telemetry.samples_count ≡ first_evaluation m q ai blocks + evaluations path)
        × (first_evaluation m q ai blocks + evaluations path
            ≤ max 1 s.settings.dp_max_analyses_per_transfer)
  unfolding open_transfer new_monitor
  samples_bounded m q ai blocks w path =
      let start : Watch f r Digest = record {
        monitor = new_monitor f r m.now q;
        ai = ai;
        blocks = blocks;
      } in
      let first = reanalyze-samples m start in
      let few = one_if_returned-le (reanalyze_transfer f r s m start).0 in
      let (counted, bounded) =
        Reach-samples (open_transfer f r s m q ai blocks) w path (omega (arith, first, few)) in
      (omega (arith, first, counted), omega (arith, first, counted, bounded))

  conclude-stopped :
      (m : Moment f r) (answer : Answer f r) (w : Watch f r Digest)
      → w.monitor.telemetry.status ≡ stopped
      → (conclude f r s m answer w).1.monitor.telemetry.status ≡ stopped
  unfolding conclude stop_if_blocked audit_state_transition log_to_blockchain record_score
  conclude-stopped m (assessed a) w h = ground arith
  conclude-stopped m _ w h = h

  reanalyze-stopped :
      (m : Moment f r) (w : Watch f r Digest)
      → w.monitor.telemetry.status ≡ stopped
      → (reanalyze_transfer f r s m w).1.monitor.telemetry.status ≡ stopped
  unfolding reanalyze_transfer
  reanalyze-stopped m w h =
      conclude-stopped m (ask_ai f r s m w).0 (record w { ai = (ask_ai f r s m w).1 }) h

  complete-stopped :
      (m : Moment f r) (w : Watch f r Digest)
      → w.monitor.telemetry.status ≡ stopped
      → complete_monitoring f r s m w ≡ w
  unfolding complete_monitoring
  complete-stopped m w h = rw h refl

  fragment-stopped :
      (m : Moment f r) (bytes_read : ℕ) (w : Watch f r Digest)
      → w.monitor.telemetry.status ≡ stopped
      → (watch_fragment f r s m bytes_read w).monitor.telemetry.status ≡ stopped
  unfolding watch_fragment update_telemetry
  fragment-stopped m bytes_read w h =
      let u : Watch f r Digest = record w {
        monitor = record w.monitor { telemetry = update_telemetry bytes_read w.monitor.telemetry };
      } in
      elim (Bool-cases (asks f r s m u)) [
        | inl now ↦ rw now (reanalyze-stopped m u h)
        | inr later ↦ rw later h
      ]

  Reach-stopped :
      (v w : Watch f r Digest)
      → Reach f r s v w
      → v.monitor.telemetry.status ≡ stopped
      → w.monitor.telemetry.status ≡ stopped
  Reach-stopped v _ here h = h
  Reach-stopped v _ (fragment m n path) h = fragment-stopped m n _ (Reach-stopped v _ path h)
  Reach-stopped v _ (finish {w} m path) h =
      let stops = Reach-stopped v w path h in
      subst⁻¹ (λ u. u.monitor.telemetry.status ≡ stopped) (complete-stopped m w stops) stops

  -- A transfer that was stopped stays stopped, whatever later evaluations find, and `complete_monitoring`
  -- neither completes it nor writes to the ledger.
  pub stopped_for_good :
      (v w : Watch f r Digest) (m : Moment f r)
      → Reach f r s v w
      → v.monitor.telemetry.status ≡ stopped
      → (w.monitor.telemetry.status ≡ stopped) × (complete_monitoring f r s m w ≡ w)
  stopped_for_good v w m path h =
      let stops = Reach-stopped v w path h in (stops, complete-stopped m w stops)
