-- ===== src/Monitor/Telemetry.antt =====
-- `update_telemetry`, `should_reanalyse` and `_calculate_rolling_heuristics` of
-- `ContinuousTransferMonitor` (backend/app/services/continuous_monitor.py).
use Prim.Native.String.{◌++◌ as text_append}
use reserach.Base.{
  ℕ, ◌+◌, ◌-◌, ◌*◌, max, Bool, true, false, ◌&&◌, ◌||◌, not, String, ◌==◌, ltb, leb, lower,
  contains_text, if◌then◌else◌,
}
use reserach.Base.Float.{Float, fmin}
use reserach.Privacy.{Limits}
use reserach.Privacy.Status.{BudgetStatus}
use reserach.Privacy.Features.{Real}
use reserach.Ai.{medium, high, is_high}
use reserach.Ai.Features.{Analysis}
use reserach.Monitor.{Settings, TransferTelemetry}

-- "Reserved Budget Hard Stop": an available budget is down to the reserve.
unfoldable pub hard_stop : Limits → BudgetStatus → Bool
hard_stop limits status =
    status.available && leb limits.max_budget (status.consumed + limits.reserved_budget)

module _ {F : Type 0} where
  unfoldable pub update_telemetry : ℕ → TransferTelemetry F → TransferTelemetry F
  update_telemetry chunk_size t = record t {
    bytes_processed = t.bytes_processed + chunk_size;
    chunks_processed = t.chunks_processed + 1;
  }

  -- "Soft Limit Check"
  unfoldable pub is_soft_limit : Settings F → Limits → BudgetStatus → Bool
  is_soft_limit s limits status =
      status.available
      && leb (s.dp_soft_limit_consumed_percent * limits.max_budget) (status.consumed * 100)

  -- The interval or the number of chunks has passed, three times as much near the end of the budget.
  unfoldable pub is_due : Settings F → Bool → ℕ → TransferTelemetry F → Bool
  is_due s soft now t =
      let factor : ℕ = if soft then 3 else 1 in
      leb (t.last_evaluation_at + s.ai_monitor_interval * factor) now
      || leb (t.last_evaluation_chunks + s.ai_monitor_every_n_chunks * factor) t.chunks_processed

  unfoldable pub should_reanalyse :
      Settings F → Limits → ℕ → BudgetStatus → TransferTelemetry F → Bool
  unfolding hard_stop is_soft_limit is_due
  should_reanalyse s limits now status t =
      if not s.ai_continuous_monitoring_enabled
      then false
      else if leb s.dp_max_analyses_per_transfer t.samples_count
      then false
      else if hard_stop limits status
      then false
      else if t.last_evaluation_at == 0
      then true
      else is_due s (is_soft_limit s limits status) now t

  -- Below 0.05 MB per second, for more than 50 MB and after more than ten seconds.
  unfoldable pub is_slow : ℕ → TransferTelemetry F → Bool
  is_slow now t =
      let elapsed = max 100_000 (now - t.started_at) in
      ltb (t.bytes_processed * 20_000_000) (1_048_576 * elapsed)
      && ltb (50 * 1_048_576) t.file_size
      && ltb 10_000_000 elapsed

abbrev pub slow_reason : String
slow_reason = "Unusually slow transfer rate for large file (potential throttled exfiltration)"

module _ (f : Float) (r : Real f) where
  open f use {F, lit, le, add}

  -- The level and the flag for the raised score.
  unfoldable pub raise_level : Analysis f r → Analysis f r
  raise_level a =
      if le (lit 8_000) a.anomaly_score
      then record a { level = high; is_anomaly = true }
      else if le (lit 4_000) a.anomaly_score && not (is_high a.level)
      then record a { level = medium; is_anomaly = true }
      else a

  unfoldable pub calculate_rolling_heuristics :
      ℕ → TransferTelemetry F → Analysis f r → Analysis f r
  unfolding is_slow raise_level
  calculate_rolling_heuristics now t a =
      if is_slow now t
      then raise_level (record a {
        anomaly_score = fmin f (lit 10_000) (add a.anomaly_score (lit 2_000));
        reason =
            if contains_text "normal" (lower a.reason)
            then slow_reason
            else text_append a.reason (text_append "; " slow_reason);
      })
      else a
