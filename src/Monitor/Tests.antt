-- ===== src/Monitor/Tests.antt =====
-- Tests of the continuous monitor, and its theorems at a concrete transfer.
use reserach.Base.{ℕ, ◌≤◌, ◌+◌, ◌/◌, max, ◌≡◌, refl, true, false, none, some, [], ◌∷◌}
use reserach.Base.Int.{pos, ◌-ℤ◌}
use reserach.Base.Float.{decimal}
use reserach.Ledger.Symbolic.{Code, symbolic}
use reserach.Ledger.Append.{not_anchored, raised}
use reserach.Privacy.Status.{get_budget_status}
use reserach.Privacy.Decimal.{decimal_real}
use reserach.Ai.Analysis.{State, analyze_transfer}
use reserach.Monitor.{blocked, stopped}
use reserach.Monitor.Telemetry.{calculate_rolling_heuristics}
use reserach.Monitor.Reanalysis.{Service, Moment, Watch, complete_monitoring}
use reserach.Monitor.Steps.{
  Request, new_monitor, watch_fragment, open_transfer, Reach, here, fragment, finish,
}
use reserach.Monitor.Invariant.{IsSound, transfer-IsSound}
use reserach.Monitor.Budget.{first_evaluation, evaluations, samples_bounded, stopped_for_good}

abbrev pub service : Service decimal decimal_real Code
service = record {
  rounding = record { round_4 = λ x. x; round_4_above = λ n x h. h; round_4_below = λ n x h. h };
  ai_large_file_mb = 1_000_000;
  policies = record {
    dp_exhaustion_policy = "fallback_heuristics";
    dp_accountant_fail_policy = "fail_closed";
    high_risk_extensions = "exe" ∷ [];
  };
  limits = record { max_budget = 10_000_000; reserved_budget = 1_000_000 };
  settings = record {
    ai_continuous_monitoring_enabled = true;
    ai_monitor_interval = 5_000_000;
    ai_monitor_every_n_chunks = 2;
    ai_block_threshold = 8_500;
    dp_max_analyses_per_transfer = 5;
    dp_soft_limit_consumed_percent = 80;
  };
  megabytes = λ n. n / 100;
  sha = symbolic;
  environment = record {
    blockchain_enabled = false;
    blockchain_required = false;
    signer_private_key = false;
    blockchain_chain_id = "1337";
  };
  dumps = λ t reason. reason;
}

-- Without the privacy service, and with a forest that finds every transfer normal.
abbrev pub moment : ℕ → Moment decimal decimal_real
moment now = record {
  now = now;
  node = record {
    w3 = false;
    contract = false;
    contract_address = "";
    probe = λ k. not_anchored;
    transaction = λ k. raised;
  };
  call = record {
    dp_enabled = false;
    total_epsilon = pos 10;
    epsilon_per_analysis = 5_000;
    epsilon_units = pos 500_000_000;
    epoch_hours = 24;
    now = 5_000_000;
    redis_reachable = false;
    user_id = "";
    analysis_id = "r";
    analysis_class = "INITIAL";
    draw = λ name. 0;
  };
  trained = some (record { decision_function = λ values. 4_000; is_outlier = λ values. false });
  analysis_rest = "0:ab";
}

abbrev request : Request decimal decimal_real
request = record {
  transfer_id = "t1";
  sender_id = "7";
  receiver_id = "8";
  file_name = "clip.mp4";
  file_size = 4_096;
  transfers_last_hour = 1;
  mfa_failed_attempts = 0;
  failed_login_attempts = 0;
  hour_of_day = 14;
  is_trusted_ip = false;
}

abbrev pub untouched : State decimal decimal_real
untouched = record {
  model = none;
  accountant = record { redis_available = false; local_budget = []; redis = [] };
}

abbrev opened : Watch decimal decimal_real Code
opened = open_transfer decimal decimal_real service (moment 1_000) request untouched []

-- Two fragments, and the end.
abbrev two_fragments : Watch decimal decimal_real Code
two_fragments =
    watch_fragment decimal decimal_real service (moment 3_000) 2_048
      (watch_fragment decimal decimal_real service (moment 2_000) 2_048 opened)

abbrev finished : Watch decimal decimal_real Code
finished = complete_monitoring decimal decimal_real service (moment 4_000) two_fragments

finished-Reach : Reach decimal decimal_real service opened finished
finished-Reach =
    finish (moment 4_000) (fragment (moment 3_000) 2_048 (fragment (moment 2_000) 2_048 here))

-- The second fragment is due for an evaluation.
two_fragments_evaluated : two_fragments.monitor.telemetry.samples_count ≡ 2
unfolding watch_fragment open_transfer analyze_transfer calculate_rolling_heuristics
    get_budget_status ◌-ℤ◌
two_fragments_evaluated = refl

transfer-IsSound_example : IsSound decimal decimal_real finished.monitor.telemetry
transfer-IsSound_example =
    transfer-IsSound decimal decimal_real service (moment 1_000) request untouched [] finished
      finished-Reach

samples_bounded_example :
    (finished.monitor.telemetry.samples_count
      ≡ first_evaluation decimal decimal_real service (moment 1_000) request untouched []
        + evaluations decimal decimal_real service finished-Reach)
    × (first_evaluation decimal decimal_real service (moment 1_000) request untouched []
          + evaluations decimal decimal_real service finished-Reach
        ≤ max 1 5)
samples_bounded_example =
    samples_bounded decimal decimal_real service (moment 1_000) request untouched [] finished
      finished-Reach

-- The same transfer after an evaluation that blocked it.
abbrev stopped_watch : Watch decimal decimal_real Code
stopped_watch = record {
  monitor = record {
    telemetry = record (new_monitor decimal decimal_real 1_000 request).telemetry {
      current_risk_level = blocked;
      current_ai_score = 9_000;
      maximum_ai_score = 9_000;
      samples_count = 1;
      status = stopped;
    };
    is_trusted_ip = false;
    high_risk_audited = false;
  };
  ai = untouched;
  blocks = [];
}

abbrev stopped_later : Watch decimal decimal_real Code
stopped_later = watch_fragment decimal decimal_real service (moment 2_000) 2_048 stopped_watch

stopped_for_good_example :
    (stopped_later.monitor.telemetry.status ≡ stopped)
    × (complete_monitoring decimal decimal_real service (moment 3_000) stopped_later
        ≡ stopped_later)
stopped_for_good_example =
    stopped_for_good decimal decimal_real service stopped_watch stopped_later (moment 3_000)
      (fragment (moment 2_000) 2_048 here) refl
