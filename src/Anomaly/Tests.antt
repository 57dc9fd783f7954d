-- ===== src/Anomaly/Tests.antt =====
-- Metrics in a row, and the theorem at a concrete input.
use gate_flow.Prelude.{ℕ, zero, suc, ◌≡◌, refl, none, some, List, [], ◌∷◌, ◌++◌}
use gate_flow.Prelude.Text.{codes, same}
use gate_flow.Anomaly.{
  Settings, Metric, error_rate_spike, latency_spike, outlier_latency, traffic_spike, fresh,
  group_key, last, push, sum, insert_value, sorted_values, value_of, errors, error_check, above,
  latency_check, outlier_check, window_checks, count_traffic, traffic_check, check_sample,
  check_numbers, check, run,
}
use gate_flow.Anomaly.Windows.{samples_of, check-samples_of}

-- The detector as it is made by default.
abbrev settings : Settings
settings = record {
  window_size = 100;
  error_rate_threshold = record { over = 1; under = 4 };
  latency_threshold = 1000;
  traffic_multiplier = record { over = 5; under = 1 };
}

abbrev metric : ℕ → ℕ → Metric
metric status_code duration = record {
  route = some (codes "r");
  api_key = none;
  numbers = some (record { status_code = status_code; duration = duration });
}

abbrev times : ℕ → ℕ × Metric → List (ℕ × Metric)
times zero m = []
times (suc n) m = m ∷ times n m

-- In the first minute one request, in the second three: a spike, since the minute before the first
-- one counts as empty. Ten slow errors, and one slow answer after ten fast ones.
check-runs :
    ((check settings 120
        (metric 200 1)
        (run settings ((60, metric 200 1) ∷ times 2 (120, metric 200 1)) fresh)).1
      ≡ traffic_spike 3 ∷ [])
    × (((check settings 60 (metric 503 2000) (run settings (times 9 (60, metric 503 2000)) fresh)).1
          ≡ error_rate_spike 10 10 ∷ latency_spike 2000 ∷ [])
        × ((check settings 60 (metric 200 500) (run settings (times 10 (60, metric 200 1)) fresh)).1
            ≡ outlier_latency 500 ∷ []))
unfolding check check_numbers check_sample run window_checks error_check latency_check above
    outlier_check errors value_of sorted_values insert_value sum push last count_traffic
    traffic_check same
check-runs = (refl, (refl, refl))

check-samples_of_example :
    let d = run settings (times 9 (60, metric 503 2000)) fresh in
    let g = group_key (metric 503 2000) in
    let samples = last 100 (
      samples_of g (times 9 (60, metric 503 2000))
      ++ record { status_code = 503; duration = 2000 } ∷ []) in
    (check settings 60 (metric 503 2000) d).1
    ≡ window_checks settings samples 2000 ++ traffic_check settings (count_traffic 1 (d.traffic g))
check-samples_of_example =
    check-samples_of settings (times 9 (60, metric 503 2000)) 60 (metric 503 2000)
      (record { status_code = 503; duration = 2000 }) refl
