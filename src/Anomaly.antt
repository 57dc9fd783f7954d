-- ===== src/Anomaly.antt =====
-- AnomalyDetector of gateflow/anomaly.py. What int() and float() make of a metric is an input; a
-- duration counts whole units of any size, a rate is a fraction, and the mean and the deviation are
-- compared as exact numbers.
mod Tests
pub mod Windows
use gate_flow.Prelude.{
  ℕ, zero, suc, ◌+◌, ◌-◌, ◌*◌, ◌/◌, ◌^◌, Bool, true, false, ◌&&◌, Option, none, some, List, [], ◌∷◌,
  ◌++◌, length, drop, map, leb, ltb, ◌==◌, if◌then◌else◌,
}
use gate_flow.Prelude.Text.{Text, codes, update}

pub record Fraction : Type 0 where
  pub over : ℕ
  pub under : ℕ

pub record Settings : Type 0 where
  pub window_size : ℕ
  pub error_rate_threshold : Fraction
  pub latency_threshold : ℕ
  pub traffic_multiplier : Fraction

pub record Sample : Type 0 where
  pub status_code : ℕ
  pub duration : ℕ

-- `numbers` is none if int() or float() raises an error.
pub record Metric : Type 0 where
  pub route : Option Text
  pub api_key : Option Text
  pub numbers : Option Sample

pub record Traffic : Type 0 where
  pub current_minute : ℕ
  pub current_minute_count : ℕ
  pub counts : List ℕ

pub record Detector : Type 0 where
  pub samples : Text → List Sample
  pub traffic : Text → Traffic

pub data Anomaly : Type 0 where
  error_rate_spike : (errors samples : ℕ) → Anomaly
  latency_spike outlier_latency traffic_spike : (value : ℕ) → Anomaly

abbrev pub fresh : Detector
fresh = record {
  samples = λ group. [];
  traffic = λ group. record { current_minute = 0; current_minute_count = 0; counts = [] };
}

abbrev pub or_unknown : Option Text → Text
or_unknown none = codes "unknown"
or_unknown (some t) = t

abbrev pub group_key : Metric → Text
group_key m = or_unknown m.route ++ codes ":" ++ or_unknown m.api_key

-- `deque(maxlen=n)` keeps the last n.
unfoldable pub last {ℓ} : {A : Type ℓ} → ℕ → List A → List A
last n xs = drop (length xs - n) xs

unfoldable pub push {ℓ} : {A : Type ℓ} → ℕ → A → List A → List A
push n x xs = last n (xs ++ x ∷ [])

unfoldable pub sum : List ℕ → ℕ
sum [] = 0
sum (n ∷ ns) = n + sum ns

unfoldable pub insert_value : ℕ → List ℕ → List ℕ
insert_value n [] = n ∷ []
insert_value n (k ∷ ns) = let rest = insert_value n ns in if leb n k then n ∷ k ∷ ns else k ∷ rest

unfoldable pub sorted_values : List ℕ → List ℕ
sorted_values [] = []
sorted_values (n ∷ ns) = insert_value n (sorted_values ns)

unfoldable pub value_of : ℕ → List ℕ → Option ℕ
value_of i [] = none
value_of zero (n ∷ ns) = some n
value_of (suc i) (n ∷ ns) = value_of i ns

abbrev pub durations : List Sample → List ℕ
durations samples = map (λ s. s.duration) samples

-- Responses 5xx.
unfoldable pub errors : List Sample → ℕ
errors [] = 0
errors (s ∷ samples) =
    (if leb 500 s.status_code && ltb s.status_code 600 then 1 else 0) + errors samples

abbrev pub when : Bool → Anomaly → List Anomaly
when true anomaly = anomaly ∷ []
when false anomaly = []

unfoldable pub error_check : Settings → List Sample → List Anomaly
error_check settings samples =
    let rate = settings.error_rate_threshold in
    when (ltb (rate.over * length samples) (errors samples * rate.under))
      (error_rate_spike (errors samples) (length samples))

unfoldable pub above : Settings → Option ℕ → List Anomaly
above settings none = []
above settings (some p95) = when (ltb settings.latency_threshold p95) (latency_spike p95)

-- `sorted(latencies)[int(len(latencies) * 0.95)]`
unfoldable pub latency_check : Settings → List Sample → List Anomaly
latency_check settings samples =
    above settings (value_of ((length samples * 95) / 100) (sorted_values (durations samples)))

-- `duration > mean + 3 * stdev and stdev > 0`, for at least two samples: with n samples, their sum S
-- and the sum Q of their squares, stdev is the root of (n * Q - S * S) / (n * (n - 1)).
unfoldable pub outlier_check : List Sample → ℕ → List Anomaly
outlier_check samples duration =
    let n = length samples in
    let s = sum (durations samples) in
    let spread = n * sum (map (λ d. d * d) (durations samples)) - s * s in
    when
      (ltb s (n * duration)
        && ltb 0 spread
        && ltb (9 * n * spread) ((n * duration - s) ^ 2 * (n - 1)))
      (outlier_latency duration)

-- What is found in the window, from ten samples on.
unfoldable pub window_checks : Settings → List Sample → ℕ → List Anomaly
window_checks settings samples duration =
    if leb 10 (length samples)
    then error_check settings samples
      ++ latency_check settings samples
      ++ outlier_check samples duration
    else []

unfoldable pub count_traffic : (minute : ℕ) → Traffic → Traffic
count_traffic minute t =
    if t.current_minute == minute
    then record t { current_minute_count = suc t.current_minute_count }
    else record {
      current_minute = minute;
      current_minute_count = 1;
      counts = push 5 t.current_minute_count t.counts;
    }

unfoldable pub traffic_check : Settings → Traffic → List Anomaly
traffic_check settings t =
    let total = sum t.counts in
    let times = settings.traffic_multiplier in
    when
      (leb 2 (length t.counts)
        && ltb 0 total
        && ltb (total * times.over) (t.current_minute_count * length t.counts * times.under))
      (traffic_spike t.current_minute_count)

module _ (settings : Settings) where
  -- The rest of `check`, with the numbers of the metric.
  unfoldable pub check_sample : (now : ℕ) → Text → Sample → Detector → Detector × List Anomaly
  check_sample now group sample d =
      let samples = push settings.window_size sample (d.samples group) in
      let traffic = count_traffic (now / 60) (d.traffic group) in
      (
        record {
          samples = update d.samples group samples;
          traffic = update d.traffic group traffic;
        },
        window_checks settings samples sample.duration ++ traffic_check settings traffic,
      )

  unfoldable pub check_numbers :
      (now : ℕ) → Text → Option Sample → Detector → Detector × List Anomaly
  check_numbers now group none d = (d, [])
  check_numbers now group (some sample) d = check_sample now group sample d

  unfoldable pub check : (now : ℕ) → Metric → Detector → Detector × List Anomaly
  check now m d = check_numbers now (group_key m) m.numbers d

  -- Metrics in a row, each with `int(time.time())`.
  unfoldable pub run : List (ℕ × Metric) → Detector → Detector
  run [] d = d
  run ((now, m) ∷ metrics) d = run metrics (check now m d).0
