-- ===== src/Tests/Metrics.antt =====
-- The counters of src/metrics/collector.rs after three recordings.
use rsactor.Base.{ℕ, ◌^◌, ◌<◌, ◌≡◌, none, some, List, [], ◌∷◌, length, arith}
use rsactor.Metrics.{MetricsCollector, new}
use rsactor.Metrics.Exact.{
  Recording, message, idle_event, regular, duration_of, prepend, durations, sum, largest, mean,
  record_all, meter, average_of, recordings_exact,
}

abbrev recordings : List Recording
recordings = message 30 (some 5) ∷ idle_event 7 none ∷ message 11 (some 6) ∷ []

abbrev start_time : ℕ
start_time = 3

-- a collector whose counters a racing recording left apart
abbrev racing : MetricsCollector ℕ
racing = record {
  message_count = 1;
  total_processing_nanos = 41;
  max_processing_nanos = 30;
  priority_message_count = 0;
  total_priority_processing_nanos = 0;
  max_priority_processing_nanos = 0;
  idle_event_count = 1;
  total_idle_processing_nanos = 7;
  max_idle_processing_nanos = 7;
  last_activity_millis = 6;
  start_instant = 0;
  started_at = some 1;
}

few_recordings : length (durations regular recordings) < 2 ^ 64
unfolding duration_of prepend durations
few_recordings = omega arith

short_recordings : sum (durations regular recordings) < 2 ^ 64
unfolding duration_of prepend durations
short_recordings = omega arith

recordings_exact_example :
    ((meter regular (record_all (new start_time) recordings)).count
      ≡ length (durations regular recordings))
    × ((meter regular (record_all (new start_time) recordings)).total
        ≡ sum (durations regular recordings))
    × ((meter regular (record_all (new start_time) recordings)).most
        ≡ largest (durations regular recordings))
    × (average_of regular (record_all (new start_time) recordings)
        ≡ mean (durations regular recordings))
recordings_exact_example =
    recordings_exact regular start_time recordings few_recordings short_recordings
