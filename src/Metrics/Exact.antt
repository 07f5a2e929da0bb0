-- ===== src/Metrics/Exact.antt =====
-- What the counters of src/metrics/collector.rs hold after any number of recordings.
use rsactor.Base.{
  ℕ, ◌+◌, ◌*◌, ◌/◌, ◌^◌, ◌≤◌, ◌<◌, ◌≡◌, refl, ◌∙◌, ap, sym, max, Option, none, some, List, [], ◌∷◌,
  length, arith,
}
use native.Mathlib.Nat.{div-le_of_le-mul}
use rsactor.Metrics.{
  MetricsCollector, fetch_add, cap, clamped_average, new, update_last_activity, record_message,
  record_priority_message, record_idle_event, avg_processing_time, avg_priority_processing_time,
  avg_idle_processing_time,
}

-- A recording, with its duration and the time since the epoch.
pub data Recording : Type 0 where
  message priority_message idle_event : ℕ → Option ℕ → Recording

pub data Kind : Type 0 where
  regular priority idle : Kind

-- the duration of a recording of one kind
unfoldable pub duration_of : Kind → Recording → Option ℕ
duration_of regular (message d now) = some d
duration_of priority (priority_message d now) = some d
duration_of idle (idle_event d now) = some d
duration_of k r = none

unfoldable pub prepend : Option ℕ → List ℕ → List ℕ
prepend none ds = ds
prepend (some d) ds = d ∷ ds

unfoldable pub durations : Kind → List Recording → List ℕ
unfolding duration_of prepend
durations k [] = []
durations k (r ∷ rs) = prepend (duration_of k r) (durations k rs)

abbrev pub sum : List ℕ → ℕ
sum [] = 0
sum (d ∷ ds) = d + sum ds

abbrev pub largest : List ℕ → ℕ
largest [] = 0
largest (d ∷ ds) = max d (largest ds)

-- the mean, rounded down, and zero of no durations
pub mean : List ℕ → ℕ
mean [] = 0
mean (d ∷ ds) = sum (d ∷ ds) / length (d ∷ ds)

-- the three counters of one kind
pub record Meter : Type 0 where
  pub count : ℕ
  pub total : ℕ
  pub most : ℕ

push : Meter → ℕ → Meter
unfolding fetch_add cap
push m d = record {
  count = fetch_add m.count 1;
  total = fetch_add m.total (cap d);
  most = max m.most (cap d);
}

push_all : Meter → List ℕ → Meter
push_all m [] = m
push_all m (d ∷ ds) = push_all (push m d) ds

push_some : Meter → Option ℕ → Meter
push_some m none = m
push_some m (some d) = push m d

push_all-prepend :
    (m : Meter) (o : Option ℕ) (ds : List ℕ)
    → push_all m (prepend o ds) ≡ push_all (push_some m o) ds
unfolding push_all prepend push_some
push_all-prepend m none ds = refl
push_all-prepend m (some d) ds = refl

module _ {Instant : Type 0} where
  record_one : MetricsCollector Instant → Recording → MetricsCollector Instant
  record_one c (message d now) = record_message c d now
  record_one c (priority_message d now) = record_priority_message c d now
  record_one c (idle_event d now) = record_idle_event c d now

  pub record_all : MetricsCollector Instant → List Recording → MetricsCollector Instant
  unfolding record_one
  record_all c [] = c
  record_all c (r ∷ rs) = record_all (record_one c r) rs

  pub meter : Kind → MetricsCollector Instant → Meter
  meter regular c = record {
    count = c.message_count;
    total = c.total_processing_nanos;
    most = c.max_processing_nanos;
  }
  meter priority c = record {
    count = c.priority_message_count;
    total = c.total_priority_processing_nanos;
    most = c.max_priority_processing_nanos;
  }
  meter idle c = record {
    count = c.idle_event_count;
    total = c.total_idle_processing_nanos;
    most = c.max_idle_processing_nanos;
  }

  pub average_of : Kind → MetricsCollector Instant → ℕ
  average_of regular c = avg_processing_time c
  average_of priority c = avg_priority_processing_time c
  average_of idle c = avg_idle_processing_time c

  meter-record_one :
      (k : Kind) (c : MetricsCollector Instant) (r : Recording)
      → meter k (record_one c r) ≡ push_some (meter k c) (duration_of k r)
  unfolding meter record_one push_some push duration_of record_message record_priority_message
      record_idle_event update_last_activity
  meter-record_one regular c (message d now) = refl
  meter-record_one regular c (priority_message d now) = refl
  meter-record_one regular c (idle_event d now) = refl
  meter-record_one priority c (message d now) = refl
  meter-record_one priority c (priority_message d now) = refl
  meter-record_one priority c (idle_event d now) = refl
  meter-record_one idle c (message d now) = refl
  meter-record_one idle c (priority_message d now) = refl
  meter-record_one idle c (idle_event d now) = refl

  meter-record_all :
      (k : Kind) (c : MetricsCollector Instant) (rs : List Recording)
      → meter k (record_all c rs) ≡ push_all (meter k c) (durations k rs)
  unfolding record_all push_all durations
  meter-record_all k c [] = refl
  meter-record_all k c (r ∷ rs) =
      meter-record_all k (record_one c r) rs
      ∙ (ap (λ m. push_all m (durations k rs)) (meter-record_one k c r)
          ∙ sym (push_all-prepend (meter k c) (duration_of k r) (durations k rs)))

  average_of-meter :
      (k : Kind) (c : MetricsCollector Instant)
      → average_of k c ≡ clamped_average (meter k c).total (meter k c).count (meter k c).most
  unfolding average_of meter avg_processing_time avg_priority_processing_time
      avg_idle_processing_time
  average_of-meter regular c = refl
  average_of-meter priority c = refl
  average_of-meter idle c = refl

push_all-count :
    (m : Meter) (ds : List ℕ)
    → m.count + length ds < 2 ^ 64
    → (push_all m ds).count ≡ m.count + length ds
unfolding push_all push fetch_add
push_all-count m [] h = omega arith
push_all-count m (d ∷ ds) h = omega (arith, push_all-count (push m d) ds (omega arith))

push_all-total :
    (m : Meter) (ds : List ℕ) → m.total + sum ds < 2 ^ 64 → (push_all m ds).total ≡ m.total + sum ds
unfolding push_all push fetch_add cap
push_all-total m [] h = omega arith
push_all-total m (d ∷ ds) h = omega (arith, push_all-total (push m d) ds (omega arith))

push_all-most :
    (m : Meter) (ds : List ℕ) → sum ds < 2 ^ 64 → (push_all m ds).most ≡ max m.most (largest ds)
unfolding push_all push cap
push_all-most m [] h = omega arith
push_all-most m (d ∷ ds) h = omega (arith, push_all-most (push m d) ds (omega arith))

sum-≤ : (b : ℕ) (ds : List ℕ) → largest ds ≤ b → sum ds ≤ length ds * b
sum-≤ b [] h = omega arith
sum-≤ b (d ∷ ds) h = omega (arith, sum-≤ b ds (omega arith))

-- the clamp does nothing to a mean
clamped_average-mean : (ds : List ℕ) → clamped_average (sum ds) (length ds) (largest ds) ≡ mean ds
unfolding clamped_average mean
clamped_average-mean [] = omega arith
clamped_average-mean (d ∷ ds) =
    omega
      (arith, div-le_of_le-mul (length (d ∷ ds)) (sum-≤ (largest (d ∷ ds)) (d ∷ ds) (omega arith)))

-- what a new collector counts of each kind
unstarted : Meter
unstarted = record { count = 0; total = 0; most = 0 }

meter-new :
    {Instant : Type 0} (k : Kind) (i : Instant) (rs : List Recording)
    → meter k (record_all (new i) rs) ≡ push_all unstarted (durations k rs)
unfolding meter new unstarted
meter-new regular i rs = meter-record_all regular (new i) rs
meter-new priority i rs = meter-record_all priority (new i) rs
meter-new idle i rs = meter-record_all idle (new i) rs

-- After any recordings on a new collector, of which those of one kind are fewer than 2^64 and take
-- less than 2^64 nanoseconds together, the counters of that kind are exact, the count, the total and
-- the maximum, and the average that is reported is the mean rounded down: the clamp to the maximum
-- does not change it, and recordings of another kind do not count.
pub recordings_exact :
    {Instant : Type 0} (k : Kind) (i : Instant) (rs : List Recording)
    → length (durations k rs) < 2 ^ 64
    → sum (durations k rs) < 2 ^ 64
    → ((meter k (record_all (new i) rs)).count ≡ length (durations k rs))
      × ((meter k (record_all (new i) rs)).total ≡ sum (durations k rs))
      × ((meter k (record_all (new i) rs)).most ≡ largest (durations k rs))
      × (average_of k (record_all (new i) rs) ≡ mean (durations k rs))
unfolding unstarted
recordings_exact k i rs few short =
    let ds = durations k rs in
    let m = meter-new k i rs in
    let counted : (meter k (record_all (new i) rs)).count ≡ length ds =
      ap Meter.count m ∙ (push_all-count unstarted ds (omega arith) ∙ omega arith) in
    let totalled : (meter k (record_all (new i) rs)).total ≡ sum ds =
      ap Meter.total m ∙ (push_all-total unstarted ds (omega arith) ∙ omega arith) in
    let highest : (meter k (record_all (new i) rs)).most ≡ largest ds =
      ap Meter.most m ∙ (push_all-most unstarted ds short ∙ omega arith) in
    (
      counted,
      totalled,
      highest,
      average_of-meter k (record_all (new i) rs)
          ∙ rw (counted, totalled, highest) (clamped_average-mean ds),
    )
