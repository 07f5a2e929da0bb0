-- ===== src/Metrics.antt =====
-- src/metrics/collector.rs: the counters of an actor. A `Duration` is its number of nanoseconds; an
-- `Instant` is the type `Instant`, whose elapsed time is the clock's.
pub mod Laws
pub mod Exact
use rsactor.Base.{
  ℕ, zero, suc, ◌+◌, ◌-◌, ◌/◌, ◌%◌, ◌^◌, min, max, Option, none, some, List, [], ◌∷◌,
}

abbrev pub u64_max : ℕ
u64_max = 18446744073709551615

pub record MetricsCollector (Instant : Type 0) : Type 0 where
  pub message_count : ℕ
  pub total_processing_nanos : ℕ
  pub max_processing_nanos : ℕ
  pub priority_message_count : ℕ
  pub total_priority_processing_nanos : ℕ
  pub max_priority_processing_nanos : ℕ
  pub idle_event_count : ℕ
  pub total_idle_processing_nanos : ℕ
  pub max_idle_processing_nanos : ℕ
  pub last_activity_millis : ℕ
  pub start_instant : Instant
  pub started_at : Option Instant

pub record MetricsSnapshot (SystemTime : Type 0) : Type 0 where
  pub count : ℕ
  pub avg_time : ℕ
  pub max_time : ℕ
  pub priority_count : ℕ
  pub avg_priority_time : ℕ
  pub max_priority_time : ℕ
  pub idle_count : ℕ
  pub avg_idle_time : ℕ
  pub max_idle_time : ℕ
  pub uptime : ℕ
  pub last_activity : Option SystemTime

-- `fetch_add` on an `AtomicU64`
pub fetch_add : ℕ → ℕ → ℕ
fetch_add a b = (a + b) % 2 ^ 64

-- `duration.as_nanos().min(u64::MAX as u128) as u64`
pub cap : ℕ → ℕ
cap d = min d u64_max

-- `total.checked_div(count).map(Duration::from_nanos).unwrap_or(Duration::ZERO).min(max)`
pub clamped_average : ℕ → ℕ → ℕ → ℕ
clamped_average total zero most = min 0 most
clamped_average total (suc n) most = min (total / suc n) most

-- What `update_last_activity` stores; `now` is the time since the epoch in milliseconds, none before.
pub biased : Option ℕ → ℕ
unfolding cap
biased none = min (cap 0 + 1) u64_max
biased (some millis) = min (cap millis + 1) u64_max

module _ {Instant : Type 0} where
  -- `MetricsCollector::new`, at the instant it is called
  pub new : Instant → MetricsCollector Instant
  new i = record {
    message_count = 0;
    total_processing_nanos = 0;
    max_processing_nanos = 0;
    priority_message_count = 0;
    total_priority_processing_nanos = 0;
    max_priority_processing_nanos = 0;
    idle_event_count = 0;
    total_idle_processing_nanos = 0;
    max_idle_processing_nanos = 0;
    last_activity_millis = 0;
    start_instant = i;
    started_at = none;
  }

  -- `OnceLock::set`: only the first call takes effect
  pub mark_started : MetricsCollector Instant → Instant → MetricsCollector Instant
  mark_started c i = elim c.started_at [ none ↦ record c { started_at = some i } | some j ↦ c ]

  pub uptime_baseline : MetricsCollector Instant → Instant
  uptime_baseline c = elim c.started_at [ none ↦ c.start_instant | some i ↦ i ]

  pub update_last_activity : MetricsCollector Instant → Option ℕ → MetricsCollector Instant
  unfolding biased
  update_last_activity c now = record c { last_activity_millis = biased now }

  pub record_message : MetricsCollector Instant → ℕ → Option ℕ → MetricsCollector Instant
  unfolding fetch_add cap update_last_activity
  record_message c duration now =
      update_last_activity
        (record c {
          message_count = fetch_add c.message_count 1;
          total_processing_nanos = fetch_add c.total_processing_nanos (cap duration);
          max_processing_nanos = max c.max_processing_nanos (cap duration);
        })
        now

  pub record_priority_message : MetricsCollector Instant → ℕ → Option ℕ → MetricsCollector Instant
  unfolding fetch_add cap update_last_activity
  record_priority_message c duration now =
      update_last_activity
        (record c {
          priority_message_count = fetch_add c.priority_message_count 1;
          total_priority_processing_nanos =
              fetch_add c.total_priority_processing_nanos (cap duration);
          max_priority_processing_nanos = max c.max_priority_processing_nanos (cap duration);
        })
        now

  pub record_idle_event : MetricsCollector Instant → ℕ → Option ℕ → MetricsCollector Instant
  unfolding fetch_add cap update_last_activity
  record_idle_event c duration now =
      update_last_activity
        (record c {
          idle_event_count = fetch_add c.idle_event_count 1;
          total_idle_processing_nanos = fetch_add c.total_idle_processing_nanos (cap duration);
          max_idle_processing_nanos = max c.max_idle_processing_nanos (cap duration);
        })
        now

  pub avg_processing_time : MetricsCollector Instant → ℕ
  unfolding clamped_average
  avg_processing_time c =
      clamped_average c.total_processing_nanos c.message_count c.max_processing_nanos

  pub avg_priority_processing_time : MetricsCollector Instant → ℕ
  unfolding clamped_average
  avg_priority_processing_time c =
      clamped_average c.total_priority_processing_nanos c.priority_message_count
        c.max_priority_processing_nanos

  pub avg_idle_processing_time : MetricsCollector Instant → ℕ
  unfolding clamped_average
  avg_idle_processing_time c =
      clamped_average c.total_idle_processing_nanos c.idle_event_count c.max_idle_processing_nanos

-- `SystemTime::UNIX_EPOCH.checked_add` of milliseconds is the clock's.
module _ {SystemTime : Type 0} (since_epoch : ℕ → Option SystemTime) where
  -- `biased.checked_sub(1)?`, then the time
  pub unbias : ℕ → Option SystemTime
  unbias zero = none
  unbias (suc millis) = since_epoch millis

  pub get_last_activity : {Instant : Type 0} → MetricsCollector Instant → Option SystemTime
  unfolding unbias
  get_last_activity c = unbias c.last_activity_millis

-- So is the time since an instant.
module _ {Instant SystemTime : Type 0} (elapsed : Instant → ℕ)
    (since_epoch : ℕ → Option SystemTime) where
  pub snapshot : MetricsCollector Instant → MetricsSnapshot SystemTime
  unfolding clamped_average uptime_baseline get_last_activity
  snapshot c = record {
    count = c.message_count;
    avg_time = clamped_average c.total_processing_nanos c.message_count c.max_processing_nanos;
    max_time = c.max_processing_nanos;
    priority_count = c.priority_message_count;
    avg_priority_time =
        clamped_average c.total_priority_processing_nanos c.priority_message_count
          c.max_priority_processing_nanos;
    max_priority_time = c.max_priority_processing_nanos;
    idle_count = c.idle_event_count;
    avg_idle_time =
        clamped_average c.total_idle_processing_nanos c.idle_event_count
          c.max_idle_processing_nanos;
    max_idle_time = c.max_idle_processing_nanos;
    uptime = elapsed (uptime_baseline c);
    last_activity = get_last_activity since_epoch c;
  }
