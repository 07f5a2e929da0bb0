-- ===== src/Metrics/Laws.antt =====
-- The bounds of a snapshot, and the last activity, of src/metrics/collector.rs.
use rsactor.Base.{ℕ, zero, suc, ◌≤◌, ◌≡◌, refl, min, Option, none, some, arith}
use rsactor.Metrics.{
  MetricsCollector, cap, clamped_average, biased, new, update_last_activity, mark_started,
  record_message, record_priority_message, record_idle_event, avg_processing_time,
  avg_priority_processing_time, avg_idle_processing_time, unbias, get_last_activity, snapshot,
}

clamped_average-≤ : (total n most : ℕ) → clamped_average total n most ≤ most
unfolding clamped_average
clamped_average-≤ total zero most = omega arith
clamped_average-≤ total (suc n) most = omega arith

module _ {Instant SystemTime : Type 0} (elapsed : Instant → ℕ)
    (since_epoch : ℕ → Option SystemTime) where
  -- In every state of the counters, also one that a racing recording leaves, the averages of a
  -- snapshot are at most its maxima, and they are what the accessors return.
  pub snapshot_bounded :
      (c : MetricsCollector Instant)
      → ((snapshot elapsed since_epoch c).avg_time ≤ (snapshot elapsed since_epoch c).max_time)
        × ((snapshot elapsed since_epoch c).avg_priority_time
            ≤ (snapshot elapsed since_epoch c).max_priority_time)
        × ((snapshot elapsed since_epoch c).avg_idle_time
            ≤ (snapshot elapsed since_epoch c).max_idle_time)
        × ((snapshot elapsed since_epoch c).avg_time ≡ avg_processing_time c)
        × ((snapshot elapsed since_epoch c).avg_priority_time ≡ avg_priority_processing_time c)
        × ((snapshot elapsed since_epoch c).avg_idle_time ≡ avg_idle_processing_time c)
  unfolding snapshot avg_processing_time avg_priority_processing_time avg_idle_processing_time
  snapshot_bounded c = (
    clamped_average-≤ _ c.message_count _,
    clamped_average-≤ _ c.priority_message_count _,
    clamped_average-≤ _ c.idle_event_count _,
    refl,
    refl,
    refl,
  )

biased-some : (millis : ℕ) → biased (some millis) ≡ suc (min millis 18446744073709551614)
unfolding biased cap
biased-some millis = omega arith

biased-none : biased none ≡ 1
unfolding biased cap
biased-none = omega arith

-- the last activity reported after one of the three recordings at the time `now`
pub activity_at : {SystemTime : Type 0} → (ℕ → Option SystemTime) → Option ℕ → Option SystemTime
activity_at since_epoch none = since_epoch 0
activity_at since_epoch (some millis) = since_epoch (min millis 18446744073709551614)

unbias-biased :
    {SystemTime : Type 0} (since_epoch : ℕ → Option SystemTime) (now : Option ℕ)
    → unbias since_epoch (biased now) ≡ activity_at since_epoch now
unfolding unbias activity_at
unbias-biased since_epoch none = rw biased-none refl
unbias-biased since_epoch (some millis) = rw (biased-some millis) refl

-- A new collector reports no last activity; after a message, a priority message or an idle event,
-- it reports the time of the recording in milliseconds since the epoch, also when that is zero, with
-- the epoch for an earlier time and the largest but one `u64` for a time that the counter cannot
-- hold, and `mark_started` changes neither.
pub last_activity_round_trip :
    {Instant SystemTime : Type 0} (since_epoch : ℕ → Option SystemTime)
    (c : MetricsCollector Instant) (i : Instant) (duration : ℕ) (now : Option ℕ)
    → (get_last_activity since_epoch (new i) ≡ none)
      × (get_last_activity since_epoch (record_message c duration now)
          ≡ activity_at since_epoch now)
      × (get_last_activity since_epoch (record_priority_message c duration now)
          ≡ activity_at since_epoch now)
      × (get_last_activity since_epoch (record_idle_event c duration now)
          ≡ activity_at since_epoch now)
      × (get_last_activity since_epoch (mark_started c i) ≡ get_last_activity since_epoch c)
unfolding get_last_activity new record_message record_priority_message record_idle_event
    update_last_activity mark_started unbias
last_activity_round_trip since_epoch c i duration now = (
  refl,
  unbias-biased since_epoch now,
  unbias-biased since_epoch now,
  unbias-biased since_epoch now,
  ground arith,
)
