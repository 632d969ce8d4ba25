-- ===== src/Pool/Limits.antt =====
-- scripts/worker_pool.py: how many workers a batch gets, and the telemetry of provider rate limits.
-- Counts that the command line or the environment may make negative are read as 0, and times are
-- whole seconds.
use ao_operator.Base.{
  ℕ, ◌+◌, ◌-◌, ◌/◌, ◌≤◌, ◌≡◌, min, max, Bool, false, Option, none, some, List, [], ◌∷◌, ltb, leb,
  ◌==◌, if◌then◌else◌, count, arith, ◌⊎◌, inl, inr, refl,
}
use ao_operator.Text.{Text}
use ao_operator.Queue.{Queue, queue_depth}

unfoldable pub desired_worker_count : Queue → ℕ → ℕ → ℕ
desired_worker_count q cap floor = min (queue_depth q) (min cap floor)

unfoldable pub adjusted_rate_limit_floor : ℕ → ℕ → ℕ → ℕ
adjusted_rate_limit_floor current_floor recent_429s threshold =
    if ltb recent_429s threshold then current_floor else max 1 (current_floor / 2)

-- A line of the telemetry file: no JSON, or an object with the fields that have the right type.
pub data Line : Type 0 where
  garbled : Line
  event : (timestamp : Option ℕ) (task signal : Option Text) → Line

-- `timestamp >= current - window_seconds`
unfoldable pub is_recent : ℕ → ℕ → Line → Bool
is_recent now window garbled = false
is_recent now window (event none task signal) = false
is_recent now window (event (some t) task signal) = leb now (t + window)

unfoldable pub recent_provider_rate_limits : ℕ → ℕ → List Line → ℕ
unfolding is_recent
recent_provider_rate_limits window now lines =
    if window == 0 then 0 else count (is_recent now window) lines

pub record RateEvent : Type 0 where
  pub timestamp : ℕ
  pub age_seconds : ℕ
  pub task : Text
  pub signal : Text

-- The lines that give an event of the report.
unfoldable pub rate_event : ℕ → ℕ → Line → Option RateEvent
rate_event now window (event (some t) (some task) (some signal)) =
    if leb now (t + window)
    then some (record { timestamp = t; age_seconds = now - t; task = task; signal = signal })
    else none
rate_event now window _ = none

unfoldable pub rate_events : ℕ → ℕ → List Line → List RateEvent
unfolding rate_event
rate_events now window [] = []
rate_events now window (l ∷ lines) =
    let rest = rate_events now window lines in
    elim (rate_event now window l) [ none ↦ rest | some e ↦ e ∷ rest ]

-- `sorted(events, key=timestamp, reverse=True)`, which keeps the order of equal keys.
unfoldable pub insert_newest : RateEvent → List RateEvent → List RateEvent
insert_newest e [] = e ∷ []
insert_newest e (f ∷ es) =
    let rest = insert_newest e es in if leb f.timestamp e.timestamp then e ∷ f ∷ es else f ∷ rest

unfoldable pub sort_newest : List RateEvent → List RateEvent
unfolding insert_newest
sort_newest [] = []
sort_newest (e ∷ es) = insert_newest e (sort_newest es)

unfoldable pub take_events : ℕ → List RateEvent → List RateEvent
take_events ℕ.zero es = []
take_events (ℕ.suc n) [] = []
take_events (ℕ.suc n) (e ∷ es) = e ∷ take_events n es

unfoldable pub recent_provider_rate_limit_events : ℕ → ℕ → ℕ → List Line → List RateEvent
unfolding rate_events sort_newest take_events
recent_provider_rate_limit_events window limit now lines =
    if window == 0 then [] else take_events limit (sort_newest (rate_events now window lines))

unfoldable pub provider_rate_limit_floor : ℕ → ℕ → ℕ → List Line → ℕ
unfolding adjusted_rate_limit_floor recent_provider_rate_limits
provider_rate_limit_floor cap window now lines =
    adjusted_rate_limit_floor cap (recent_provider_rate_limits window now lines) 1

-- The number of workers never passes the pending tasks or the cap; a batch has a worker whenever
-- there are a task and a cap, however many rate limits were met; and a recent rate limit halves the
-- cap, down to one worker at the least.
pub desired_worker_count_bounds :
    (q : Queue) (cap recent : ℕ)
    → (desired_worker_count q cap (adjusted_rate_limit_floor cap recent 1) ≤ queue_depth q)
      × (desired_worker_count q cap (adjusted_rate_limit_floor cap recent 1) ≤ cap)
      × (min 1 (min (queue_depth q) cap)
          ≤ desired_worker_count q cap (adjusted_rate_limit_floor cap recent 1))
      × ((recent ≡ 0)
          ⊎ (desired_worker_count q cap (adjusted_rate_limit_floor cap recent 1) ≤ max 1 (cap / 2)))
unfolding desired_worker_count adjusted_rate_limit_floor
desired_worker_count_bounds q cap recent = (ground arith, ground arith, ground arith, go recent)
  where
    go :
        (n : ℕ)
        → (n ≡ 0)
          ⊎ (min (queue_depth q) (min cap (if ltb n 1 then cap else max 1 (cap / 2)))
              ≤ max 1 (cap / 2))
    go ℕ.zero = inl refl
    go (ℕ.suc n) = inr (ground arith)
