-- ===== src/Sync/Scheduler.antt =====
-- The scheduler of rust-core/src/sync.rs: `schedule_flush` and the worker thread `run_scheduler`.
--
-- Times are milliseconds. Each section of the code under the lock of the schedule is one function, and
-- one step of the threads: a call of `schedule_flush` by any thread, the start of the worker's thread
-- or its failure, a turn of the worker's loop, and the end of the flush that a turn began.
use flux_bar.Prelude.{
  ℕ, suc, ◌+◌, ◌-◌, ◌≡◌, Bool, true, false, not, Option, none, some, ltb, if◌then◌else◌,
}

-- `ScheduleState`
pub record Schedule : Type 0 where
  pub deadline : Option ℕ
  pub worker_running : Bool

-- There is no deadline, or a later one.
unfoldable pub is_earlier : ℕ → Option ℕ → Bool
is_earlier new none = true
is_earlier new (some existing) = ltb new existing

-- The new schedule, and whether a worker is to be started.
unfoldable pub schedule_flush : ℕ → ℕ → Schedule → Schedule × Bool
schedule_flush now delay schedule =
    if is_earlier (now + delay) schedule.deadline
    then (
      record { deadline = some (now + delay); worker_running = true },
      not schedule.worker_running,
    )
    else (schedule, false)

-- The thread could not be started.
unfoldable pub spawn_failed : Schedule → Schedule
spawn_failed schedule = record schedule { worker_running = false }

-- What one turn of `run_scheduler` does next: it returns, waits so long at most, or flushes.
pub data Turn : Type 0 where
  stops : Turn
  waits : ℕ → Turn
  fires : Turn

abbrev pub turn_at : ℕ → Option ℕ → Schedule → Schedule × Turn
turn_at now none schedule = (record schedule { worker_running = false }, stops)
turn_at now (some deadline) schedule =
    if ltb now deadline
    then (schedule, waits (deadline - now))
    else (record schedule { deadline = none }, fires)

unfoldable pub worker_turn : ℕ → Schedule → Schedule × Turn
worker_turn now schedule = turn_at now schedule.deadline schedule

-- The schedule, the threads that are being started, in the loop and in a flush, how many flushes were
-- begun, the time, and whether a thread ever failed to start.
pub record Threads : Type 0 where
  pub schedule : Schedule
  pub spawning : ℕ
  pub looping : ℕ
  pub flushing : ℕ
  pub begun : ℕ
  pub clock : ℕ
  pub failed : Bool

abbrev pub after_call : Schedule × Bool → Threads → Threads
after_call (schedule, spawn) t = record t {
  schedule = schedule;
  spawning = if spawn then suc t.spawning else t.spawning;
}

-- A thread of the loop, `looping` others in it, after a turn.
abbrev pub after_turn : ℕ → Schedule × Turn → Threads → Threads
after_turn looping (schedule, stops) t = record t { schedule = schedule; looping = looping }
after_turn looping (schedule, waits _) t = record t { schedule = schedule }
after_turn looping (schedule, fires) t = record t {
  schedule = schedule;
  looping = looping;
  flushing = suc t.flushing;
  begun = suc t.begun;
}

pub data Move : Threads → Threads → Type 0 where
  time_passes : (t : Threads) (n : ℕ) → Move t (record t { clock = t.clock + n })
  schedules :
      (t : Threads) (delay : ℕ) → Move t (after_call (schedule_flush t.clock delay t.schedule) t)
  starts :
      (t : Threads) (n : ℕ)
      → t.spawning ≡ suc n
      → Move t (record t { spawning = n; looping = suc t.looping })
  fails_to_start :
      (t : Threads) (n : ℕ)
      → t.spawning ≡ suc n
      → Move t (record t { spawning = n; schedule = spawn_failed t.schedule; failed = true })
  turns :
      (t : Threads) (n : ℕ)
      → t.looping ≡ suc n
      → Move t (after_turn n (worker_turn t.clock t.schedule) t)
  ends_flush :
      (t : Threads) (n : ℕ)
      → t.flushing ≡ suc n
      → Move t (record t { flushing = n; looping = suc t.looping })

pub data Moves (start : Threads) : Threads → Type 0 where
  still : Moves start start
  moved : {t u : Threads} → Moves start t → Move t u → Moves start u

-- The scheduler of a new service.
abbrev pub idle_threads : Threads
idle_threads = record {
  schedule = record { deadline = none; worker_running = false };
  spawning = 0;
  looping = 0;
  flushing = 0;
  begun = 0;
  clock = 0;
  failed = false;
}
