-- ===== src/Sync/SchedulerLaws.antt =====
-- How many workers the scheduler of rust-core/src/sync.rs has, and which flushes it begins.
use flux_bar.Prelude.{
  ℕ, ◌+◌, ◌≤◌, ◌≡◌, refl, ◌∙◌, Bool, true, false, Option, none, some, ltb, arith, ◌⊎◌, inl, inr,
  if◌then◌else◌, Bool-cases, Option-cases,
}
use flux_bar.Sync.Scheduler.{
  Schedule, is_earlier, schedule_flush, spawn_failed, worker_turn, Threads, after_call, Move,
  time_passes, schedules, starts, fails_to_start, turns, ends_flush, Moves, still, moved,
  idle_threads,
}

-- The earlier one of two deadlines, of which the first may be missing.
unfoldable pub earliest : Option ℕ → ℕ → ℕ
earliest none new = new
earliest (some existing) new = if ltb new existing then new else existing

-- `schedule_flush` leaves the earlier one of the deadline that there was and the new one.
pub schedule_flush-earliest :
    (now delay : ℕ) (schedule : Schedule)
    → (schedule_flush now delay schedule).0.deadline
      ≡ some (earliest schedule.deadline (now + delay))
unfolding schedule_flush is_earlier earliest
schedule_flush-earliest now delay schedule = elim (Option-cases schedule.deadline) [
  | inl none_yet ↦ rw none_yet refl
  | inr (existing, found) ↦ elim (Bool-cases (ltb (now + delay) existing)) [
    | inl sooner ↦ rw (found, sooner) refl
    | inr later ↦ rw (found, later) refl
  ]
]

abbrev pub flag_count : Bool → ℕ
flag_count true = 1
flag_count false = 0

abbrev pub workers : Threads → ℕ
workers t = t.spawning + t.looping + t.flushing

-- There is one worker if the flag is set and else none; and as long as every thread could be started,
-- there is one if a flush is scheduled.
pub record IsManned (t : Threads) : Type 0 where
  pub counted : workers t ≡ flag_count t.schedule.worker_running
  pub manned : t.failed ≡ false → (t.schedule.deadline ≡ none) ⊎ (t.schedule.worker_running ≡ true)

after_call-IsManned :
    (now delay : ℕ) (t : Threads)
    → IsManned t
    → IsManned (after_call (schedule_flush now delay t.schedule) t)
unfolding schedule_flush
after_call-IsManned now delay t m =
    elim (Bool-cases (is_earlier (now + delay) t.schedule.deadline)) [
      | inr later ↦ rw later (record { counted = m.counted; manned = m.manned })
      | inl sooner ↦ elim (Bool-cases t.schedule.worker_running) [
        | inl running ↦
            rw (sooner, running)
              (record { counted = m.counted ∙ rw running refl; manned = λ _. inr refl })
        | inr idle ↦
            rw (sooner, idle)
              (record {
                counted = omega (arith, m.counted ∙ idle_count t idle);
                manned = λ _. inr refl;
              })
      ]
    ]
  where
    idle_count :
        (t : Threads) → t.schedule.worker_running ≡ false → flag_count t.schedule.worker_running ≡ 0
    idle_count t idle = rw idle refl

running_of : (t : Threads) → IsManned t → 1 ≤ workers t → t.schedule.worker_running ≡ true
running_of t m some_worker = elim (Bool-cases t.schedule.worker_running) [
  | inl running ↦ running
  | inr idle ↦ absurd (omega (arith, some_worker, m.counted ∙ idle_count idle))
]
  where
    idle_count : t.schedule.worker_running ≡ false → flag_count t.schedule.worker_running ≡ 0
    idle_count idle = rw idle refl

-- One worker exactly.
pub one_of : (t : Threads) → IsManned t → t.schedule.worker_running ≡ true → workers t ≡ 1
one_of t m running = m.counted ∙ rw running refl

Move-IsManned : {t u : Threads} → Move t u → IsManned t → IsManned u
unfolding spawn_failed worker_turn
Move-IsManned (time_passes t n) m = record { counted = m.counted; manned = m.manned }
Move-IsManned (schedules t delay) m = after_call-IsManned t.clock delay t m
Move-IsManned (starts t n one) m = record {
  counted = omega (arith, one) ∙ m.counted;
  manned = m.manned;
}
Move-IsManned (fails_to_start t n one) m =
    let running = running_of t m (omega (arith, one)) in
    record { counted = omega (arith, one, one_of t m running); manned = λ h. absurd (cc h) }
Move-IsManned (turns t n one) m =
    let running = running_of t m (omega (arith, one)) in
    elim (Option-cases t.schedule.deadline) [
      | inl nothing ↦
          rw nothing
            (record { counted = omega (arith, one, one_of t m running); manned = λ _. inl refl })
      | inr (deadline, found) ↦ elim (Bool-cases (ltb t.clock deadline)) [
        | inl early ↦ rw (found, early) (record { counted = m.counted; manned = λ _. inr running })
        | inr due ↦
            rw (found, due)
              (record { counted = omega (arith, one) ∙ m.counted; manned = λ _. inl refl })
      ]
    ]
Move-IsManned (ends_flush t n one) m = record {
  counted = omega (arith, one) ∙ m.counted;
  manned = m.manned;
}

pub Moves-IsManned : {t : Threads} → Moves idle_threads t → IsManned t
Moves-IsManned still = record { counted = refl; manned = λ _. inl refl }
Moves-IsManned (moved r step) = Move-IsManned step (Moves-IsManned r)

-- However the calls of `schedule_flush`, the starts of threads and their failures, and the turns of the
-- worker follow each other, there is never more than one worker thread, so no two of its flushes
-- overlap.
pub one_worker : {t : Threads} → Moves idle_threads t → t.spawning + t.looping + t.flushing ≤ 1
one_worker {t} r =
    let m = Moves-IsManned r in
    elim (Bool-cases t.schedule.worker_running) [
      | inl running ↦ omega (arith, one_of t m running)
      | inr idle ↦ omega (arith, none_left m idle)
    ]
  where
    none_left : IsManned t → t.schedule.worker_running ≡ false → workers t ≡ 0
    none_left m idle = m.counted ∙ rw idle refl
