-- ===== src/Sync/SchedulerEnds.antt =====
-- Which flushes the scheduler of rust-core/src/sync.rs begins, also after a thread failed to start.
use flux_bar.Prelude.{
  ℕ, zero, suc, ◌+◌, ◌≤◌, ◌≡◌, refl, ap, ◌∙◌, false, some, ltb, arith, inl, inr, ◌⊎◌,
}
use flux_bar.Sync.Scheduler.{
  Schedule, is_earlier, schedule_flush, worker_turn, Threads, after_turn, Move, time_passes,
  schedules, starts, fails_to_start, turns, ends_flush, Moves, still, moved, idle_threads,
}
use flux_bar.Sync.SchedulerLaws.{workers, one_of, Moves-IsManned}

-- A turn of the loop at or after the deadline begins a flush.
due_turn :
    (t : Threads) (n deadline : ℕ)
    → t.looping ≡ suc n
    → t.schedule.deadline ≡ some deadline
    → deadline ≤ t.clock
    → (u : Threads) × Move t u × (u.begun ≡ suc t.begun) × (u.clock ≡ t.clock)
due_turn t n deadline one found due =
    let late : ltb t.clock deadline ≡ false = ground (arith, due) in
    (
      after_turn n (worker_turn t.clock t.schedule) t,
      turns t n one,
      unfold worker_turn in rw (found, late) refl,
      unfold worker_turn in rw (found, late) refl,
    )

-- A flush is begun by one move, or by two of which the first begins none; no time passes.
abbrev pub SoonBegins : Threads → Threads → Type 0
SoonBegins t u =
    (u.begun ≡ suc t.begun)
    × (u.clock ≡ t.clock)
    × (Move t u ⊎ ((v : Threads) × Move t v × (v.begun ≡ t.begun) × Move v u))

-- Whenever a flush is scheduled and its time has come, and no thread ever failed to start, a flush can
-- be begun at once, by one move of the scheduler or by two of which the first begins none.
pub scheduled_begins :
    {t : Threads} (deadline : ℕ)
    → Moves idle_threads t
    → t.failed ≡ false
    → t.schedule.deadline ≡ some deadline
    → deadline ≤ t.clock
    → (u : Threads) × SoonBegins t u
scheduled_begins {t} deadline r sound found due = elim ((Moves-IsManned r).manned sound) [
  | inl nothing ↦ absurd (cc (nothing, found))
  | inr running ↦
      by_place t.spawning t.looping t.flushing refl refl refl (one_of t (Moves-IsManned r) running)
]
  where
    then_turn :
        (v : Threads) (n : ℕ)
        → Move t v
        → v.looping ≡ suc n
        → v.schedule.deadline ≡ some deadline
        → v.clock ≡ t.clock
        → v.begun ≡ t.begun
        → (u : Threads) × SoonBegins t u
    then_turn v n first one found' at same =
        let (u, step, begun, clock) = due_turn v n deadline one found' (rw at due) in
        (u, (begun ∙ ap suc same, clock ∙ at, inr (v, first, same, step)))

    by_place :
        (a b c : ℕ)
        → t.spawning ≡ a
        → t.looping ≡ b
        → t.flushing ≡ c
        → workers t ≡ 1
        → (u : Threads) × SoonBegins t u
    by_place a (suc b) c p q r one =
        let (u, step, begun, clock) = due_turn t b deadline q found due in
        (u, (begun, clock, inl step))
    by_place (suc a) zero c p q r one =
        then_turn (record t { spawning = a; looping = suc t.looping }) t.looping (starts t a p) refl
          found refl refl
    by_place zero zero (suc c) p q r one =
        then_turn (record t { flushing = c; looping = suc t.looping }) t.looping (ends_flush t c r)
          refl found refl refl
    by_place zero zero zero p q r one = absurd (omega (arith, p, q, r, one))

-- A worker could not be started, its flush is due, and no worker is left.
record IsStuck (t : Threads) : Type 0 where
  nobody : workers t ≡ 0
  idle : t.schedule.worker_running ≡ false
  deadline : ℕ
  waiting : t.schedule.deadline ≡ some deadline
  due : deadline ≤ t.clock

schedule_flush-late :
    (now delay deadline : ℕ) (schedule : Schedule)
    → schedule.deadline ≡ some deadline
    → deadline ≤ now
    → schedule_flush now delay schedule ≡ (schedule, false)
unfolding schedule_flush is_earlier
schedule_flush-late now delay deadline schedule waiting due =
    let later : is_earlier (now + delay) schedule.deadline ≡ false =
      ap (is_earlier (now + delay)) waiting ∙ ground (arith, due) in
    rw later refl

Move-IsStuck : {t u : Threads} → Move t u → IsStuck t → (u.begun ≡ t.begun) × IsStuck u
Move-IsStuck (time_passes t n) s = (
  refl,
  record {
    nobody = s.nobody;
    idle = s.idle;
    deadline = s.deadline;
    waiting = s.waiting;
    due = omega (arith, s.due);
  },
)
Move-IsStuck (schedules t delay) s =
    rw (schedule_flush-late t.clock delay s.deadline t.schedule s.waiting s.due) (refl, s)
Move-IsStuck (starts t n one) s = absurd (omega (arith, one, s.nobody))
Move-IsStuck (fails_to_start t n one) s = absurd (omega (arith, one, s.nobody))
Move-IsStuck (turns t n one) s = absurd (omega (arith, one, s.nobody))
Move-IsStuck (ends_flush t n one) s = absurd (omega (arith, one, s.nobody))

Moves-IsStuck : {t u : Threads} → IsStuck t → Moves t u → (u.begun ≡ t.begun) × IsStuck u
Moves-IsStuck s still = (refl, s)
Moves-IsStuck s (moved r step) =
    let (same, before) = Moves-IsStuck s r in
    let (begun, after) = Move-IsStuck step before in (begun ∙ same, after)

-- Once the thread of the worker could not be started and the deadline that it was for has passed, no
-- flush is begun any more: every later call of `schedule_flush` returns before it looks for a worker.
pub failed_start_stops :
    {t u : Threads} (deadline : ℕ)
    → Moves idle_threads t
    → t.schedule.worker_running ≡ false
    → t.schedule.deadline ≡ some deadline
    → deadline ≤ t.clock
    → Moves t u
    → u.begun ≡ t.begun
failed_start_stops {t} deadline r idle waiting due later =
    (Moves-IsStuck
      (record {
        nobody = (Moves-IsManned r).counted ∙ rw idle refl;
        idle = idle;
        deadline = deadline;
        waiting = waiting;
        due = due;
      })
      later).0
