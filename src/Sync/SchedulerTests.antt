-- ===== src/Sync/SchedulerTests.antt =====
-- A flush that is scheduled on a new service, and a thread that could not be started.
use flux_bar.Sync.Scheduler.{is_earlier}
use flux_bar.Prelude.{◌+◌, ◌≤◌, ◌≡◌, refl, true, false, some, arith}
use flux_bar.Sync.Scheduler.{
  Threads, schedule_flush, Moves, still, moved, schedules, fails_to_start, time_passes,
  idle_threads, after_call, spawn_failed,
}
use flux_bar.Sync.SchedulerLaws.{schedule_flush-earliest, earliest, one_worker}
use flux_bar.Sync.SchedulerEnds.{SoonBegins, scheduled_begins, failed_start_stops}

abbrev scheduled : Threads
scheduled = after_call (schedule_flush 0 5 idle_threads.schedule) idle_threads

scheduled_run : Moves idle_threads scheduled
scheduled_run = moved still (schedules idle_threads 5)

abbrev due : Threads
due = record scheduled { clock = scheduled.clock + 7 }

due_run : Moves idle_threads due
due_run = moved scheduled_run (time_passes scheduled 7)

abbrev unstarted : Threads
unstarted = record due { spawning = 0; schedule = spawn_failed due.schedule; failed = true }

one_spawning : due.spawning ≡ 1
unfolding schedule_flush is_earlier
one_spawning = refl

unstarted_run : Moves idle_threads unstarted
unstarted_run = moved due_run (fails_to_start due 0 one_spawning)

schedule_flush-earliest_example :
    (schedule_flush 3 5 scheduled.schedule).0.deadline
    ≡ some (earliest scheduled.schedule.deadline 8)
schedule_flush-earliest_example = schedule_flush-earliest 3 5 scheduled.schedule

one_worker_example : due.spawning + due.looping + due.flushing ≤ 1
one_worker_example = one_worker due_run

due_deadline : due.schedule.deadline ≡ some 5
unfolding schedule_flush is_earlier
due_deadline = refl

scheduled_begins_example : (u : Threads) × SoonBegins due u
scheduled_begins_example = scheduled_begins 5 due_run refl due_deadline (omega arith)

unstarted_flag : unstarted.schedule.worker_running ≡ false
unfolding spawn_failed
unstarted_flag = refl

unstarted_deadline : unstarted.schedule.deadline ≡ some 5
unfolding spawn_failed schedule_flush is_earlier
unstarted_deadline = refl

failed_start_stops_example :
    (after_call (schedule_flush unstarted.clock 0 unstarted.schedule) unstarted).begun
    ≡ unstarted.begun
failed_start_stops_example =
    failed_start_stops 5 unstarted_run unstarted_flag unstarted_deadline (omega arith)
      (moved still (schedules unstarted 0))
