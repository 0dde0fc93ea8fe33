-- ===== src/Scheduler/Tests.antt =====
-- src/core/scheduler.h: the theorems at concrete inputs.
use esp32_vag_data_server.Prelude.{
  ℕ, ◌+◌, ◌-◌, ◌*◌, ◌/◌, ◌^◌, ◌≤◌, ◌<◌, ◌≡◌, ◌⊎◌, refl, true, false, List, [], ◌∷◌, none, some,
  arith, length, get_or, take, All,
}
use esp32_vag_data_server.Scheduler.{
  Scheduler, Job, startup, periodic, on_demand, default_job, new, register_job, find, take_next_due,
  first_due, is_due, complete, next_deadline, taken, no_due_job,
}
use esp32_vag_data_server.Scheduler.Deadlines.{next_deadline-some}
use esp32_vag_data_server.Scheduler.Choice.{NotDue, take_next_due-first}
use esp32_vag_data_server.Scheduler.Entries.{IsSound, IsUnique}
use esp32_vag_data_server.Scheduler.Runs.{
  Call, registers, takes, completes, perform, perform_all, perform_all-new-IsOrderly,
}

-- Every 100 ms, due at 1000.
abbrev ticking : Job
ticking = record { id = 7; policy = periodic; period_ms = 100; deadline_ms = 1000; pending = false }

-- The same at the end of the 64-bit clock.
abbrev late : Job
late = record ticking { deadline_ms = 2 ^ 64 - 50 }

next_deadline-some_example :
    (1250 < 1300)
    × (1300 ≤ 1250 + ticking.period_ms)
    × (1300 < 2 ^ 64)
    × (1300
        ≡ ticking.deadline_ms
          + ((1250 - ticking.deadline_ms) / ticking.period_ms + 1) * ticking.period_ms)
unfolding next_deadline
next_deadline-some_example =
    next_deadline-some 1250 ticking {next = 1300} (omega arith) (omega arith) (omega arith) refl

abbrev two_jobs : Scheduler
two_jobs = record { capacity = 4; jobs = default_job ∷ ticking ∷ []; active_index = 4 }

take_next_due-first_example :
    let (result, id, s) = take_next_due 1250 two_jobs in
    ((result ≡ taken)
      × (s.active_index < 2)
      × (id ≡ some ((get_or two_jobs.jobs s.active_index default_job).id))
      × (is_due 1250 (get_or two_jobs.jobs s.active_index default_job) ≡ true)
      × All (NotDue 1250) (take s.active_index two_jobs.jobs)
      × (s.jobs ≡ two_jobs.jobs))
    ⊎ ((result ≡ no_due_job) × (id ≡ none) × All (NotDue 1250) two_jobs.jobs × (s ≡ two_jobs))
take_next_due-first_example = take_next_due-first 1250 two_jobs refl

abbrev day : List (ℕ × Call)
day =
    (0, registers 1 startup 0)
    ∷ (5, registers 7 periodic 100)
    ∷ (1, registers 7 on_demand 0)
    ∷ (1, takes)
    ∷ (300, completes 1)
    ∷ (1, takes)
    ∷ (1, completes 7)
    ∷ (1, takes)
    ∷ []

day_test :
    let (end, s) = perform_all day 0 (new 2) in
    (end ≡ 310)
    × (length s.jobs ≡ 2)
    × (s.active_index ≡ 2)
    × ((get_or s.jobs 1 default_job).deadline_ms ≡ 405)
unfolding new perform_all perform register_job find take_next_due first_due complete next_deadline
day_test = (refl, refl, refl, refl)

perform_all-new-IsOrderly_example :
    let (end, s) = perform_all day 0 (new 2) in
    (length s.jobs ≤ s.capacity)
    × ((s.active_index ≡ s.capacity)
        ⊎ ((s.active_index < length s.jobs)
            × ((get_or s.jobs s.active_index default_job).deadline_ms ≤ end)))
    × All IsSound s.jobs
    × IsUnique s.jobs
unfolding perform_all
perform_all-new-IsOrderly_example = perform_all-new-IsOrderly day 0 2 (omega arith)
