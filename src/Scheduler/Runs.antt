-- ===== src/Scheduler/Runs.antt =====
-- src/core/scheduler.h: calls of a scheduler, one after the other.
use esp32_vag_data_server.Prelude.{
  ℕ, ◌+◌, ◌^◌, ◌≤◌, ◌<◌, ◌≡◌, ◌⊎◌, List, [], ◌∷◌, arith, length, get_or, All,
}
use esp32_vag_data_server.Scheduler.{
  Scheduler, SchedulePolicy, default_job, new, register_job, request, take_next_due, complete,
}
use esp32_vag_data_server.Scheduler.Entries.{IsSound, IsUnique}
use esp32_vag_data_server.Scheduler.Invariant.{
  Inv, register_job-Inv, request-Inv, take_next_due-Inv, complete-Inv, later-Inv, new-Inv,
}

-- A call of the scheduler.
pub data Call : Type 0 where
  registers : (id : ℕ) → (policy : SchedulePolicy) → (period_ms : ℕ) → Call
  requests : (id : ℕ) → Call
  takes : Call
  completes : (id : ℕ) → Call

unfoldable pub perform : Call → ℕ → Scheduler → Scheduler
perform (registers id policy period_ms) now s = (register_job id policy period_ms now s).1
perform (requests id) now s = (request id s).1
perform takes now s = (take_next_due now s).2
perform (completes id) now s = (complete id now s).1

-- Calls one after the other, each with the time that passes before it: the time at the end, and the
-- scheduler.
unfoldable pub perform_all : List (ℕ × Call) → ℕ → Scheduler → ℕ × Scheduler
perform_all [] now s = (now, s)
perform_all ((delay, call) ∷ calls) now s =
    perform_all calls (now + delay) (perform call (now + delay) s)

perform-Inv :
    (call : Call) (now : ℕ) (s : Scheduler)
    → now < 2 ^ 64
    → Inv now s
    → Inv now (perform call now s)
unfolding perform
perform-Inv (registers id policy period_ms) now s b v =
    register_job-Inv id policy period_ms now s b v
perform-Inv (requests id) now s b v = request-Inv id now s v
perform-Inv takes now s b v = take_next_due-Inv now s v
perform-Inv (completes id) now s b v = complete-Inv id now s b v

perform_all-le :
    (calls : List (ℕ × Call)) (now : ℕ) (s : Scheduler) → now ≤ (perform_all calls now s).0
unfolding perform_all
perform_all-le [] now s = omega arith
perform_all-le ((delay, call) ∷ calls) now s =
    omega (arith, perform_all-le calls (now + delay) (perform call (now + delay) s))

perform_all-Inv :
    (calls : List (ℕ × Call)) (now : ℕ) (s : Scheduler)
    → (perform_all calls now s).0 < 2 ^ 64
    → Inv now s
    → Inv (perform_all calls now s).0 (perform_all calls now s).1
unfolding perform_all
perform_all-Inv [] now s b v = v
perform_all-Inv ((delay, call) ∷ calls) now s b v =
    let at : ℕ = now + delay in
    let next : Scheduler = perform call at s in
    perform_all-Inv calls at next b
      (perform-Inv call at s (omega (arith, perform_all-le calls at next)) (later-Inv now delay v))

-- A new scheduler after any calls, at times that do not go back and stay within 64 bits: no more jobs
-- than its capacity; no job is active, or the active index is that of a job whose deadline is behind the
-- clock; every periodic job has a period above 0 and a deadline within 64 bits, and any other job has
-- neither; no two jobs have one identifier.
pub perform_all-new-IsOrderly :
    (calls : List (ℕ × Call)) (now capacity : ℕ)
    → (perform_all calls now (new capacity)).0 < 2 ^ 64
    → let (end, s) = perform_all calls now (new capacity) in
      (length s.jobs ≤ s.capacity)
      × ((s.active_index ≡ s.capacity)
          ⊎ ((s.active_index < length s.jobs)
              × ((get_or s.jobs s.active_index default_job).deadline_ms ≤ end)))
      × All IsSound s.jobs
      × IsUnique s.jobs
perform_all-new-IsOrderly calls now capacity b =
    let v = perform_all-Inv calls now (new capacity) b (new-Inv now capacity) in
    (v.bounded, v.active, v.sound, v.unique)
