-- ===== src/Scheduler.antt =====
-- src/core/scheduler.h: a fixed number of jobs, of which at most one is active. The reading of the clock
-- that an operation makes is its argument `now`. The list holds the first `size_` entries of the array;
-- the others are default jobs.
pub mod Deadlines
pub mod Choice
pub mod Entries
pub mod Invariant
pub mod Runs
mod Tests
use esp32_vag_data_server.Prelude.{
  ℕ, zero, suc, ◌+◌, ◌-◌, ◌*◌, ◌/◌, ◌%◌, ◌^◌, Bool, true, false, not, ◌||◌, List, [], ◌∷◌, ◌++◌,
  Option, none, some, leb, ltb, ◌==◌, if◌then◌else◌, add64, sub64, get_or, length, set,
}

-- `SchedulePolicy`.
pub data SchedulePolicy : Type 0 where
  startup periodic on_demand : SchedulePolicy

-- `SchedulerResult`.
pub data SchedulerResult : Type 0 where
  registered duplicate_id full invalid_config time_overflow requested already_pending :
      SchedulerResult
  not_found not_on_demand taken no_due_job busy completed no_active_job wrong_job : SchedulerResult

-- `Job`.
pub record Job : Type 0 where
  pub id : ℕ
  pub policy : SchedulePolicy
  pub period_ms : ℕ
  pub deadline_ms : ℕ
  pub pending : Bool

pub record Scheduler : Type 0 where
  pub capacity : ℕ
  pub jobs : List Job
  pub active_index : ℕ

abbrev pub default_job : Job
default_job = record { id = 0; policy = on_demand; period_ms = 0; deadline_ms = 0; pending = false }

abbrev pub is_periodic : SchedulePolicy → Bool
is_periodic startup = false
is_periodic periodic = true
is_periodic on_demand = false

abbrev pub is_startup : SchedulePolicy → Bool
is_startup startup = true
is_startup periodic = false
is_startup on_demand = false

abbrev pub is_on_demand : SchedulePolicy → Bool
is_on_demand startup = false
is_on_demand periodic = false
is_on_demand on_demand = true

-- `kMaxTime`.
abbrev pub k_max_time : ℕ
k_max_time = 2 ^ 64 - 1

-- The constructor.
unfoldable pub new : ℕ → Scheduler
new capacity = record { capacity = capacity; jobs = []; active_index = capacity }

-- `find`: the index of the job, or the number of jobs.
unfoldable pub find : ℕ → List Job → ℕ
find id [] = 0
find id (job ∷ jobs) = if job.id == id then 0 else suc (find id jobs)

-- `hasActiveJob`.
abbrev pub has_active_job : Scheduler → Bool
has_active_job s = not (s.active_index == s.capacity)

abbrev pub append_job : Job → Scheduler → SchedulerResult × Scheduler
append_job job s = (registered, record s { jobs = s.jobs ++ (job ∷ []) })

-- `registerJob`.
unfoldable pub register_job : ℕ → SchedulePolicy → ℕ → ℕ → Scheduler → SchedulerResult × Scheduler
register_job id policy period_ms now s =
    if (if is_periodic policy then period_ms == 0 else not (period_ms == 0))
    then (invalid_config, s)
    else if not (find id s.jobs == length s.jobs)
    then (duplicate_id, s)
    else if length s.jobs == s.capacity
    then (full, s)
    else if is_periodic policy
    then if ltb (k_max_time - now) period_ms
      then (time_overflow, s)
      else append_job (job (now + period_ms)) s
    else append_job (job 0) s
  where
    job : ℕ → Job
    job deadline = record {
      id = id;
      policy = policy;
      period_ms = period_ms;
      deadline_ms = deadline;
      pending = is_startup policy;
    }

-- `request`.
unfoldable pub request : ℕ → Scheduler → SchedulerResult × Scheduler
request id s =
    let index = find id s.jobs in
    let job = get_or s.jobs index default_job in
    if index == length s.jobs
    then (not_found, s)
    else if not (is_on_demand job.policy)
    then (not_on_demand, s)
    else if index == s.active_index || job.pending
    then (already_pending, s)
    else (requested, record s { jobs = set s.jobs index (record job { pending = true }) })

-- The test of `takeNextDue`.
abbrev pub is_due : ℕ → Job → Bool
is_due now job = if is_periodic job.policy then leb job.deadline_ms now else job.pending

-- The loop of `takeNextDue`: the index of the first job that is due.
unfoldable pub first_due : ℕ → List Job → Option ℕ
first_due now [] = none
first_due now (job ∷ jobs) =
    if is_due now job
    then some 0
    else elim (first_due now jobs) [ none ↦ none | some index ↦ some (suc index) ]

-- `takeNextDue`, with the identifier that it stores for the caller.
unfoldable pub take_next_due : ℕ → Scheduler → SchedulerResult × Option ℕ × Scheduler
take_next_due now s = if has_active_job s then (busy, none, s) else elim (first_due now s.jobs) [
  | none ↦ (no_due_job, none, s)
  | some index ↦
      (taken, some ((get_or s.jobs index default_job).id), record s { active_index = index })
]

-- The periodic branch of `complete`: the job with its next deadline, or nothing if none fits.
unfoldable pub next_deadline : ℕ → Job → Option ℕ
next_deadline now job =
    let elapsed_periods = sub64 now job.deadline_ms / job.period_ms in
    if leb ((k_max_time - job.deadline_ms) / job.period_ms) elapsed_periods
    then none
    else some (add64 job.deadline_ms ((elapsed_periods + 1) * job.period_ms))

-- The end of `complete`: the job's entry is written, and no job is active.
abbrev pub release : Job → Scheduler → SchedulerResult × Scheduler
release job s =
    (completed, record s { jobs = set s.jobs s.active_index job; active_index = s.capacity })

-- `complete`.
unfoldable pub complete : ℕ → ℕ → Scheduler → SchedulerResult × Scheduler
complete id now s =
    let job = get_or s.jobs s.active_index default_job in
    if not (has_active_job s)
    then (no_active_job, s)
    else if not (job.id == id)
    then (wrong_job, s)
    else if is_periodic job.policy
    then elim (next_deadline now job) [
      | none ↦ (time_overflow, s)
      | some deadline ↦ release (record job { deadline_ms = deadline }) s
    ]
    else release (record job { pending = false }) s
