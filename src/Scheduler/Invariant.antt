-- ===== src/Scheduler/Invariant.antt =====
-- src/core/scheduler.h: what holds of a scheduler between two calls, and that every call keeps it.
use esp32_vag_data_server.Prelude.{
  ℕ, ◌+◌, ◌^◌, ◌≤◌, ◌<◌, ◌≡◌, ◌⊎◌, inl, inr, refl, sym, subst, true, false, List, [], ◌∷◌, ◌++◌,
  none, some, arith, length, get_or, set, length-set, length-append, All, leb→le,
}
use esp32_vag_data_server.Scheduler.{
  Scheduler, Job, SchedulePolicy, default_job, find, is_due, new, register_job, request,
  take_next_due, complete, next_deadline, is_startup,
}
use esp32_vag_data_server.Scheduler.Deadlines.{next_deadline-some}
use esp32_vag_data_server.Scheduler.Choice.{first_due-cases}
use esp32_vag_data_server.Scheduler.Entries.{
  IsSound, IsUnique, All-set, All-append_job, All-get_or, set-IsUnique, append-IsUnique,
  get_or-append_job, deadline-set,
}

-- A scheduler at the time `now`: no more jobs than its capacity, and an active job, if there is one, is
-- in the list with its deadline behind it.
pub record Inv (now : ℕ) (s : Scheduler) : Type 0 where
  pub bounded : length s.jobs ≤ s.capacity
  pub active :
      (s.active_index ≡ s.capacity)
      ⊎ ((s.active_index < length s.jobs)
          × ((get_or s.jobs s.active_index default_job).deadline_ms ≤ now))
  pub sound : All IsSound s.jobs
  pub unique : IsUnique s.jobs

append-Inv :
    (now : ℕ) (job : Job) {s : Scheduler}
    → find job.id s.jobs ≡ length s.jobs
    → length s.jobs < s.capacity
    → IsSound job
    → Inv now s
    → Inv now (record s { jobs = s.jobs ++ (job ∷ []) })
append-Inv now job {s} f l p v = record {
  bounded = omega (arith, length-append {0} s.jobs (job ∷ []));
  active = elim v.active [
    | inl e ↦ inl e
    | inr (i, d) ↦ inr (
      omega (arith, length-append {0} s.jobs (job ∷ [])),
      subst (λ j. j.deadline_ms ≤ now) (sym (get_or-append_job s.jobs s.active_index job i)) d,
    )
  ];
  sound = All-append_job IsSound s.jobs job v.sound p;
  unique = append-IsUnique s.jobs job f v.unique;
}

-- An entry rewritten by a sound job of the same identifier and deadline.
set-Inv :
    (now i : ℕ) (job : Job) {s : Scheduler}
    → job.id ≡ (get_or s.jobs i default_job).id
    → job.deadline_ms ≡ (get_or s.jobs i default_job).deadline_ms
    → IsSound job
    → Inv now s
    → Inv now (record s { jobs = set s.jobs i job })
set-Inv now i job {s} e d p v = record {
  bounded = omega (arith, length-set {0} s.jobs i job, v.bounded);
  active =
      omega
        (arith, v.active, length-set {0} s.jobs i job, deadline-set s.jobs i job s.active_index d);
  sound = All-set IsSound s.jobs i job v.sound p;
  unique = set-IsUnique s.jobs i job e v.unique;
}

-- The active entry rewritten by a sound job of the same identifier, and no job active.
release-Inv :
    (now : ℕ) (job : Job) {s : Scheduler}
    → job.id ≡ (get_or s.jobs s.active_index default_job).id
    → IsSound job
    → Inv now s
    → Inv now (record s { jobs = set s.jobs s.active_index job; active_index = s.capacity })
release-Inv now job {s} e p v = record {
  bounded = omega (arith, length-set {0} s.jobs s.active_index job, v.bounded);
  active = inl refl;
  sound = All-set IsSound s.jobs s.active_index job v.sound p;
  unique = set-IsUnique s.jobs s.active_index job e v.unique;
}

pub register_job-Inv :
    (id : ℕ) (policy : SchedulePolicy) (period_ms now : ℕ) (s : Scheduler)
    → now < 2 ^ 64
    → Inv now s
    → Inv now (register_job id policy period_ms now s).1
unfolding register_job
register_job-Inv id policy period_ms now s b v =
    ground (arith, append-Inv now (job (now + period_ms)) {s = s}, append-Inv now (job 0) {s = s})
  where
    job : ℕ → Job
    job deadline = record {
      id = id;
      policy = policy;
      period_ms = period_ms;
      deadline_ms = deadline;
      pending = is_startup policy;
    }

find-le : (id : ℕ) (jobs : List Job) → find id jobs ≤ length jobs
unfolding find
find-le id [] = omega arith
find-le id (job ∷ jobs) = ground (arith, find-le id jobs)

pub request-Inv : (id now : ℕ) (s : Scheduler) → Inv now s → Inv now (request id s).1
unfolding request
request-Inv id now s v =
    let index = find id s.jobs in
    let job = get_or s.jobs index default_job in
    ground (
      arith,
      set-Inv now index (record job { pending = true }) {s = s},
      All-get_or IsSound s.jobs index,
      find-le id s.jobs,
    )

-- A job that is due has its deadline behind it: a job that is not periodic has the deadline 0.
due-deadline : (now : ℕ) (job : Job) → IsSound job → is_due now job ≡ true → job.deadline_ms ≤ now
due-deadline now job p d = ground (arith, p.no_period, leb→le job.deadline_ms now)

pub take_next_due-Inv : (now : ℕ) (s : Scheduler) → Inv now s → Inv now (take_next_due now s).2
unfolding take_next_due
take_next_due-Inv now s v = elim (first_due-cases now s.jobs) [
  | inl (e, h) ↦ ground arith
  | inr (index, e, l, d, h) ↦
      let due =
        due-deadline now (get_or s.jobs index default_job)
          (All-get_or IsSound s.jobs index l v.sound) d in
      ground arith
]

next_deadline-cases :
    (now : ℕ) (job : Job)
    → (next_deadline now job ≡ none) ⊎ ((next : ℕ) × (next_deadline now job ≡ some next))
next_deadline-cases now job =
    elim (next_deadline now job) as (λ next. (next ≡ none) ⊎ ((n : ℕ) × (next ≡ some n))) [
      | none ↦ inl refl
      | some n ↦ inr (n, refl)
    ]

pub complete-Inv :
    (id now : ℕ) (s : Scheduler) → now < 2 ^ 64 → Inv now s → Inv now (complete id now s).1
unfolding complete
complete-Inv id now s b v =
    let job = get_or s.jobs s.active_index default_job in
    let p : s.active_index < length s.jobs → IsSound job =
      λ l. All-get_or IsSound s.jobs s.active_index l v.sound in
    elim (next_deadline-cases now job) [
      | inl e ↦ ground (arith, release-Inv now (record job { pending = false }) {s = s}, p)
      | inr (next, e) ↦ ground (
        arith,
        release-Inv now (record job { deadline_ms = next }) {s = s},
        release-Inv now (record job { pending = false }) {s = s},
        p,
        next_deadline-some now job {next = next},
      )
    ]

-- Time passes, and nothing else.
pub later-Inv : (now delay : ℕ) {s : Scheduler} → Inv now s → Inv (now + delay) s
later-Inv now delay v = record {
  bounded = v.bounded;
  active = omega (arith, v.active);
  sound = v.sound;
  unique = v.unique;
}

pub new-Inv : (now capacity : ℕ) → Inv now (new capacity)
unfolding new
new-Inv now capacity = record { bounded = omega arith; active = inl refl; sound = tt; unique = tt }
