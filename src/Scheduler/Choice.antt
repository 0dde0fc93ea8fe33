-- ===== src/Scheduler/Choice.antt =====
-- src/core/scheduler.h: `takeNextDue` takes the first job that is due.
use esp32_vag_data_server.Prelude.{
  ℕ, suc, ◌<◌, ◌≡◌, ◌⊎◌, inl, inr, refl, true, false, List, [], ◌∷◌, none, some, arith, length,
  get_or, take, All, Bool-cases,
}
use esp32_vag_data_server.Scheduler.{
  Scheduler, Job, default_job, is_due, first_due, take_next_due, taken, no_due_job,
}

abbrev pub NotDue : ℕ → Job → Type 0
NotDue now job = is_due now job ≡ false

-- Nothing is due, or the job at `index` is the first that is.
pub first_due-cases :
    (now : ℕ) (jobs : List Job)
    → ((first_due now jobs ≡ none) × All (NotDue now) jobs)
      ⊎ ((index : ℕ) × (first_due now jobs ≡ some index)
          × (index < length jobs)
          × (is_due now (get_or jobs index default_job) ≡ true)
          × All (NotDue now) (take index jobs))
unfolding first_due
first_due-cases now [] = inl (refl, tt)
first_due-cases now (job ∷ jobs) = elim (Bool-cases (is_due now job)) [
  | inl due ↦ inr (0, rw due, omega arith, due, tt)
  | inr not_due ↦ rw not_due (elim (first_due-cases now jobs) [
    | inl (e, h) ↦ inl (rw e, (refl, h))
    | inr (index, e, l, d, h) ↦ inr (suc index, rw e, omega arith, d, (not_due, h))
  ])
]

idle :
    (now : ℕ) (s : Scheduler)
    → s.active_index ≡ s.capacity
    → first_due now s.jobs ≡ none
    → take_next_due now s ≡ (no_due_job, none, s)
unfolding take_next_due
idle now s free e = ground arith

chosen :
    (now : ℕ) (s : Scheduler) (index : ℕ)
    → s.active_index ≡ s.capacity
    → first_due now s.jobs ≡ some index
    → take_next_due now s
      ≡ (taken, some ((get_or s.jobs index default_job).id), record s { active_index = index })
unfolding take_next_due
chosen now s index free e = ground arith

-- With no job active, `takeNextDue` either takes the first job that is due, whose index becomes the
-- active one, and returns that job's identifier; or no job is due, and the scheduler is as it was.
pub take_next_due-first :
    (now : ℕ) (s : Scheduler)
    → s.active_index ≡ s.capacity
    → let (result, id, s') = take_next_due now s in
      ((result ≡ taken)
        × (s'.active_index < length s.jobs)
        × (id ≡ some ((get_or s.jobs s'.active_index default_job).id))
        × (is_due now (get_or s.jobs s'.active_index default_job) ≡ true)
        × All (NotDue now) (take s'.active_index s.jobs)
        × (s'.jobs ≡ s.jobs))
      ⊎ ((result ≡ no_due_job) × (id ≡ none) × All (NotDue now) s.jobs × (s' ≡ s))
take_next_due-first now s free = elim (first_due-cases now s.jobs) [
  | inl (e, h) ↦ rw (idle now s free e) (inr (refl, refl, h, refl))
  | inr (index, e, l, d, h) ↦ rw (chosen now s index free e) (inl (refl, l, refl, d, h, refl))
]
