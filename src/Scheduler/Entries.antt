-- ===== src/Scheduler/Entries.antt =====
-- src/core/scheduler.h: what holds of the entries of the list of jobs, and of an entry added or rewritten.
use esp32_vag_data_server.Prelude.{
  ℕ, zero, suc, ◌^◌, ◌<◌, ◌≡◌, ◌≢◌, refl, sym, subst, ◌∙◌, true, false, List, [], ◌∷◌, ◌++◌, arith,
  length, get_or, set, All,
}
use esp32_vag_data_server.Scheduler.{Job, default_job, find, is_periodic}

-- A job on its own: a periodic job has a period, and a deadline that fits 64 bits; no other job has a
-- period or a deadline.
pub record IsSound (job : Job) : Type 0 where
  pub period : is_periodic job.policy ≡ true → (0 < job.period_ms) × (job.deadline_ms < 2 ^ 64)
  pub no_period : is_periodic job.policy ≡ false → (job.period_ms ≡ 0) × (job.deadline_ms ≡ 0)

-- No two jobs have one identifier.
abbrev pub IsUnique : List Job → Type 0
IsUnique [] = Unit {0}
IsUnique (job ∷ jobs) = All (λ other. other.id ≢ job.id) jobs × IsUnique jobs

pub All-set {κ} :
    (P : Job → Type κ) (jobs : List Job) (i : ℕ) (job : Job)
    → All P jobs
    → P job
    → All P (set jobs i job)
All-set P [] i job h p = h
All-set P (x ∷ xs) zero job h p = (p, h.1)
All-set P (x ∷ xs) (suc i) job h p = (h.0, All-set P xs i job h.1 p)

pub All-append_job {κ} :
    (P : Job → Type κ) (jobs : List Job) (job : Job)
    → All P jobs
    → P job
    → All P (jobs ++ (job ∷ []))
All-append_job P [] job h p = (p, tt)
All-append_job P (x ∷ xs) job h p = (h.0, All-append_job P xs job h.1 p)

pub All-get_or {κ} :
    (P : Job → Type κ) (jobs : List Job) (i : ℕ)
    → i < length jobs
    → All P jobs
    → P (get_or jobs i default_job)
All-get_or P [] i l h = elim l [ ]
All-get_or P (x ∷ xs) zero l h = h.0
All-get_or P (x ∷ xs) (suc i) l h = All-get_or P xs i (omega arith) h.1

-- An entry written anew keeps its identifier, or is written nowhere.
All-ne-set :
    (id : ℕ) (jobs : List Job) (i : ℕ) (job : Job)
    → job.id ≡ (get_or jobs i default_job).id
    → All (λ other. other.id ≢ id) jobs
    → All (λ other. other.id ≢ id) (set jobs i job)
All-ne-set id [] i job e h = h
All-ne-set id (x ∷ xs) zero job e h = ((λ k. h.0 (sym e ∙ k)), h.1)
All-ne-set id (x ∷ xs) (suc i) job e h = (h.0, All-ne-set id xs i job e h.1)

pub set-IsUnique :
    (jobs : List Job) (i : ℕ) (job : Job)
    → job.id ≡ (get_or jobs i default_job).id
    → IsUnique jobs
    → IsUnique (set jobs i job)
set-IsUnique [] i job e u = u
set-IsUnique (x ∷ xs) zero job e u = (subst (λ k. All (λ other. other.id ≢ k) xs) (sym e) u.0, u.1)
set-IsUnique (x ∷ xs) (suc i) job e u =
    (All-ne-set x.id xs i job e u.0, set-IsUnique xs i job e u.1)

pub append-IsUnique :
    (jobs : List Job) (job : Job)
    → find job.id jobs ≡ length jobs
    → IsUnique jobs
    → IsUnique (jobs ++ (job ∷ []))
unfolding find
append-IsUnique [] job f u = (tt, tt)
append-IsUnique (x ∷ xs) job f u = (
  All-append_job (λ other. other.id ≢ x.id) xs job u.0 (λ e. absent (sym e)),
  append-IsUnique xs job (ground (arith, absent)) u.1,
)
  where
    absent : x.id ≢ job.id
    absent = ground arith

pub get_or-append_job :
    (jobs : List Job) (i : ℕ) (job : Job)
    → i < length jobs
    → get_or (jobs ++ (job ∷ [])) i default_job ≡ get_or jobs i default_job
get_or-append_job [] i job l = elim l [ ]
get_or-append_job (x ∷ xs) zero job l = refl
get_or-append_job (x ∷ xs) (suc i) job l = get_or-append_job xs i job (omega arith)

-- An entry rewritten with its deadline kept leaves every deadline as it was.
pub deadline-set :
    (jobs : List Job) (i : ℕ) (job : Job) (k : ℕ)
    → job.deadline_ms ≡ (get_or jobs i default_job).deadline_ms
    → (get_or (set jobs i job) k default_job).deadline_ms ≡ (get_or jobs k default_job).deadline_ms
deadline-set [] i job k e = refl
deadline-set (x ∷ xs) zero job zero e = e
deadline-set (x ∷ xs) zero job (suc k) e = refl
deadline-set (x ∷ xs) (suc i) job zero e = refl
deadline-set (x ∷ xs) (suc i) job (suc k) e = deadline-set xs i job k e
