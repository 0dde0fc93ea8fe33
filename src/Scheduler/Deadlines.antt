-- ===== src/Scheduler/Deadlines.antt =====
-- src/core/scheduler.h: the next deadline of a periodic job.
use esp32_vag_data_server.Prelude.{
  ℕ, ◌+◌, ◌-◌, ◌*◌, ◌/◌, ◌^◌, ◌≤◌, ◌<◌, ◌≡◌, none, some, arith, sub64, add64,
}
use esp32_vag_data_server.Scheduler.{Job, k_max_time, next_deadline}
use native.Mathlib.Nat.{div-add-mod', mul-div-le, mod-lt}
use native.Mathlib.Decide.{dec_lt}

-- `next_deadline` without the machine's wrap-around.
next_deadline-inverse :
    (now : ℕ) (job : Job) {next : ℕ}
    → job.deadline_ms ≤ now
    → now < 2 ^ 64
    → next_deadline now job ≡ some next
    → ((now - job.deadline_ms) / job.period_ms < (k_max_time - job.deadline_ms) / job.period_ms)
      × (next
          ≡ add64 job.deadline_ms (((now - job.deadline_ms) / job.period_ms + 1) * job.period_ms))
unfolding next_deadline
next_deadline-inverse now job d b h =
    let exact : sub64 now job.deadline_ms ≡ now - job.deadline_ms = omega arith in
    ground (arith, exact)

next_deadline-limit :
    (now : ℕ) (job : Job)
    → job.deadline_ms ≤ now
    → now < 2 ^ 64
    → next_deadline now job ≡ none
    → (k_max_time - job.deadline_ms) / job.period_ms ≤ (now - job.deadline_ms) / job.period_ms
unfolding next_deadline
next_deadline-limit now job d b h =
    let exact : sub64 now job.deadline_ms ≡ now - job.deadline_ms = omega arith in
    ground (arith, exact)

mul_mono : (a b p : ℕ) → a ≤ b → a * p ≤ b * p
mul_mono a b p h = grind arith

lt_of_mul : (a b p : ℕ) → a * p < b * p → a < b
lt_of_mul a b p h = elim (dec_lt a b) [
  | yes l ↦ l
  | no g ↦ absurd (omega (arith, mul_mono b a p (omega arith)))
]

-- The deadline that `complete` sets for a periodic job whose deadline has come: it lies behind `now`, by
-- no more than one period, a whole number of periods behind the old one, and within 64 bits.
pub next_deadline-some :
    (now : ℕ) (job : Job) {next : ℕ}
    → 0 < job.period_ms
    → job.deadline_ms ≤ now
    → now < 2 ^ 64
    → next_deadline now job ≡ some next
    → (now < next)
      × (next ≤ now + job.period_ms)
      × (next < 2 ^ 64)
      × (next ≡ job.deadline_ms + ((now - job.deadline_ms) / job.period_ms + 1) * job.period_ms)
next_deadline-some now job {next} p d b h =
    let inverse = next_deadline-inverse now job d b h in
    let e : ℕ = now - job.deadline_ms in
    let q : ℕ = e / job.period_ms in
    let m : ℕ = (k_max_time - job.deadline_ms) / job.period_ms in
    let split = div-add-mod' e job.period_ms in
    let small = mod-lt e {m = job.period_ms} p in
    let fits = mul-div-le (k_max_time - job.deadline_ms) job.period_ms in
    let room = mul_mono (q + 1) m job.period_ms (omega (arith, inverse.0)) in
    omega (arith, inverse.1, split, small, fits, room)

-- Where `complete` finds no deadline, none is left: every later multiple of the period lies beyond 64
-- bits.
pub next_deadline-none :
    (now k : ℕ) (job : Job)
    → 0 < job.period_ms
    → job.deadline_ms ≤ now
    → now < 2 ^ 64
    → next_deadline now job ≡ none
    → now < job.deadline_ms + k * job.period_ms
    → 2 ^ 64 ≤ job.deadline_ms + k * job.period_ms
next_deadline-none now k job p d b h l =
    let e : ℕ = now - job.deadline_ms in
    let q : ℕ = e / job.period_ms in
    let n : ℕ = k_max_time - job.deadline_ms in
    let limit = next_deadline-limit now job d b h in
    let below = mul-div-le e job.period_ms in
    let split = div-add-mod' n job.period_ms in
    let small = mod-lt n {m = job.period_ms} p in
    let more = lt_of_mul q k job.period_ms (omega (arith, below)) in
    let past = mul_mono (n / job.period_ms + 1) k job.period_ms (omega (arith, limit, more)) in
    omega (arith, split, small, past)
