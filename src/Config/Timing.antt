-- ===== src/Config/Timing.antt =====
-- The numbers that start the loops.
use clean_architect.Common.Int.{ℤ, pos, negsuc, is_pos, wrap64, ◌*ℤ◌, wrap64-pos}
use clean_architect.Config.Settings.{
  SchedulerSettings, QueueSettings, concurrency, scheduler_run_every, queue_run_every, second,
}
use clean_architect.Common.{
  ℕ, zero, suc, ◌*◌, ◌^◌, ◌<◌, ◌≡◌, refl, ◌↔◌, inl, inr, true, arith, if◌then◌else◌, Bool-cases,
  nat_eq, text_eq,
}

concurrency-is_pos : (s : SchedulerSettings) → is_pos (concurrency s) ≡ true
unfolding concurrency
concurrency-is_pos s = elim (Bool-cases (is_pos s.concurrency_level)) [
  | inl e ↦ rw (e, concurrency) e
  | inr e ↦ rw (e, concurrency) (unfold is_pos in refl)
]

times : (a b : ℕ) → pos a *ℤ pos b ≡ pos (a * b)
unfolding ◌*ℤ◌
times a b = refl

product : (unit n : ℕ) → unit * n < 2 ^ 63 → wrap64 (pos unit *ℤ pos n) ≡ pos (unit * n)
product unit n h = rw (times unit n) (wrap64-pos (unit * n) h)

is_pos_iff : (n : ℕ) → (is_pos (pos n) ≡ true) ↔ (0 < n)
unfolding is_pos
is_pos_iff zero = ground arith
is_pos_iff (suc n) = ground arith

-- The integer is below the bound; a negative one always is.
abbrev pub IsBelow : ℕ → ℤ → Type 0
IsBelow bound (pos n) = n < bound
IsBelow bound (negsuc n) = Unit {0}

abbrev period : ℤ → ℤ
unfolding is_pos wrap64 ◌*ℤ◌
period seconds = if is_pos seconds then wrap64 (second *ℤ seconds) else second

period-is_pos : (seconds : ℤ) → IsBelow (2 ^ 33) seconds → is_pos (period seconds) ≡ true
unfolding is_pos period
period-is_pos (negsuc n) h = unfold is_pos in refl
period-is_pos (pos n) h = elim (Bool-cases (is_pos (pos n))) [
  | inl p ↦
      rw (p, product 1_000_000_000 n (omega arith))
        ((is_pos_iff (1_000_000_000 * n)).1 (omega (arith, (is_pos_iff n).0 p)))
  | inr p ↦ rw p (unfold is_pos in refl)
]

-- For all settings of the scheduler whose number of seconds, which may be zero or negative, is below
-- 2 ^ 33, so that the product fits: its concurrency and its period are positive. So the semaphore has
-- room, and the ticker that is made of the period does not panic.
pub scheduler-is_pos :
    (s : SchedulerSettings)
    → IsBelow (2 ^ 33) s.run_every_seconds
    → (is_pos (concurrency s) ≡ true) × (is_pos (scheduler_run_every s) ≡ true)
unfolding scheduler_run_every
scheduler-is_pos s h = (concurrency-is_pos s, period-is_pos s.run_every_seconds h)

-- The queue has no such guard: for a number of milliseconds below 2 ^ 43 its period is positive
-- exactly if the number is.
pub queue-is_pos :
    (q : QueueSettings) (n : ℕ)
    → q.run_every_milli_seconds ≡ pos n
    → n < 2 ^ 43
    → (is_pos (queue_run_every q) ≡ true) ↔ (0 < n)
unfolding queue_run_every
queue-is_pos q n e h =
    rw (e, queue_run_every)
      (rw (product 1_000_000 n (omega arith)) (
        λ p. omega (arith, (is_pos_iff (1_000_000 * n)).0 p),
        λ p. (is_pos_iff (1_000_000 * n)).1 (omega (arith, p)),
      ))
