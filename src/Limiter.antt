-- ===== src/Limiter.antt =====
-- internal/concurrencylimit/limiter.go: how many requests the local model serves at once. A reading of the
-- free video memory is given to each call that makes one; a missing closure reads 0. Each function is one
-- passage under the mutex; the logs are left out.
pub mod Wakeups
pub mod Gpu
mod Examples
use native.Mathlib.Nat.{le-div_iff_mul-le}
use nexus_proxy.Shared.{
  inl, inr, ℕ, ◌+◌, ◌-◌, ◌≤◌, ◌/◌, ◌*◌, ◌⊎◌, ◌≡◌, refl, Bool, true, false, not, ◌||◌, arith, ltb,
  if◌then◌else◌,
}
use nexus_proxy.Shared.Int.{ℤ, pos, pos_part, ltb_ℤ, nonpos, ◌≤ℤ◌}

pub record Limiter : Type 0 where
  pub ceiling : ℤ
  pub bytes_per_slot : ℤ
  pub in_flight : ℕ

abbrev pub default_bytes_per_slot : ℤ
default_bytes_per_slot = pos 2147483648

-- `New`.
unfoldable pub new_limiter : ℤ → ℤ → Limiter
new_limiter ceiling bytes_per_slot = record {
  ceiling = ceiling;
  bytes_per_slot = if nonpos bytes_per_slot then default_bytes_per_slot else bytes_per_slot;
  in_flight = 0;
}

-- The cases of a reading; both operands of the division are positive.
unfoldable pub slots_for : ℤ → ℤ → ℤ → ℤ
slots_for ceiling bytes free =
    let slots = pos (pos_part free / pos_part bytes) in
    let raised = if ltb_ℤ slots (pos 1) then pos 1 else slots in
    if nonpos free || nonpos bytes
    then ceiling
    else (if ltb_ℤ ceiling raised then ceiling else raised)

-- `effectiveLocked`.
unfoldable pub effective : Limiter → ℤ → ℤ
unfolding slots_for
effective l free = if nonpos l.ceiling then pos 0 else slots_for l.ceiling l.bytes_per_slot free

-- What one turn of the loop in `Acquire` comes to.
pub data Turn : Type 0 where
  acquired cancelled waits : Turn

-- One turn of the loop in `Acquire`, of the state of the context.
unfoldable pub try_acquire : Limiter → ℤ → Bool → Limiter × Turn
try_acquire l free ctx_done =
    if ctx_done
    then (l, cancelled)
    else (if ltb_ℤ (pos l.in_flight) (effective l free)
        then (record l { in_flight = l.in_flight + 1 }, acquired)
        else (l, waits))

-- Whom a release wakes: one waiter, or all.
pub data Wake : Type 0 where
  signal broadcast : Wake

-- `release`, of the two readings that it makes.
unfoldable pub release : Limiter → ℤ → ℤ → Limiter × Wake
release l free_before free_after = (
  record l { in_flight = l.in_flight - 1 },
  if ltb_ℤ (effective l free_before) (effective l free_after) then broadcast else signal,
)

pub try_acquire-acquired :
    (l : Limiter) (free : ℤ)
    → ltb_ℤ (pos l.in_flight) (effective l free) ≡ true
    → try_acquire l free false ≡ (record l { in_flight = l.in_flight + 1 }, acquired)
unfolding try_acquire
try_acquire-acquired l free h = rw h

pub try_acquire-waits :
    (l : Limiter) (free : ℤ)
    → ltb_ℤ (pos l.in_flight) (effective l free) ≡ false
    → try_acquire l free false ≡ (l, waits)
unfolding try_acquire
try_acquire-waits l free h = rw h

-- With a positive ceiling the slots lie between 1 and the ceiling, for every reading.
pub effective_bounds :
    (l : Limiter) (free : ℤ)
    → nonpos l.ceiling ≡ false
    → (pos 1 ≤ℤ effective l free) × (effective l free ≤ℤ l.ceiling)
unfolding effective
effective_bounds l free h = ground arith

effective_quotient :
    (l : Limiter) (free bytes : ℕ)
    → nonpos l.ceiling ≡ false
    → l.bytes_per_slot ≡ pos bytes
    → 1 ≤ free
    → 1 ≤ bytes
    → (effective l (pos free) ≡ pos 1) ⊎ (pos_part (effective l (pos free)) ≤ free / bytes)
unfolding effective
effective_quotient l free bytes h e f b = ground arith

-- With a positive ceiling and a positive size of a slot, when the memory can be read, the slots never
-- reserve more than what is free, unless there is one slot.
pub effective_reserves :
    (l : Limiter) (free bytes : ℕ)
    → nonpos l.ceiling ≡ false
    → l.bytes_per_slot ≡ pos bytes
    → 1 ≤ free
    → 1 ≤ bytes
    → (effective l (pos free) ≡ pos 1) ⊎ (pos_part (effective l (pos free)) * bytes ≤ free)
effective_reserves l free bytes h e f b = elim (effective_quotient l free bytes h e f b) [
  | inl one ↦ inl one
  | inr few ↦ inr ((le-div_iff_mul-le b).0 few)
]
