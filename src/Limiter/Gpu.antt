-- ===== src/Limiter/Gpu.antt =====
-- internal/concurrencylimit/limiter.go, one semaphore for each GPU. A reading of a GPU's free memory is
-- given to each passage under its mutex; a missing closure reads 0. The share of a GPU is exact for
-- ceilings below 2 ^ 53, where the division of floats rounds to it, and the counter of the round-robin is
-- below 2 ^ 63. The hook of the tests is left out.
pub mod Total
use native.Mathlib.Nat.{add-zero}
use nexus_proxy.Shared.{
  ℕ, zero, suc, ◌+◌, ◌-◌, ◌*◌, ◌/◌, ◌%◌, ◌≤◌, ◌<◌, ◌≡◌, refl, ap, Bool, true, false, not, List, [],
  ◌∷◌, length, set, replicate, All, ◌⊎◌, inl, inr, arith, ltb, leb, ◌==◌, ◌||◌, ◌&&◌, Bool-cases,
  if◌then◌else◌,
}
use nexus_proxy.Shared.Int.{ℤ, pos, pos_part, ltb_ℤ, nonpos}
use nexus_proxy.Limiter.{
  default_bytes_per_slot, Turn, acquired, cancelled, waits, Wake, signal, broadcast,
}

pub record GpuLimiter : Type 0 where
  pub ceiling : ℤ
  pub bytes_per_slot : ℤ
  pub gpu_count : ℕ
  pub ceiling_per_gpu : ℕ
  pub in_flight : List ℕ
  pub rr : ℕ

-- The zero value, which is disabled.
abbrev pub disabled : GpuLimiter
disabled = record {
  ceiling = pos 0;
  bytes_per_slot = pos 0;
  gpu_count = 0;
  ceiling_per_gpu = 0;
  in_flight = [];
  rr = 0;
}

-- `NewVRAMLimiter`.
unfoldable pub new_vram_limiter : ℤ → ℤ → ℕ → GpuLimiter
new_vram_limiter ceiling bytes gpu_count =
    if nonpos ceiling || (gpu_count == 0) then disabled else record {
      ceiling = ceiling;
      bytes_per_slot = if nonpos bytes then default_bytes_per_slot else bytes;
      gpu_count = gpu_count;
      ceiling_per_gpu = (pos_part ceiling + gpu_count - 1) / gpu_count;
      in_flight = replicate gpu_count 0;
      rr = 0;
    }

-- `effectivePerGPULocked`, of the reading of that GPU.
unfoldable pub effective_per_gpu : GpuLimiter → ℤ → ℕ
effective_per_gpu g free =
    let slots = pos_part free / pos_part g.bytes_per_slot in
    let raised = if ltb slots 1 then 1 else slots in
    if nonpos g.ceiling
    then 0
    else (if not (nonpos free) && not (nonpos g.bytes_per_slot)
        then (if ltb g.ceiling_per_gpu raised then g.ceiling_per_gpu else raised)
        else g.ceiling_per_gpu)

abbrev pub slot_at : List ℕ → ℕ → ℕ
slot_at [] i = 0
slot_at (n ∷ ns) zero = n
slot_at (n ∷ ns) (suc i) = slot_at ns i

-- One turn of the loops in `tryAcquire` and `acquireSingle`.
unfoldable pub try_gpu : GpuLimiter → ℕ → ℤ → Bool → GpuLimiter × Turn
try_gpu g gpu free ctx_done =
    if ctx_done
    then (g, cancelled)
    else (if ltb (slot_at g.in_flight gpu) (effective_per_gpu g free)
        then (record g { in_flight = set g.in_flight gpu (slot_at g.in_flight gpu + 1) }, acquired)
        else (g, waits))

-- `releaseGPU`.
unfoldable pub release_gpu : GpuLimiter → ℕ → ℤ → ℤ → GpuLimiter × Wake
release_gpu g gpu free_before free_after = (
  record g { in_flight = set g.in_flight gpu (slot_at g.in_flight gpu - 1) },
  if ltb (effective_per_gpu g free_before) (effective_per_gpu g free_after)
      then broadcast
      else signal,
)

-- Where a caller of `AcquireGPU` stands: at an attempt of its loop, in the last `acquireSingle`, or
-- returned, with the GPU, with nothing to release, or with the error of its context.
pub data Caller : Type 0 where
  attempt : ℕ → Caller
  last_attempt : Caller
  got : ℕ → Caller
  unlimited : Caller
  gave_up : Caller

-- `AcquireGPU` up to its first turn: the start of the round, and where the caller stands.
unfoldable pub enter : GpuLimiter → GpuLimiter × ℕ × Caller
enter g =
    if nonpos g.ceiling
    then (g, 0, unlimited)
    else (if g.gpu_count == 1
        then (g, 0, last_attempt)
        else (record g { rr = g.rr + 1 }, g.rr, attempt 0))

abbrev pub after_attempt : ℕ → ℕ → Turn → Caller
after_attempt gpu k acquired = got gpu
after_attempt gpu k cancelled = attempt (k + 1)
after_attempt gpu k waits = attempt k

abbrev pub after_last : ℕ → Turn → Caller
after_last gpu acquired = got gpu
after_last gpu cancelled = gave_up
after_last gpu waits = last_attempt

-- One turn of a caller whose round starts at `start`, of the readings of all GPUs.
unfoldable pub caller_turn : GpuLimiter → ℕ → (ℕ → ℤ) → Bool → Caller → GpuLimiter × Caller
caller_turn g start free ctx_done (attempt k) =
    let gpu = (start + k) % g.gpu_count in
    let (g', turn) = try_gpu g gpu (free gpu) ctx_done in
    if ltb k g.gpu_count then (g', after_attempt gpu k turn) else (g, last_attempt)
caller_turn g start free ctx_done last_attempt =
    let gpu = start % g.gpu_count in
    let (g', turn) = try_gpu g gpu (free gpu) ctx_done in (g', after_last gpu turn)
caller_turn g start free ctx_done (got gpu) = (g, got gpu)
caller_turn g start free ctx_done unlimited = (g, unlimited)
caller_turn g start free ctx_done gave_up = (g, gave_up)

-- The turns of one caller, at the limiters and readings that it finds when it is woken.
pub turns : ℕ → ℕ → List (GpuLimiter × (ℕ → ℤ)) → Caller → Caller
turns n start [] c = c
turns n start ((g, free) ∷ views) c =
    turns n start views (caller_turn (record g { gpu_count = n }) start free false c).1

first_turn :
    (g : GpuLimiter) (start : ℕ) (free : ℕ → ℤ)
    → 0 < g.gpu_count
    → ((caller_turn g start free false (attempt 0)).1 ≡ attempt 0)
      ⊎ ((caller_turn g start free false (attempt 0)).1 ≡ got (start % g.gpu_count))
unfolding caller_turn try_gpu
first_turn g start free h = ground (arith, add-zero start)

turns-got :
    (n start : ℕ) (views : List (GpuLimiter × (ℕ → ℤ))) (gpu : ℕ)
    → turns n start views (got gpu) ≡ got gpu
unfolding turns caller_turn
turns-got n start [] gpu = refl
turns-got n start ((g, free) ∷ views) gpu = turns-got n start views gpu

-- A caller with a live context never gets past its first GPU: through any number of turns, whatever the
-- other GPUs have free at each of them, it waits for the GPU its round starts at or holds a slot of it.
pub first_gpu_only :
    (n start : ℕ) (views : List (GpuLimiter × (ℕ → ℤ)))
    → 0 < n
    → (turns n start views (attempt 0) ≡ attempt 0)
      ⊎ (turns n start views (attempt 0) ≡ got (start % n))
unfolding turns
first_gpu_only n start [] h = inl refl
first_gpu_only n start ((g, free) ∷ views) h =
    elim (first_turn (record g { gpu_count = n }) start free h) [
      | inl again ↦ rw again (first_gpu_only n start views h)
      | inr held ↦ rw held (inr (turns-got n start views (start % n)))
    ]
