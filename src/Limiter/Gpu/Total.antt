-- ===== src/Limiter/Gpu/Total.antt =====
-- internal/concurrencylimit/limiter.go, the slots of all GPUs together.
use native.Mathlib.Nat.{div-mul-le_self}
use nexus_proxy.Shared.{
  ◌⊎◌, inl, inr, ℕ, zero, suc, ◌+◌, ◌-◌, ◌*◌, ◌/◌, ◌≤◌, ◌<◌, ◌≡◌, refl, ap, ◌∙◌, Bool, false, List,
  [], ◌∷◌, length, set, replicate, arith, leb, ◌==◌, ◌||◌,
}
use nexus_proxy.Shared.Int.{ℤ, pos}
use nexus_proxy.Limiter.Gpu.{
  GpuLimiter, new_vram_limiter, effective_per_gpu, slot_at, try_gpu, release_gpu,
}

-- A call of one of the two operations that change the slots.
pub data Op : Type 0 where
  tries : ℕ → ℤ → Bool → Op
  releases : ℕ → ℤ → ℤ → Op

abbrev pub apply : GpuLimiter → Op → GpuLimiter
apply g (tries gpu free ctx_done) = (try_gpu g gpu free ctx_done).0
apply g (releases gpu f h) = (release_gpu g gpu f h).0

pub apply_all : GpuLimiter → List Op → GpuLimiter
apply_all g [] = g
apply_all g (o ∷ os) = apply_all (apply g o) os

abbrev pub total : List ℕ → ℕ
total [] = 0
total (n ∷ ns) = n + total ns

Under : ℕ → List ℕ → Type 0
Under c [] = Unit {0}
Under c (n ∷ ns) = (n ≤ c) × Under c ns

slot_at-Under : (c i : ℕ) (ns : List ℕ) → Under c ns → slot_at ns i ≤ c
unfolding Under
slot_at-Under c i [] u = omega arith
slot_at-Under c zero (n ∷ ns) u = u.0
slot_at-Under c (suc i) (n ∷ ns) u = slot_at-Under c i ns u.1

set-Under : (c i v : ℕ) (ns : List ℕ) → v ≤ c → Under c ns → Under c (set ns i v)
unfolding Under
set-Under c i v [] h u = tt
set-Under c zero v (n ∷ ns) h u = (h, u.1)
set-Under c (suc i) v (n ∷ ns) h u = (u.0, set-Under c i v ns h u.1)

length-set : (i v : ℕ) (ns : List ℕ) → length (set ns i v) ≡ length ns
length-set i v [] = refl
length-set zero v (n ∷ ns) = refl
length-set (suc i) v (n ∷ ns) = ap suc (length-set i v ns)

replicate-Under : (c k : ℕ) → Under c (replicate k 0) × (length (replicate {A = ℕ} k 0) ≡ k)
unfolding Under
replicate-Under c zero = (tt, refl)
replicate-Under c (suc k) = ((omega arith, (replicate-Under c k).0), ap suc (replicate-Under c k).1)

total-Under : (c : ℕ) (ns : List ℕ) → Under c ns → total ns ≤ length ns * c
unfolding Under
total-Under c [] u = omega arith
total-Under c (n ∷ ns) u = let ih = total-Under c ns u.1 in let h = u.0 in omega arith

record Held (c n : ℕ) (g : GpuLimiter) : Type 0 where
  share : g.ceiling_per_gpu ≡ c
  gpus : length g.in_flight ≡ n
  under : Under c g.in_flight

effective_per_gpu-le : (g : GpuLimiter) (free : ℤ) → effective_per_gpu g free ≤ g.ceiling_per_gpu
unfolding effective_per_gpu
effective_per_gpu-le g free = ground arith

took : GpuLimiter → ℕ → GpuLimiter
took g gpu = record g { in_flight = set g.in_flight gpu (slot_at g.in_flight gpu + 1) }

try_gpu-cases :
    (g : GpuLimiter) (gpu : ℕ) (free : ℤ) (ctx_done : Bool)
    → ((try_gpu g gpu free ctx_done).0 ≡ g)
      ⊎ (((try_gpu g gpu free ctx_done).0 ≡ took g gpu)
          × (slot_at g.in_flight gpu < g.ceiling_per_gpu))
unfolding try_gpu took
try_gpu-cases g gpu free ctx_done = ground (arith, effective_per_gpu-le g free)

Held-took :
    (c n : ℕ) (g : GpuLimiter) (gpu : ℕ)
    → slot_at g.in_flight gpu < g.ceiling_per_gpu
    → Held c n g
    → Held c n (took g gpu)
unfolding took
Held-took c n g gpu h v = record {
  share = v.share;
  gpus = length-set gpu (slot_at g.in_flight gpu + 1) g.in_flight ∙ v.gpus;
  under =
      set-Under c gpu (slot_at g.in_flight gpu + 1) g.in_flight (let e = v.share in omega arith)
        v.under;
}

Held-apply : (c n : ℕ) (g : GpuLimiter) (o : Op) → Held c n g → Held c n (apply g o)
unfolding release_gpu
Held-apply c n g (tries gpu free ctx_done) v = elim (try_gpu-cases g gpu free ctx_done) [
  | inl same ↦ rw same v
  | inr (taken, h) ↦ rw taken (Held-took c n g gpu h v)
]
Held-apply c n g (releases gpu f h) v = record {
  share = v.share;
  gpus = length-set gpu (slot_at g.in_flight gpu - 1) g.in_flight ∙ v.gpus;
  under =
      set-Under c gpu (slot_at g.in_flight gpu - 1) g.in_flight
        (let h = slot_at-Under c gpu g.in_flight v.under in omega arith) v.under;
}

Held-apply_all : (c n : ℕ) (g : GpuLimiter) (os : List Op) → Held c n g → Held c n (apply_all g os)
unfolding apply_all
Held-apply_all c n g [] v = v
Held-apply_all c n g (o ∷ os) v = Held-apply_all c n (apply g o) os (Held-apply c n g o v)

Held-new :
    (ceiling n : ℕ) (bytes : ℤ)
    → 0 < ceiling
    → 0 < n
    → Held ((ceiling + n - 1) / n) n (new_vram_limiter (pos ceiling) bytes n)
unfolding new_vram_limiter
Held-new ceiling n bytes h k =
    let on : (leb ceiling 0 || (n == 0)) ≡ false = ground arith in
    let (under, gpus) = replicate-Under ((ceiling + n - 1) / n) n in
    rw on (record { share = refl; gpus = gpus; under = under })

-- With a positive ceiling and at least one GPU, all GPUs together never hold as many slots as the ceiling
-- and the number of GPUs come to: the shares are rounded up, so the ceiling may be exceeded by less than
-- the number of GPUs.
pub total_bound :
    (ceiling gpu_count : ℕ) (bytes : ℤ) (os : List Op)
    → 0 < ceiling
    → 0 < gpu_count
    → total (apply_all (new_vram_limiter (pos ceiling) bytes gpu_count) os).in_flight
      < ceiling + gpu_count
total_bound ceiling gpu_count bytes os h k =
    let c = (ceiling + gpu_count - 1) / gpu_count in
    let v =
      Held-apply_all c gpu_count (new_vram_limiter (pos ceiling) bytes gpu_count) os
        (Held-new ceiling gpu_count bytes h k) in
    let most = rw v.gpus at (total-Under c _ v.under) in
    let share = div-mul-le_self (ceiling + gpu_count - 1) gpu_count in omega arith
