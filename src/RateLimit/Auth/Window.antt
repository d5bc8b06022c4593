-- ===== src/RateLimit/Auth/Window.antt =====
-- internal/ratelimit/auth.go: who is blocked, against the whole history of the failures.
use text.Mathlib.Text.{◌==◌ as str_eq}
use nexus_proxy.Shared.{
  ℕ, ◌+◌, ◌≡◌, ◌≤◌, refl, ◌&&◌, String, List, [], ◌∷◌, ◌++◌, leb, length, arith, Bool-cases, inl,
  inr, if◌then◌else◌,
}
use nexus_proxy.Shared.Assoc.{string_eq}
use nexus_proxy.RateLimit.Auth.{
  AuthLimiter, outside_window, prune_times, is_blocked, record_auth_failure, reap_auth,
}

pub data AuthEvent : Type 0 where
  fails : String → String → ℕ → AuthEvent
  asks : String → ℕ → AuthEvent
  reaps : List String → ℕ → AuthEvent

unfoldable pub auth_step : AuthLimiter → AuthEvent → AuthLimiter
auth_step al (fails ip reason now) = (record_auth_failure al ip reason now).0
auth_step al (asks ip now) = (is_blocked al ip now).0
auth_step al (reaps ips now) = reap_auth al now ips

unfoldable pub auth_steps : AuthLimiter → List AuthEvent → AuthLimiter
auth_steps al [] = al
auth_steps al (e ∷ es) = auth_steps (auth_step al e) es

abbrev pub time_of : AuthEvent → ℕ
time_of (fails ip reason now) = now
time_of (asks ip now) = now
time_of (reaps ips now) = now

-- The readings of the clock never go back, from `from` to `until`.
abbrev pub InOrder : ℕ → ℕ → List AuthEvent → Type 0
InOrder from until [] = from ≤ until
InOrder from until (e ∷ es) = (from ≤ time_of e) × InOrder (time_of e) until es

-- The failures of an address for a reason that lie within the window at `now`.
unfoldable pub failed_within : ℕ → ℕ → String → String → List AuthEvent → ℕ
failed_within window now ip reason [] = 0
failed_within window now ip reason (fails other why t ∷ es) =
    (if str_eq other ip && (str_eq why reason && leb now (t + window)) then 1 else 0)
    + failed_within window now ip reason es
failed_within window now ip reason (asks other t ∷ es) = failed_within window now ip reason es
failed_within window now ip reason (reaps ips t ∷ es) = failed_within window now ip reason es

unfoldable pub inside : ℕ → ℕ → List ℕ → ℕ
inside window now [] = 0
inside window now (t ∷ ts) = (if leb now (t + window) then 1 else 0) + inside window now ts

-- Times in ascending order, none after `last`.
unfoldable pub Rising : ℕ → ℕ → List ℕ → Type 0
Rising from last [] = from ≤ last
Rising from last (t ∷ ts) = (from ≤ t) × Rising t last ts

pub Rising-weaken :
    (from to last later : ℕ) (ts : List ℕ)
    → from ≤ to
    → last ≤ later
    → Rising to last ts
    → Rising from later ts
unfolding Rising
Rising-weaken from to last later [] h k r = omega arith
Rising-weaken from to last later (t ∷ ts) h k (l, r) =
    (omega arith, Rising-weaken t t last later ts (omega arith) k r)

Rising-le : (from last : ℕ) (ts : List ℕ) → Rising from last ts → from ≤ last
unfolding Rising
Rising-le from last [] r = r
Rising-le from last (t ∷ ts) (l, r) = let m = Rising-le t last ts r in omega arith

pub Rising-snoc :
    (from last now : ℕ) (ts : List ℕ)
    → last ≤ now
    → Rising from last ts
    → Rising from now (ts ++ (now ∷ []))
unfolding Rising
Rising-snoc from last now [] h r = (omega arith, omega arith)
Rising-snoc from last now (t ∷ ts) h (l, r) = (l, Rising-snoc t last now ts h r)

pub inside-snoc :
    (window later now : ℕ) (ts : List ℕ)
    → inside window later (ts ++ (now ∷ []))
      ≡ inside window later ts + (if leb later (now + window) then 1 else 0)
unfolding inside
inside-snoc window later now [] = omega arith
inside-snoc window later now (t ∷ ts) = omega (arith, inside-snoc window later now ts)

pub inside-prune_times :
    (window now later : ℕ) (ts : List ℕ)
    → now ≤ later
    → inside window later (prune_times window now ts) ≡ inside window later ts
unfolding inside prune_times
inside-prune_times window now later [] h = refl
inside-prune_times window now later (t ∷ ts) h =
    ground (arith, inside-prune_times window now later ts h)

pub Rising-prune_times :
    (window now from last : ℕ) (ts : List ℕ)
    → Rising from last ts
    → Rising from last (prune_times window now ts)
unfolding Rising prune_times
Rising-prune_times window now from last [] r = r
Rising-prune_times window now from last (t ∷ ts) (l, r) =
    elim (Bool-cases (outside_window window now t)) [
      | inl old ↦ rw old (
          Rising-weaken from t last last (prune_times window now ts) l (omega arith)
            (Rising-prune_times window now t last ts r))
      | inr young ↦ rw young (l, r)
    ]

all_inside :
    (window now from last : ℕ) (ts : List ℕ)
    → Rising from last ts
    → now ≤ from + window
    → inside window now ts ≡ length ts
unfolding Rising inside
all_inside window now from last [] r h = refl
all_inside window now from last (t ∷ ts) (l, r) h =
    let a = all_inside window now t last ts r (omega arith) in ground arith

pub length-prune_times :
    (window now from last : ℕ) (ts : List ℕ)
    → Rising from last ts
    → length (prune_times window now ts) ≡ inside window now ts
unfolding Rising inside prune_times
length-prune_times window now from last [] r = refl
length-prune_times window now from last (t ∷ ts) (l, r) =
    elim (Bool-cases (outside_window window now t)) [
      | inl old ↦ rw old (let e = length-prune_times window now t last ts r in ground arith)
      | inr young ↦
          rw young (let e = all_inside window now t last ts r (ground arith) in ground arith)
    ]

pub no_times : (ts : List ℕ) → length ts ≤ 0 → ts ≡ []
no_times [] h = refl
no_times (t ∷ ts) h = absurd (omega arith)
