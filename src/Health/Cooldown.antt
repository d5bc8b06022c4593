-- ===== src/Health/Cooldown.antt =====
-- internal/circuit/cooldown.go: the pause of the local route behind a failure of its model. Times are
-- nanoseconds since the epoch, as `UnixNano` gives them, and given to each call; `none` is the zero time.
-- The callback of `RecordFailure` is left out.
use nexus_proxy.Shared.{
  ◌≡◌, refl, Bool, true, false, Option, none, some, List, [], ◌∷◌, arith, if◌then◌else◌,
}
use nexus_proxy.Shared.Int.{ℤ, pos, ltb_ℤ, nonpos, is_zero, ◌+ℤ◌, ◌-ℤ◌}

pub record Cooldown : Type 0 where
  pub duration : ℤ
  pub failed_at : ℤ

-- `New`.
unfoldable pub new_cooldown : ℤ → Cooldown
new_cooldown d = record { duration = d; failed_at = pos 0 }

-- `RecordFailure`.
unfoldable pub cooldown_failure : Cooldown → ℤ → Cooldown
cooldown_failure c now = if nonpos c.duration then c else record c { failed_at = now }

-- `Active`.
unfoldable pub active : Cooldown → ℤ → Bool
active c now =
    if nonpos c.duration
    then false
    else (if is_zero c.failed_at then false else ltb_ℤ (now -ℤ c.failed_at) c.duration)

-- `ExpiresAt`.
unfoldable pub expires_at : Cooldown → Option ℤ
expires_at c =
    if nonpos c.duration
    then none
    else (if is_zero c.failed_at then none else some (c.failed_at +ℤ c.duration))

abbrev pub before : ℤ → Option ℤ → Bool
before now none = false
before now (some t) = ltb_ℤ now t

-- The difference of two times that `Active` takes agrees with the comparison against their sum that
-- `ExpiresAt` reports.
ltb-sub : (now at d : ℤ) → ltb_ℤ (now -ℤ at) d ≡ ltb_ℤ now (at +ℤ d)
unfolding ◌+ℤ◌ ◌-ℤ◌
ltb-sub now at d = ground arith

-- The circuit is active exactly at the times before the one that `ExpiresAt` gives.
pub active-expires_at : (c : Cooldown) (now : ℤ) → active c now ≡ before now (expires_at c)
unfolding active expires_at
active-expires_at c now = ground (arith, ltb-sub now c.failed_at c.duration)

-- The failures at a list of times, and the last of them.
pub cooldown_failures : Cooldown → List ℤ → Cooldown
cooldown_failures c [] = c
cooldown_failures c (t ∷ ts) = cooldown_failures (cooldown_failure c t) ts

abbrev pub last_of : ℤ → List ℤ → ℤ
last_of t [] = t
last_of t (u ∷ us) = last_of u us

failed_at-cooldown_failures :
    (c : Cooldown) (ts : List ℤ)
    → nonpos c.duration ≡ false
    → cooldown_failures c ts ≡ record c { failed_at = last_of c.failed_at ts }
unfolding cooldown_failures cooldown_failure
failed_at-cooldown_failures c [] h = refl
failed_at-cooldown_failures c (t ∷ ts) h =
    rw h (failed_at-cooldown_failures (record c { failed_at = t }) ts h)

-- With a positive duration, after failures at any times of which the last is not the epoch itself, the
-- circuit is active exactly until the duration has passed since the last of them.
pub active_until :
    (d now t : ℤ) (ts : List ℤ)
    → nonpos d ≡ false
    → is_zero (last_of t ts) ≡ false
    → active (cooldown_failures (new_cooldown d) (t ∷ ts)) now ≡ ltb_ℤ now (last_of t ts +ℤ d)
unfolding active new_cooldown
active_until d now t ts h k =
    rw (failed_at-cooldown_failures (new_cooldown d) (t ∷ ts) h)
      (ground (arith, ltb-sub now (last_of t ts) d))

disabled-cooldown_failures :
    (c : Cooldown) (ts : List ℤ) → nonpos c.duration ≡ true → cooldown_failures c ts ≡ c
unfolding cooldown_failures cooldown_failure
disabled-cooldown_failures c [] h = refl
disabled-cooldown_failures c (t ∷ ts) h = rw h (disabled-cooldown_failures c ts h)

-- With a duration that is not positive the circuit is never active, whatever failures it is told.
pub active-disabled :
    (d now : ℤ) (ts : List ℤ)
    → nonpos d ≡ true
    → active (cooldown_failures (new_cooldown d) ts) now ≡ false
unfolding active new_cooldown
active-disabled d now ts h = rw (disabled-cooldown_failures (new_cooldown d) ts h) (rw h)
