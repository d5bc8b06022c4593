-- ===== src/Health/Breaker/Sequential.antt =====
-- internal/health/breaker.go, the calls made one after another.
use nexus_proxy.Shared.{
  ℕ, suc, ◌+◌, ◌<◌, ◌≤◌, ◌≡◌, ◌↔◌, ◌⊎◌, inl, refl, Bool, true, false, List, [], ◌∷◌, arith, leb,
  if◌then◌else◌,
}
use nexus_proxy.Shared.Int.{ℤ, pos, pos_part, ltb_ℤ, is_zero, ◌+ℤ◌, wrap_int32}
use nexus_proxy.Health.Breaker.{
  Breaker, closed, half_open, opened, new, is_open, record_failure, record_success,
}

-- The answers of `IsOpen` to callers at a list of times, and the breaker behind them.
pub ask_all : Breaker → List ℤ → Breaker × List Bool
ask_all b [] = (b, [])
ask_all b (t ∷ ts) =
    let (b', refused) = is_open b t in let (b'', rest) = ask_all b' ts in (b'', refused ∷ rest)

abbrev pub AllTrue : List Bool → Type 0
AllTrue [] = Unit {0}
AllTrue (x ∷ xs) = (x ≡ true) × AllTrue xs

half_open-refuses :
    (b : Breaker) (ts : List ℤ)
    → is_zero b.threshold ≡ false
    → b.state ≡ half_open
    → AllTrue (ask_all b ts).1 × ((ask_all b ts).0 ≡ b)
unfolding ask_all is_open
half_open-refuses b [] h s = (tt, refl)
half_open-refuses b (t ∷ ts) h s = ground (arith, half_open-refuses b ts)

-- With a threshold that is not zero, when the deadline of a tripped breaker has passed, the next caller is
-- admitted as the probe, and every further caller, at whatever time, is refused until a result is
-- recorded.
pub single_probe :
    (b : Breaker) (t : ℤ) (ts : List ℤ)
    → is_zero b.threshold ≡ false
    → b.state ≡ opened
    → is_zero b.cooldown_until ≡ false
    → ltb_ℤ t b.cooldown_until ≡ false
    → ((is_open b t).1 ≡ false) × AllTrue (ask_all (is_open b t).0 ts).1
unfolding is_open
single_probe b t ts h s d late = ground (
  arith,
  half_open-refuses (record b { state = half_open; failure_count = pos 0; cooldown_until = pos 0 })
      ts,
)

-- A failure that trips the breaker refuses every caller before the deadline, and leaves it tripped.
abbrev pub AllBefore : ℤ → List ℤ → Type 0
AllBefore d [] = Unit {0}
AllBefore d (t ∷ ts) = (ltb_ℤ t d ≡ true) × AllBefore d ts

pub opened-refuses :
    (b : Breaker) (ts : List ℤ)
    → is_zero b.threshold ≡ false
    → b.state ≡ opened
    → AllBefore b.cooldown_until ts
    → AllTrue (ask_all b ts).1 × ((ask_all b ts).0 ≡ b)
unfolding ask_all is_open
opened-refuses b [] h s a = (tt, refl)
opened-refuses b (t ∷ ts) h s a = ground (arith, opened-refuses b ts)

-- A tripped breaker with no deadline refuses every caller, whatever the time.
pub undated-refuses :
    (b : Breaker) (ts : List ℤ)
    → is_zero b.threshold ≡ false
    → b.state ≡ opened
    → is_zero b.cooldown_until ≡ true
    → AllTrue (ask_all b ts).1 × ((ask_all b ts).0 ≡ b)
unfolding ask_all is_open
undated-refuses b [] h s d = (tt, refl)
undated-refuses b (t ∷ ts) h s d = ground (arith, undated-refuses b ts)

-- What happens to a breaker: a failure or a success that it is told, or a caller that asks, with the times.
pub data Event : Type 0 where
  failure : ℤ → Event
  success : Event
  asked : ℤ → Event

unfoldable pub tell : Breaker → List Event → Breaker
tell b [] = b
tell b (failure t ∷ es) = tell (record_failure b t).0 es
tell b (success ∷ es) = tell (record_success b) es
tell b (asked t ∷ es) = tell (is_open b t).0 es

-- The failures since the last success, counted from a number before the list.
abbrev pub trailing : ℕ → List Event → ℕ
trailing n [] = n
trailing n (failure t ∷ es) = trailing (suc n) es
trailing n (success ∷ es) = trailing 0 es
trailing n (asked t ∷ es) = trailing n es

abbrev pub failures : List Event → ℕ
failures [] = 0
failures (failure t ∷ es) = suc (failures es)
failures (success ∷ es) = failures es
failures (asked t ∷ es) = failures es

-- Below the threshold the breaker is closed and counts; from there on it is open or half-open, and its counter
-- may have started anew with a probe.
record Tracks (limit : ℕ) (n : ℕ) (b : Breaker) : Type 0 where
  limited : b.threshold ≡ pos limit
  small : pos_part b.failure_count ≤ n
  counted : b.failure_count ≡ pos (pos_part b.failure_count)
  states :
      ((b.state ≡ closed) × ((b.failure_count ≡ pos n) × (n < limit)))
      ⊎ ((limit ≤ n) × ((b.state ≡ opened) ⊎ (b.state ≡ half_open)))

Tracks-failure :
    (limit n : ℕ) (b : Breaker) (t : ℤ)
    → 0 < limit
    → limit < 2147483648
    → n + 1 < 2147483648
    → Tracks limit n b
    → Tracks limit (suc n) (record_failure b t).0
      × ((record_failure b t).0.state ≡ (if leb limit (suc n) then opened else closed))
unfolding record_failure wrap_int32 ◌+ℤ◌
Tracks-failure limit n b t h k small v = ground arith

Tracks-success :
    (limit n : ℕ) (b : Breaker) → 0 < limit → Tracks limit n b → Tracks limit 0 (record_success b)
unfolding record_success
Tracks-success limit n b h v = ground arith

Tracks-asked :
    (limit n : ℕ) (b : Breaker) (t : ℤ)
    → 0 < limit
    → Tracks limit n b
    → Tracks limit n (is_open b t).0
unfolding is_open
Tracks-asked limit n b t h v = ground arith

tell-Tracks :
    (limit n : ℕ) (b : Breaker) (es : List Event)
    → 0 < limit
    → limit < 2147483648
    → n + failures es < 2147483648
    → Tracks limit n b
    → Tracks limit (trailing n es) (tell b es)
unfolding tell
tell-Tracks limit n b [] h k small v = v
tell-Tracks limit n b (failure t ∷ es) h k small v =
    tell-Tracks limit (suc n) (record_failure b t).0 es h k (omega arith)
      (Tracks-failure limit n b t h k (omega arith) v).0
tell-Tracks limit n b (success ∷ es) h k small v =
    tell-Tracks limit 0 (record_success b) es h k (omega arith) (Tracks-success limit n b h v)
tell-Tracks limit n b (asked t ∷ es) h k small v =
    tell-Tracks limit n (is_open b t).0 es h k small (Tracks-asked limit n b t h v)

trailing-le : (n : ℕ) (es : List Event) → trailing n es ≤ n + failures es
trailing-le n [] = omega arith
trailing-le n (failure t ∷ es) = omega (arith, trailing-le (suc n) es)
trailing-le n (success ∷ es) = omega (arith, trailing-le 0 es)
trailing-le n (asked t ∷ es) = trailing-le n es

admission :
    (limit n : ℕ) (b : Breaker) (t : ℤ)
    → 0 < limit
    → Tracks limit n b
    → (n < limit → is_open b t ≡ (b, false))
      × (limit ≤ n
          → (is_open b t).1 ≡ false
          → (b.state ≡ opened) × ((is_open b t).0.state ≡ half_open))
unfolding is_open
admission limit n b t h v = ((λ f. ground arith), (λ f r. (ground arith, ground arith)))

-- A breaker with a positive threshold behind any failures, successes and callers that ask, in any order and at
-- any times, with fewer than 2 ^ 31 - 1 failures in all. It is closed exactly while the failures since the last
-- success are fewer than the threshold, whoever was admitted in between; the next failure leaves it open if
-- it makes them as many, out of the half-open state too, and closed if not. A caller is admitted without a
-- change of the breaker while they are fewer; once they are as many, a caller that is admitted found it open
-- and leaves it half-open.
pub tell_tripped :
    (limit : ℕ) (cooldown : ℤ) (es : List Event) (now : ℤ)
    → 0 < limit
    → limit < 2147483648
    → failures es + 1 < 2147483648
    → let b = tell (new (pos limit) cooldown) es in
      let n = trailing 0 es in
      ((b.state ≡ closed) ↔ (n < limit))
      × (((record_failure b now).0.state ≡ (if leb limit (suc n) then opened else closed))
          × ((n < limit → is_open b now ≡ (b, false))
              × (limit ≤ n
                  → (is_open b now).1 ≡ false
                  → (b.state ≡ opened) × ((is_open b now).0.state ≡ half_open))))
unfolding new
tell_tripped limit cooldown es now h k small =
    let b = tell (new (pos limit) cooldown) es in
    let few = trailing-le 0 es in
    let v = tell-Tracks limit 0 (new (pos limit) cooldown) es h k (omega arith) (record {
      limited = refl;
      small = omega arith;
      counted = refl;
      states = inl (refl, (refl, h));
    }) in
    let (low, high) = admission limit (trailing 0 es) b now h v in
    (
      ((λ e. ground (arith, v.states)), (λ f. ground (arith, v.states))),
      ((Tracks-failure limit (trailing 0 es) b now h k (omega arith) v).1, (low, high)),
    )

trip_state :
    (b : Breaker) (now : ℤ)
    → (record_failure b now).1 ≡ true
    → let b' = (record_failure b now).0 in
      (is_zero b'.threshold ≡ false)
      × (b'.state ≡ opened)
      × (b'.cooldown_until ≡ now +ℤ b.cooldown +ℤ pos 1)
unfolding record_failure
trip_state b now h = ground arith

-- From a failure at `now` that calls the trip callback until the deadline `now + cooldown + 1` every
-- caller is refused.
pub record_failure-refuses :
    (b : Breaker) (now : ℤ) (ts : List ℤ)
    → (record_failure b now).1 ≡ true
    → AllBefore (now +ℤ b.cooldown +ℤ pos 1) ts
    → AllTrue (ask_all (record_failure b now).0 ts).1
record_failure-refuses b now ts h a =
    let (on, state, deadline) = trip_state b now h in
    (opened-refuses (record_failure b now).0 ts on state (rw deadline a)).0
