-- ===== src/Health/Poller/Backoff.antt =====
-- internal/health/health.go, the state behind a sequence of probes, and the intervals of the backoff.
use native.Mathlib.Nat.{pow-le-pow_right, pow-succ', suc-add, mul-le-mul_left, mul-zero}
use nexus_proxy.Shared.{
  ℕ, zero, suc, ◌+◌, ◌*◌, ◌-◌, ◌/◌, ◌^◌, ◌≤◌, ◌<◌, ◌≡◌, refl, ap, Bool, true, false, List, [], ◌∷◌,
  ltb, min, arith, if◌then◌else◌,
}
use nexus_proxy.Shared.Int.{ℤ, pos, ◌+ℤ◌, ◌-ℤ◌, ◌*ℤ◌, wrap_int32, wrap_int64}
use nexus_proxy.Health.Poller.{
  Health, new_health, tier, multiplier, calc_backoff_interval, record_failure, record_success,
}

-- The outcomes of a sequence of probes, true for a success.
pub tell : Health → List Bool → Health
tell h [] = h
tell h (true ∷ es) = tell (record_success h) es
tell h (false ∷ es) = tell (record_failure h) es

abbrev pub trailing : ℕ → List Bool → ℕ
trailing n [] = n
trailing n (true ∷ es) = trailing 0 es
trailing n (false ∷ es) = trailing (suc n) es

abbrev pub failures : List Bool → ℕ
failures [] = 0
failures (true ∷ es) = failures es
failures (false ∷ es) = suc (failures es)

record Tracks (poll : ℤ) (limit n : ℕ) (h : Health) : Type 0 where
  polls : h.poll_interval ≡ poll
  limited : h.breaker_threshold ≡ pos limit
  counted : h.failure_count ≡ pos n
  judged : h.healthy ≡ ltb n limit
  timed : h.current_interval ≡ (if ltb n limit then poll else calc_backoff_interval h (pos n))

Tracks-failure :
    (poll : ℤ) (limit n : ℕ) (h : Health)
    → n + 1 < 2147483648
    → Tracks poll limit n h
    → Tracks poll limit (suc n) (record_failure h)
unfolding record_failure wrap_int32 ◌+ℤ◌ calc_backoff_interval
Tracks-failure poll limit n h small v = ground arith

Tracks-success :
    (poll : ℤ) (limit n : ℕ) (h : Health)
    → 0 < limit
    → Tracks poll limit n h
    → Tracks poll limit 0 (record_success h)
unfolding record_success
Tracks-success poll limit n h l v = ground arith

tell-Tracks :
    (poll : ℤ) (limit n : ℕ) (h : Health) (es : List Bool)
    → 0 < limit
    → n + failures es < 2147483648
    → Tracks poll limit n h
    → Tracks poll limit (trailing n es) (tell h es)
unfolding tell
tell-Tracks poll limit n h [] l small v = v
tell-Tracks poll limit n h (true ∷ es) l small v =
    tell-Tracks poll limit 0 (record_success h) es l (omega arith)
      (Tracks-success poll limit n h l v)
tell-Tracks poll limit n h (false ∷ es) l small v =
    tell-Tracks poll limit (suc n) (record_failure h) es l (omega arith)
      (Tracks-failure poll limit n h (omega arith) v)

-- With a positive first interval and a positive threshold below 2 ^ 31, behind any sequence of probes with
-- fewer than 2 ^ 31 failures the endpoint counts as healthy exactly if fewer probes have failed since the
-- last success than the threshold, and the reported interval is the first one while it is healthy and the
-- backoff interval of that number of failures otherwise.
pub tell_healthy :
    (poll limit : ℕ) (es : List Bool)
    → 0 < poll
    → 0 < limit
    → limit < 2147483648
    → failures es < 2147483648
    → let h = tell (new_health (pos poll) (pos limit)) es in
      let n = trailing 0 es in
      (h.healthy ≡ ltb n limit)
      × (h.current_interval ≡ (if ltb n limit then pos poll else calc_backoff_interval h (pos n)))
unfolding new_health wrap_int32
tell_healthy poll limit es p l k small =
    let v =
      tell-Tracks (pos poll) limit 0 (new_health (pos poll) (pos limit)) es l (omega arith)
        (record {
          polls = ground arith;
          limited = ground arith;
          counted = refl;
          judged = ground arith;
          timed = ground arith;
        }) in
    (v.judged, v.timed)

multiplier_small : (t : ℕ) → t ≤ 62 → multiplier t ≡ pos (min 15 (2 ^ t))
unfolding multiplier wrap_int64
multiplier_small t h = ground (arith, pow-le-pow_right {n = 2} (omega arith) h)

pow_64 : (t : ℕ) → 2 ^ (t + 64) ≡ 2 ^ t * 18446744073709551616
pow_64 zero = refl
pow_64 (suc t) =
    let e = pow-succ' 2 (t + 64) in
    let d = pow-succ' 2 t in let ih = pow_64 t in rw (suc-add t 64) (omega arith)

multiplier_large : (t : ℕ) → multiplier (t + 64) ≡ pos 0
unfolding multiplier wrap_int64
multiplier_large t = rw (pow_64 t) (ground arith)

multiplier_129 : (count : ℕ) → 129 ≤ count → multiplier ((count - 1) / 2) ≡ pos 0
multiplier_129 count h =
    let far : (count - 1) / 2 ≡ ((count - 1) / 2 - 64) + 64 = omega arith in
    rw far (multiplier_large ((count - 1) / 2 - 64))

tier_pos : (count : ℕ) → 1 ≤ count → tier (pos count) ≡ (count - 1) / 2
unfolding tier ◌-ℤ◌
tier_pos count h = ground arith

wrap-product :
    (poll m : ℕ) → poll * m < 9223372036854775808 → wrap_int64 (pos poll *ℤ pos m) ≡ pos (poll * m)
unfolding wrap_int64 ◌*ℤ◌
wrap-product poll m h = ground arith

product_small :
    (poll m : ℕ) → m ≤ 15 → poll * 15 < 9223372036854775808 → poll * m < 9223372036854775808
product_small poll m h k = let le = mul-le-mul_left poll h in omega arith

-- With a first interval of less than about 19 years, the backoff interval of a count between 1 and 126 is
-- the first one times 2 ^ ((count - 1) / 2), held to 15 times.
pub calc_backoff_interval_small :
    (h : Health) (poll count : ℕ)
    → h.poll_interval ≡ pos poll
    → poll * 15 < 9223372036854775808
    → 1 ≤ count
    → count ≤ 126
    → calc_backoff_interval h (pos count) ≡ pos (poll * min 15 (2 ^ ((count - 1) / 2)))
unfolding calc_backoff_interval
calc_backoff_interval_small h poll count e small c k = rw e (
    rw (tier_pos count c) (
      rw (multiplier_small ((count - 1) / 2) (omega arith)) (
        wrap-product poll (min 15 (2 ^ ((count - 1) / 2)))
          (product_small poll (min 15 (2 ^ ((count - 1) / 2))) (omega arith) small))))

-- From a count of 129 on the shift has lost its bit, and the backoff interval is 0, whatever the first
-- interval.
pub calc_backoff_interval_zero :
    (h : Health) (poll count : ℕ)
    → h.poll_interval ≡ pos poll
    → 129 ≤ count
    → calc_backoff_interval h (pos count) ≡ pos 0
unfolding calc_backoff_interval
calc_backoff_interval_zero h poll count e k = rw e (
    rw (tier_pos count (omega arith)) (
      rw (multiplier_129 count k)
        (rw (wrap-product poll 0 (omega arith)) (ap pos (mul-zero poll)))))
