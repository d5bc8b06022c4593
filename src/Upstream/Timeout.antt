-- ===== src/Upstream/Timeout.antt =====
-- internal/upstream/cascade.go, `effectiveTimeout`: the time given to each attempt, in nanoseconds.
use nexus_proxy.Shared.{
  ℕ, ◌⊎◌, ◌*◌, ◌/◌, ◌≡◌, true, false, if◌then◌else◌, arith, inl, inr, Bool-cases,
}
use nexus_proxy.Shared.Int.{
  wrap_int64, ℤ, pos, pos_part, neg_part, sub_ℕ, nonpos, ltb_ℤ, ◌+ℤ◌, ◌≤ℤ◌,
}

pub record TimeoutConfig : Type 0 where
  pub timeout : ℤ
  pub timeout_floor : ℤ
  pub timeout_ceiling : ℤ
  pub timeout_per_1k_tokens : ℤ

abbrev pub cascade_default_timeout : ℤ
cascade_default_timeout = pos 30000000000

abbrev pub cascade_default_floor : ℤ
cascade_default_floor = pos 5000000000

abbrev pub cascade_default_ceiling : ℤ
cascade_default_ceiling = pos 120000000000

-- Go's `/` on int64, which rounds towards zero.
unfoldable pub quot_1000 : ℤ → ℤ
quot_1000 z = sub_ℕ (pos_part z / 1000) (neg_part z / 1000)

unfoldable pub floor_of : TimeoutConfig → ℤ
floor_of c = if nonpos c.timeout_floor then cascade_default_floor else c.timeout_floor

unfoldable pub ceiling_of : TimeoutConfig → ℤ
unfolding floor_of
ceiling_of c =
    if nonpos c.timeout_ceiling
    then cascade_default_ceiling
    else (if ltb_ℤ c.timeout_ceiling (floor_of c)
        then cascade_default_ceiling
        else c.timeout_ceiling)

-- The two comparisons that close `effectiveTimeout`.
unfoldable pub clamp_timeout : ℤ → ℤ → ℤ → ℤ
clamp_timeout floor ceiling computed =
    let raised = if ltb_ℤ computed floor then floor else computed in
    if ltb_ℤ ceiling raised then ceiling else raised

unfoldable pub effective_timeout : TimeoutConfig → ℕ → ℤ
effective_timeout c tokens =
    let floor = floor_of c in
    let ceiling = ceiling_of c in
    let share = quot_1000 (wrap_int64 (pos (pos_part c.timeout_per_1k_tokens * tokens))) in
    let computed = wrap_int64 (floor +ℤ share) in
    if nonpos c.timeout_per_1k_tokens
    then (if nonpos c.timeout then cascade_default_timeout else c.timeout)
    else clamp_timeout floor ceiling computed

clamp_timeout_bounds :
    (floor ceiling computed : ℤ)
    → let t = clamp_timeout floor ceiling computed in
      (t ≤ℤ ceiling)
      × ((floor ≤ℤ t) ⊎ ((t ≡ ceiling) × (ltb_ℤ ceiling floor ≡ true)))
      × ((t ≡ ceiling) ⊎ (floor ≤ℤ t))
unfolding clamp_timeout
clamp_timeout_bounds floor ceiling computed = ground arith

clamp_timeout_pos :
    (floor ceiling computed : ℤ)
    → pos 1 ≤ℤ floor
    → pos 1 ≤ℤ ceiling
    → pos 1 ≤ℤ clamp_timeout floor ceiling computed
unfolding clamp_timeout
clamp_timeout_pos floor ceiling computed h k = ground arith

floor_of_pos : (c : TimeoutConfig) → pos 1 ≤ℤ floor_of c
unfolding floor_of
floor_of_pos c = ground arith

-- The ceiling that is used lies below the floor only if it is the default one.
ceiling_of_cases :
    (c : TimeoutConfig)
    → (pos 1 ≤ℤ ceiling_of c)
      × ((floor_of c ≤ℤ ceiling_of c) ⊎ (ceiling_of c ≡ cascade_default_ceiling))
unfolding ceiling_of
ceiling_of_cases c = ground (arith, floor_of_pos c)

-- With adaptive scaling on, the timeout never exceeds the ceiling that is used, and never falls below the
-- floor, for any number of tokens and also where the int64 product wraps round, unless the floor exceeds
-- the default ceiling of 120 s and that ceiling is used: then the timeout is 120 s, below the floor.
pub effective_timeout_bounds :
    (c : TimeoutConfig) (tokens : ℕ)
    → nonpos c.timeout_per_1k_tokens ≡ false
    → let t = effective_timeout c tokens in
      (t ≤ℤ ceiling_of c)
      × ((floor_of c ≤ℤ t)
          ⊎ ((t ≡ cascade_default_ceiling) × (ltb_ℤ cascade_default_ceiling (floor_of c) ≡ true)))
unfolding effective_timeout
effective_timeout_bounds c tokens h = rw h (
    ground (
      arith,
      clamp_timeout_bounds (floor_of c) (ceiling_of c) (
          wrap_int64 (
            floor_of c
            +ℤ quot_1000 (wrap_int64 (pos (pos_part c.timeout_per_1k_tokens * tokens))))),
      ceiling_of_cases c,
    ))

-- The timeout is positive, whatever is configured.
pub effective_timeout_pos : (c : TimeoutConfig) (tokens : ℕ) → pos 1 ≤ℤ effective_timeout c tokens
unfolding effective_timeout
effective_timeout_pos c tokens = elim (Bool-cases (nonpos c.timeout_per_1k_tokens)) [
  | inl off ↦ rw off (ground arith)
  | inr on ↦
      rw on
        (clamp_timeout_pos (floor_of c) (ceiling_of c) _ (floor_of_pos c) (ceiling_of_cases c).0)
]
