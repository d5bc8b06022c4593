-- ===== src/Health/Breaker/Race.antt =====
-- internal/health/breaker.go, two goroutines at once: one in `IsOpen`, one in `RecordFailure`. Each step is
-- one atomic load, store or compare-and-swap of the source, in its order, of a breaker whose threshold is
-- not zero. The clock moves freely.
use nexus_proxy.Shared.{
  ℕ, suc, zero, ◌<◌, ◌≡◌, refl, Bool, true, false, List, [], ◌∷◌, arith, not, ◌||◌, if◌then◌else◌,
}
use nexus_proxy.Shared.Int.{ℤ, pos, ltb_ℤ, is_zero, ◌+ℤ◌, wrap_int32}
use nexus_proxy.Health.Breaker.{
  Breaker, State, closed, half_open, opened, is_open, record_failure, is_half_open, is_opened,
}
use nexus_proxy.Health.Breaker.Sequential.{ask_all, AllTrue, undated-refuses}

-- Where a caller of `IsOpen` stands.
pub data Asker : Type 0 where
  load_state : Asker
  load_deadline : Asker
  swap_state : Asker
  clear_count : Asker
  clear_deadline : Asker
  answered : Bool → Asker

-- Where a caller of `RecordFailure` stands.
pub data Failer : Type 0 where
  add_count : Failer
  load_for_test : ℤ → Failer
  load_previous : Failer
  store_deadline : Failer
  store_state : Failer
  finished : Failer

abbrev after_load : State → Asker
after_load closed = answered false
after_load half_open = answered true
after_load opened = load_deadline

unfoldable pub asker_step : Breaker → ℤ → Asker → Breaker × Asker
asker_step b now load_state = (b, after_load b.state)
asker_step b now load_deadline = (
  b,
  if is_zero b.cooldown_until || ltb_ℤ now b.cooldown_until then answered true else swap_state,
)
asker_step b now swap_state =
    if is_opened b.state then (record b { state = half_open }, clear_count) else (b, load_state)
asker_step b now clear_count = (record b { failure_count = pos 0 }, clear_deadline)
asker_step b now clear_deadline = (record b { cooldown_until = pos 0 }, answered false)
asker_step b now (answered r) = (b, answered r)

unfoldable pub failer_step : Breaker → ℤ → Failer → Breaker × Failer
failer_step b now add_count =
    let count = wrap_int32 (b.failure_count +ℤ pos 1) in
    (record b { failure_count = count }, load_for_test count)
failer_step b now (load_for_test count) = (
  b,
  if is_half_open b.state || not (ltb_ℤ count (wrap_int32 b.threshold))
      then load_previous
      else finished,
)
failer_step b now load_previous = (b, store_deadline)
failer_step b now store_deadline =
    (record b { cooldown_until = now +ℤ b.cooldown +ℤ pos 1 }, store_state)
failer_step b now store_state = (record b { state = opened }, finished)
failer_step b now finished = (b, finished)

pub record System : Type 0 where
  pub breaker : Breaker
  pub asker : Asker
  pub failer : Failer

-- One atomic step of either goroutine, at any time.
pub data Step (s : System) : System → Type 0 where
  asks :
      (now : ℤ)
      → Step s (record s {
        breaker = (asker_step s.breaker now s.asker).0;
        asker = (asker_step s.breaker now s.asker).1;
      })
  fails :
      (now : ℤ)
      → Step s (record s {
        breaker = (failer_step s.breaker now s.failer).0;
        failer = (failer_step s.breaker now s.failer).1;
      })

pub data Reach (s : System) : System → Type 0 where
  here : Reach s s
  next : {t u : System} → Reach s t → Step t u → Reach s u

pub asker_steps : ℕ → Breaker → ℤ → Asker → Breaker × Asker
asker_steps zero b now a = (b, a)
asker_steps (suc n) b now a = let (b', a') = asker_step b now a in asker_steps n b' now a'

pub failer_steps : ℕ → Breaker → ℤ → Failer → Breaker × Failer
failer_steps zero b now f = (b, f)
failer_steps (suc n) b now f = let (b', f') = failer_step b now f in failer_steps n b' now f'

-- With a threshold that is not zero and without interference the atomic steps compute the calls: a caller
-- alone gets from `IsOpen` in five steps the answer and the breaker of `is_open`, and from `RecordFailure`
-- in five the breaker of `record_failure`.
pub steps_alone :
    (b : Breaker) (now : ℤ)
    → is_zero b.threshold ≡ false
    → (asker_steps 5 b now load_state ≡ ((is_open b now).0, answered (is_open b now).1))
      × (failer_steps 5 b now add_count ≡ ((record_failure b now).0, finished))
unfolding asker_steps asker_step is_open failer_steps failer_step record_failure
steps_alone b now h = ground arith

-- The asker takes the deadline as passed and moves to half-open; the failer sees the half-open breaker and
-- trips it again; then the asker clears the counter and the deadline.
abbrev pub raced : Breaker → Breaker
raced b = record b { state = opened; failure_count = pos 0; cooldown_until = pos 0 }

abbrev pub both : (b : Breaker) (a : Asker) (f : Failer) → System
both b a f = record { breaker = b; asker = a; failer = f }

-- The calls of a schedule, true for the asker.
pub schedule : ℤ → List Bool → System → System
schedule now [] s = s
schedule now (true ∷ rest) s = schedule now rest (record s {
  breaker = (asker_step s.breaker now s.asker).0;
  asker = (asker_step s.breaker now s.asker).1;
})
schedule now (false ∷ rest) s = schedule now rest (record s {
  breaker = (failer_step s.breaker now s.failer).0;
  failer = (failer_step s.breaker now s.failer).1;
})

joined : {s t u : System} → Reach s t → Reach t u → Reach s u
joined r here = r
joined r (next more step) = next (joined r more) step

schedule-Reach : (now : ℤ) (order : List Bool) (s : System) → Reach s (schedule now order s)
unfolding schedule
schedule-Reach now [] s = here
schedule-Reach now (true ∷ rest) s = joined (next here (asks now)) (schedule-Reach now rest _)
schedule-Reach now (false ∷ rest) s = joined (next here (fails now)) (schedule-Reach now rest _)

abbrev pub unlucky : List Bool
unlucky = true ∷ true ∷ true ∷ false ∷ false ∷ false ∷ false ∷ false ∷ true ∷ true ∷ []

race_result :
    (b : Breaker) (now : ℤ)
    → b.state ≡ opened
    → is_zero b.cooldown_until ≡ false
    → ltb_ℤ now b.cooldown_until ≡ false
    → schedule now unlucky (both b load_state add_count) ≡ both (raced b) (answered false) finished
unfolding schedule asker_step failer_step
race_result b now h d late = rw h (rw d (rw late (refl)))

raced_failure :
    (b : Breaker) (limit : ℕ) (later : ℤ)
    → b.threshold ≡ pos limit
    → 1 < limit
    → limit < 2147483648
    → (record_failure (raced b) later).0 ≡ record (raced b) { failure_count = pos 1 }
unfolding record_failure wrap_int32 ◌+ℤ◌
raced_failure b limit later e low high = ground arith

-- With a threshold of at least 2, a tripped breaker whose deadline has passed can reach, with one caller of
-- `IsOpen` and one of `RecordFailure`, a breaker from which both calls have returned, the caller as the
-- admitted probe, that refuses every later caller at every time; and when the probe then fails, the
-- breaker still refuses every caller at every time.
pub race_reaches :
    (b : Breaker) (limit : ℕ) (now later : ℤ) (ts : List ℤ)
    → b.threshold ≡ pos limit
    → 1 < limit
    → limit < 2147483648
    → b.state ≡ opened
    → is_zero b.cooldown_until ≡ false
    → ltb_ℤ now b.cooldown_until ≡ false
    → Reach (both b load_state add_count) (both (raced b) (answered false) finished)
      × AllTrue (ask_all (raced b) ts).1
      × AllTrue (ask_all (record_failure (raced b) later).0 ts).1
race_reaches b limit now later ts e low high h d late =
    let on : is_zero b.threshold ≡ false = rw e (ground arith) in
    let reached = schedule-Reach now unlucky (both b load_state add_count) in
    (
      rw (race_result b now h d late) at reached,
      (undated-refuses (raced b) ts on refl refl).0,
      rw (raced_failure b limit later e low high)
          ((undated-refuses (record (raced b) { failure_count = pos 1 }) ts on refl refl).0),
    )
