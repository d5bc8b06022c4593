-- ===== src/Health/Poller.antt =====
-- internal/health/health.go: the poller of the local model's endpoint. What the HTTP client does with the
-- two requests of a probe is given to the probe. The calls are made one after another; the logs, the
-- start of the goroutine and its end are left out.
pub mod Backoff
mod Examples
use nexus_proxy.Shared.{
  ℕ, ◌≡◌, refl, Bool, true, false, not, ◌&&◌, Option, none, some, List, [], ◌∷◌, ◌/◌, ◌^◌, leb, ltb,
  arith, if◌then◌else◌,
}
use nexus_proxy.Shared.Int.{
  ℤ, pos, pos_part, ltb_ℤ, nonpos, ◌+ℤ◌, ◌-ℤ◌, ◌*ℤ◌, eqb_ℤ, wrap_int32, wrap_int64,
}

pub record Health : Type 0 where
  pub poll_interval : ℤ
  pub breaker_threshold : ℤ
  pub healthy : Bool
  pub failure_count : ℤ
  pub current_interval : ℤ

-- `New`, without the client and the timeout of a probe.
unfoldable pub new_health : ℤ → ℤ → Health
new_health poll_interval breaker_threshold =
    let poll = if nonpos poll_interval then pos 30000000000 else poll_interval in
    record {
      poll_interval = poll;
      breaker_threshold =
          wrap_int32 (if nonpos breaker_threshold then pos 3 else breaker_threshold);
      healthy = true;
      failure_count = pos 0;
      current_interval = poll;
    }

abbrev pub max_backoff_multiplier : ℤ
max_backoff_multiplier = pos 15

-- The shift rounds towards minus infinity, so a tier is below 0 exactly when the count is, or is 0.
unfoldable pub tier : ℤ → ℕ
tier count = pos_part (count -ℤ pos 1) / 2

-- `int64(1 << tier)`, with its cap.
unfoldable pub multiplier : ℕ → ℤ
multiplier t =
    let m = wrap_int64 (pos (2 ^ t)) in
    if ltb_ℤ max_backoff_multiplier m then max_backoff_multiplier else m

-- `calcBackoffInterval`.
unfoldable pub calc_backoff_interval : Health → ℤ → ℤ
calc_backoff_interval h count = wrap_int64 (h.poll_interval *ℤ multiplier (tier count))

-- `recordFailure`.
unfoldable pub record_failure : Health → Health
record_failure h =
    let count = wrap_int32 (h.failure_count +ℤ pos 1) in
    let counted = record h { failure_count = count } in
    if not (ltb_ℤ count h.breaker_threshold)
    then record counted {
      healthy = false;
      current_interval = wrap_int64 (h.poll_interval *ℤ multiplier (tier count));
    }
    else counted

-- `recordSuccess`.
unfoldable pub record_success : Health → Health
record_success h = record h {
  healthy = true;
  failure_count = pos 0;
  current_interval = h.poll_interval;
}

-- What comes of a request: it cannot be built or the client fails, or a status comes back.
pub data Reply : Type 0 where
  unanswered : Reply
  status : ℕ → Reply

-- `err == nil`, and the reaction to the statuses of the model's answer.
unfoldable pub probe_chat : Health → Reply → Health × Bool
probe_chat h unanswered = (record_failure h, false)
probe_chat h (status code) =
    if leb 400 code then (record_failure h, false) else (record_success h, true)

-- `probe`, of the answers to its two requests; the flag says that it returns no error.
unfoldable pub probe : Health → Reply → Reply → Health × Bool
probe h unanswered chat = (record_failure h, false)
probe h (status code) chat = if leb 500 code then (record_failure h, false) else probe_chat h chat

-- What a tick of `loop` does behind its probe: the interval of the ticker that it starts in place of the
-- present one.
unfoldable pub adjust : Health → Option ℤ
adjust h =
    let new_interval = calc_backoff_interval h h.failure_count in
    if not h.healthy
      && (not (ltb_ℤ h.failure_count h.breaker_threshold)
          && not (eqb_ℤ new_interval h.current_interval))
    then some new_interval
    else none

-- One tick of `loop`.
unfoldable pub tick : Health → Reply → Reply → Health × Option ℤ
tick h tags chat = let h' = (probe h tags chat).0 in (h', adjust h')

abbrev pub below : ℕ → Reply → Bool
below limit unanswered = false
below limit (status code) = ltb code limit

-- A probe succeeds exactly if the server answers below 500 and the model below 400, and it records its
-- outcome once.
pub probe_outcome :
    (h : Health) (tags chat : Reply)
    → ((probe h tags chat).0
        ≡ (if (probe h tags chat).1 then record_success h else record_failure h))
      × ((probe h tags chat).1 ≡ (below 500 tags && below 400 chat))
unfolding probe probe_chat
probe_outcome h tags chat = ground arith

eqb_refl : (z : ℤ) → eqb_ℤ z z ≡ true
eqb_refl z = ground arith

adjust-record_failure : (h : Health) → adjust (record_failure h) ≡ none
unfolding adjust record_failure calc_backoff_interval
adjust-record_failure h = ground (
  arith,
  eqb_refl
      (wrap_int64 (h.poll_interval *ℤ multiplier (tier (wrap_int32 (h.failure_count +ℤ pos 1))))),
)

adjust-record_success : (h : Health) → adjust (record_success h) ≡ none
unfolding adjust record_success
adjust-record_success h = refl

-- No tick ever starts another ticker, in whatever state and whatever comes of its probe.
pub tick_keeps_ticker : (h : Health) (tags chat : Reply) → (tick h tags chat).1 ≡ none
unfolding tick
tick_keeps_ticker h tags chat =
    rw (probe_outcome h tags chat).0
      (ground (arith, adjust-record_failure h, adjust-record_success h))
