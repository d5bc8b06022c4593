-- ===== src/RateLimit/Auth/Exact.antt =====
-- internal/ratelimit/auth.go: who is blocked is who failed too often within the window.
use mathlib.Core.Path.{subst, ap₂}
use nexus_proxy.Shared.{
  ℕ, ◌+◌, ◌≡◌, ◌≤◌, ◌<◌, refl, sym, ap, ◌∙◌, Bool, true, false, ◌||◌, String, List, [], ◌∷◌, leb,
  length, arith, Option-cases, inl, inr,
}
use nexus_proxy.Shared.Int.{pos, nonpos}
use nexus_proxy.Shared.Assoc.{string_eq, lookup}
use nexus_proxy.RateLimit.Auth.{
  AuthLimiter, new_auth_limiter, prune_times, prune_failure, over_burst, blocked_live, is_blocked,
  failure_at,
}
use nexus_proxy.RateLimit.Auth.Window.{
  AuthEvent, fails, asks, reaps, auth_step, auth_steps, time_of, InOrder, failed_within, inside,
  Rising, length-prune_times,
}
use nexus_proxy.RateLimit.Auth.Kept.{times, reason_of, Keeps-same, Rising-none, times-none, held}
use nexus_proxy.RateLimit.Auth.Told.{
  Live, Tells, Tells-Keeps, is_blocked_on, record_auth_failure_on, Live-blocked_live, Live-reap,
  adds, Tells-fails,
}

Tells-more :
    (burst window now : ℕ) (ip : String) (count : Bool → ℕ → ℕ) (al : AuthLimiter)
    → Tells burst window now ip count al
    → Tells burst window now ip (λ side later. count side later + 0) al
Tells-more burst window now ip count al v = record {
  live = v.live;
  tells = λ side later m. let c = v.tells side later m in omega arith;
  ordered = v.ordered;
}

Tells-call :
    (burst window last : ℕ) (ip : String) (count : Bool → ℕ → ℕ) (al : AuthLimiter) (e : AuthEvent)
    → last ≤ time_of e
    → Tells burst window last ip count al
    → Tells burst window
        (time_of e)
        ip
        (λ side later. count side later + adds window ip e side later)
        (auth_step al e)
unfolding auth_step failed_within
Tells-call burst window last ip count al (fails other reason now) h v =
    let k = record_auth_failure_on al other reason now v.live.on in
    subst
      (Tells burst window now ip
        (λ side later. count side later + adds window ip (fails other reason now) side later))
      (sym (ap (λ x. x.0) k)) (Tells-fails burst window last now ip other reason count al h v)
Tells-call burst window last ip count al (asks other now) h v =
    let k = is_blocked_on al other now v.live.on in
    let (l, s) = Live-blocked_live burst window al ip other now v.live in
    subst (Tells burst window now ip (λ side later. count side later + 0)) (sym (ap (λ x. x.0) k)) (
      Tells-more burst window now ip count _
        (Tells-Keeps burst window last now ip count al _ h l s v))
Tells-call burst window last ip count al (reaps ips now) h v =
    let (l, s) = Live-reap burst window al ip ips now v.live in
    Tells-more burst window now ip count _ (Tells-Keeps burst window last now ip count al _ h l s v)

failed_within-cons :
    (window later : ℕ) (ip reason : String) (e : AuthEvent) (es : List AuthEvent)
    → failed_within window later ip reason (e ∷ es)
      ≡ failed_within window later ip reason (e ∷ []) + failed_within window later ip reason es
unfolding failed_within
failed_within-cons window later ip reason (fails other why now) es = omega arith
failed_within-cons window later ip reason (asks other now) es = omega arith
failed_within-cons window later ip reason (reaps ips now) es = omega arith

Tells-calls :
    (burst window last until : ℕ) (ip : String) (count : Bool → ℕ → ℕ) (al : AuthLimiter)
    (es : List AuthEvent)
    → InOrder last until es
    → Tells burst window last ip count al
    → Tells burst window until ip
        (λ side later. count side later + failed_within window later ip (reason_of side) es)
        (auth_steps al es)
unfolding auth_steps failed_within
Tells-calls burst window last until ip count al [] o v = Tells-more burst window until ip count al (
    Tells-Keeps burst window last until ip count al al o v.live
      (Keeps-same window until (held al ip)) v)
Tells-calls burst window last until ip count al (e ∷ es) (h, o) v =
    let w =
      Tells-calls burst window (time_of e) until ip
        (λ side later. count side later + adds window ip e side later) (auth_step al e) es o
        (Tells-call burst window last ip count al e h v) in
    record {
      live = w.live;
      tells = λ side later m.
          w.tells side later m
          ∙ (let c = failed_within-cons window later ip (reason_of side) e es in omega arith);
      ordered = w.ordered;
    }

blocked_pruned :
    (burst window : ℕ) (al : AuthLimiter) (ip : String) (now : ℕ)
    → 0 < burst
    → Live burst window al
    → (blocked_live al ip now).1 ≡ (
        leb burst (length (prune_times window now (times true (held al ip))))
        || leb burst (length (prune_times window now (times false (held al ip)))))
unfolding blocked_live held failure_at over_burst prune_failure prune_times
blocked_pruned burst window al ip now p l = elim (Option-cases (lookup ip al.failures)) [
  | inl n ↦ rw (n, blocked_live) (ground arith)
  | inr (f, n) ↦
      rw (n, blocked_live)
        (ap₂
          (λ b w.
            leb b (length (prune_times w now f.missing_ts))
            || leb b (length (prune_times w now f.invalid_ts)))
          l.bursts l.windows)
]

Tells-new :
    (rpm burst window : ℕ) (ip : String)
    → 0 < rpm
    → 0 < burst
    → 0 < window
    → Tells burst window 0 ip
        (λ side later. 0)
        (new_auth_limiter (pos rpm) (pos burst) (pos window))
unfolding new_auth_limiter held failure_at inside Rising lookup
Tells-new rpm burst window ip r b w =
    let x : nonpos (pos rpm) ≡ false = ground arith in
    let y : nonpos (pos burst) ≡ false = ground arith in
    let z : nonpos (pos window) ≡ false = ground arith in
    rw x (
      rw y (
        rw z (record {
          live = record { on = refl; bursts = refl; windows = refl };
          tells = λ side later h. ap (inside window later) (times-none side);
          ordered = λ side. subst (Rising 0 0) (sym (times-none side)) (Rising-none 0);
        })))

zero_add : (n : ℕ) → 0 + n ≡ n
zero_add n = omega arith

held_within :
    (burst window last now : ℕ) (ip : String) (count : Bool → ℕ → ℕ) (al : AuthLimiter)
    (side : Bool)
    → last ≤ now
    → Tells burst window last ip count al
    → length (prune_times window now (times side (held al ip))) ≡ count side now
held_within burst window last now ip count al side h v =
    length-prune_times window now 0 last (times side (held al ip)) (v.ordered side)
    ∙ v.tells side now h

-- In a limiter that is made with a positive rate, burst and window, after any failures, questions and reaps
-- in the order of the clock, an address is blocked exactly if at least the burst of its failures for missing
-- credentials, or for invalid ones, lie within the window: what other addresses do, what was pruned and what
-- was reaped changes nothing.
pub auth_exact :
    (rpm burst window until now : ℕ) (ip : String) (es : List AuthEvent)
    → 0 < rpm
    → 0 < burst
    → 0 < window
    → InOrder 0 until es
    → until ≤ now
    → (is_blocked (auth_steps (new_auth_limiter (pos rpm) (pos burst) (pos window)) es) ip now).1
      ≡ (leb burst (failed_within window now ip "missing" es)
          || leb burst (failed_within window now ip "invalid" es))
auth_exact rpm burst window until now ip es r b w o h =
    let v =
      Tells-calls burst window 0 until ip (λ side later. 0)
        (new_auth_limiter (pos rpm) (pos burst) (pos window)) es o
        (Tells-new rpm burst window ip r b w) in
    let al = auth_steps (new_auth_limiter (pos rpm) (pos burst) (pos window)) es in
    ap (λ x. x.1) (is_blocked_on al ip now v.live.on)
    ∙ blocked_pruned burst window al ip now b v.live
    ∙ ap₂ (λ m i. leb burst m || leb burst i)
        (held_within burst window until now ip _ al true h v ∙ zero_add _)
        (held_within burst window until now ip _ al false h v ∙ zero_add _)
