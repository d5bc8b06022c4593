-- ===== src/RateLimit/Auth/Told.antt =====
-- internal/ratelimit/auth.go: one call, against the failures counted for an address.
use mathlib.Core.Path.{subst}
use text.Mathlib.Text.{◌==◌ as str_eq}
use nexus_proxy.Shared.{
  ℕ, ◌+◌, ◌≡◌, ◌≤◌, refl, sym, ap, ◌∙◌, Bool, true, false, ◌&&◌, String, some, List, [], ◌∷◌, ◌++◌,
  leb, arith, Bool-cases, Option-cases, inl, inr, if◌then◌else◌,
}
use nexus_proxy.Shared.Assoc.{string_eq, lookup, insert, lookup-insert}
use nexus_proxy.RateLimit.Auth.{
  AuthFailure, AuthLimiter, prune_failure, blocked_live, fail_live, is_blocked, failure_at,
  note_time, count_of, with_reason, record_auth_failure, reap_failures, reap_auth,
}
use nexus_proxy.RateLimit.Auth.Window.{
  AuthEvent, fails, failed_within, inside, Rising, Rising-weaken, Rising-snoc, inside-snoc,
}
use nexus_proxy.RateLimit.Auth.Kept.{
  times, reason_of, Keeps, Keeps-same, Keeps-prune_failure, Keeps-lookup, Keeps-reap_failures, held,
}

-- A limiter that is on, with its burst and its window.
pub record Live (burst window : ℕ) (al : AuthLimiter) : Type 0 where
  pub on : al.enabled ≡ true
  pub bursts : al.burst ≡ burst
  pub windows : al.window ≡ window

-- What a limiter holds of an address at `last`, against the failures counted by `count`.
pub record Tells (burst window last : ℕ) (ip : String) (count : Bool → ℕ → ℕ) (al : AuthLimiter)
    : Type 0 where
  pub live : Live burst window al
  pub tells :
      (side : Bool) (later : ℕ)
      → last ≤ later
      → inside window later (times side (held al ip)) ≡ count side later
  pub ordered : (side : Bool) → Rising 0 last (times side (held al ip))

pub Tells-Keeps :
    (burst window last now : ℕ) (ip : String) (count : Bool → ℕ → ℕ) (al bl : AuthLimiter)
    → last ≤ now
    → Live burst window bl
    → Keeps window now (held al ip) (held bl ip)
    → Tells burst window last ip count al
    → Tells burst window now ip count bl
Tells-Keeps burst window last now ip count al bl h l k v = record {
  live = l;
  tells = λ side later m. k.counts side later m ∙ v.tells side later (omega arith);
  ordered = λ side.
      Rising-weaken 0 0 last now (times side (held bl ip)) (omega arith) h
        (k.rises side last (v.ordered side));
}

pub is_blocked_on :
    (al : AuthLimiter) (ip : String) (now : ℕ)
    → al.enabled ≡ true
    → is_blocked al ip now ≡ blocked_live al ip now
unfolding is_blocked
is_blocked_on al ip now on = ap (λ b. if b then blocked_live al ip now else (al, false)) on

pub record_auth_failure_on :
    (al : AuthLimiter) (ip reason : String) (now : ℕ)
    → al.enabled ≡ true
    → record_auth_failure al ip reason now ≡ fail_live al ip reason now
unfolding record_auth_failure
record_auth_failure_on al ip reason now on =
    ap (λ b. if b then fail_live al ip reason now else (al, false)) on

reap_auth_on :
    (al : AuthLimiter) (ips : List String) (now : ℕ)
    → al.enabled ≡ true
    → reap_auth al now ips ≡ record al { failures = reap_failures al.window now ips al.failures }
unfolding reap_auth
reap_auth_on al ips now on =
    ap (λ b. if b then record al { failures = reap_failures al.window now ips al.failures } else al)
      on

pub Live-blocked_live :
    (burst window : ℕ) (al : AuthLimiter) (ip other : String) (now : ℕ)
    → Live burst window al
    → Live burst window (blocked_live al other now).0
      × Keeps window now (held al ip) (held (blocked_live al other now).0 ip)
unfolding blocked_live held failure_at
Live-blocked_live burst window al ip other now l = elim (Option-cases (lookup other al.failures)) [
  | inl n ↦ rw (n, blocked_live) (l, Keeps-same window now (held al ip))
  | inr (f, n) ↦
      let g = prune_failure al.window now f in
      let k =
        subst (λ w. Keeps window now f (prune_failure w now f)) (sym l.windows)
          (Keeps-prune_failure window now f) in
      rw (n, blocked_live)
        (
          record { on = l.on; bursts = l.bursts; windows = l.windows },
          Keeps-lookup window now ip other al.failures (insert other g al.failures) f (some g) n k
              (lookup-insert other ip g al.failures),
        )
]

pub Live-reap :
    (burst window : ℕ) (al : AuthLimiter) (ip : String) (ips : List String) (now : ℕ)
    → Live burst window al
    → Live burst window (reap_auth al now ips)
      × Keeps window now (held al ip) (held (reap_auth al now ips) ip)
unfolding held
Live-reap burst window al ip ips now l =
    let k =
      subst
        (λ w.
          Keeps window now (held al ip)
            (failure_at (lookup ip (reap_failures w now ips al.failures))))
        (sym l.windows) (Keeps-reap_failures window now ip ips al.failures) in
    subst (λ b. Live burst window b × Keeps window now (held al ip) (held b ip))
      (sym (reap_auth_on al ips now l.on))
      (record { on = l.on; bursts = l.bursts; windows = l.windows }, k)

times-note_time :
    (reason : String) (now : ℕ) (f : AuthFailure) (side : Bool)
    → times side (note_time reason now f)
      ≡ (if str_eq reason (reason_of side) then times side f ++ (now ∷ []) else times side f)
unfolding note_time
times-note_time reason now f true = elim (Bool-cases (str_eq reason "missing")) [
  | inl h ↦ rw h refl
  | inr h ↦ elim (Bool-cases (str_eq reason "invalid")) [
    | inl g ↦ rw (h, g) refl
    | inr g ↦ rw (h, g) refl
  ]
]
times-note_time reason now f false = elim (Bool-cases (str_eq reason "missing")) [
  | inl h ↦
      let other : str_eq reason "invalid" ≡ false =
        ap (λ r. str_eq r "invalid") ((string_eq.beq_iff reason "missing").0 h) in
      rw (h, other) refl
  | inr h ↦ elim (Bool-cases (str_eq reason "invalid")) [
    | inl g ↦ rw (h, g) refl
    | inr g ↦ rw (h, g) refl
  ]
]

times-with_reason :
    (reason : String) (f : AuthFailure) (side full : Bool)
    → times side (if full then with_reason reason f else f) ≡ times side f
unfolding with_reason
times-with_reason reason f side false = refl
times-with_reason reason f true true = elim (Bool-cases (str_eq f.block_reason "")) [
  | inl h ↦ rw h refl
  | inr h ↦ rw h refl
]
times-with_reason reason f false true = elim (Bool-cases (str_eq f.block_reason "")) [
  | inl h ↦ rw h refl
  | inr h ↦ rw h refl
]

times-fail_live :
    (al : AuthLimiter) (ip other reason : String) (now : ℕ) (side : Bool)
    → times side (held (fail_live al other reason now).0 ip) ≡ (
        if str_eq other ip && str_eq reason (reason_of side)
        then times side (held al ip) ++ (now ∷ [])
        else times side (held al ip))
unfolding fail_live held failure_at
times-fail_live al ip other reason now side =
    let f = note_time reason now (failure_at (lookup other al.failures)) in
    let full = leb al.burst (count_of reason f) in
    let l = lookup-insert other ip (if full then with_reason reason f else f) al.failures in
    elim (Bool-cases (str_eq other ip)) [
      | inl same ↦
          let e = (string_eq.beq_iff other ip).0 same in
          let g = if full then with_reason reason f else f in
          let m : lookup ip (insert other g al.failures) ≡ some g = l ∙ rw same refl in
          ap (λ o. times side (failure_at o)) m
          ∙ times-with_reason reason f side full
          ∙ times-note_time reason now (failure_at (lookup other al.failures)) side
          ∙ rw same (
              ap (λ x. if str_eq reason (reason_of side) then x ++ (now ∷ []) else x)
                (ap (λ x. times side (failure_at (lookup x al.failures))) e))
      | inr differs ↦
          let g = if full then with_reason reason f else f in
          let m : lookup ip (insert other g al.failures) ≡ lookup ip al.failures =
            l ∙ rw differs refl in
          rw differs (ap (λ o. times side (failure_at o)) m)
    ]

-- What one call adds to the failures of an address for a reason.
abbrev pub adds : ℕ → String → AuthEvent → Bool → ℕ → ℕ
adds window ip e side later = failed_within window later ip (reason_of side) (e ∷ [])

and_assoc : (a b c : Bool) → (a && (b && c)) ≡ ((a && b) && c)
and_assoc true b c = refl
and_assoc false b c = refl

pub Tells-fails :
    (burst window last now : ℕ) (ip other reason : String) (count : Bool → ℕ → ℕ) (al : AuthLimiter)
    → last ≤ now
    → Tells burst window last ip count al
    → Tells burst window now ip
        (λ side later. count side later + adds window ip (fails other reason now) side later)
        (fail_live al other reason now).0
unfolding failed_within fail_live
Tells-fails burst window last now ip other reason count al h v =
    let bl = (fail_live al other reason now).0 in
    let l = v.live in
    record {
      live = record { on = l.on; bursts = l.bursts; windows = l.windows };
      tells = λ side later m.
          elim (Bool-cases (str_eq other ip && str_eq reason (reason_of side))) [
            | inl hit ↦
                let e : times side (held bl ip) ≡ times side (held al ip) ++ (now ∷ []) =
                  times-fail_live al ip other reason now side ∙ rw hit refl in
                let s = inside-snoc window later now (times side (held al ip)) in
                let c = v.tells side later (omega arith) in
                ap (inside window later) e
                ∙ (let q = leb later (now + window) in
                    let z : (str_eq other ip && (str_eq reason (reason_of side) && q)) ≡ q =
                      and_assoc (str_eq other ip) (str_eq reason (reason_of side)) q
                      ∙ ap (λ x. x && q) hit in
                    rw z (omega arith))
            | inr miss ↦
                let e : times side (held bl ip) ≡ times side (held al ip) =
                  times-fail_live al ip other reason now side ∙ rw miss refl in
                let c = v.tells side later (omega arith) in
                ap (inside window later) e
                ∙ (let q = leb later (now + window) in
                    let z : (str_eq other ip && (str_eq reason (reason_of side) && q)) ≡ false =
                      and_assoc (str_eq other ip) (str_eq reason (reason_of side)) q
                      ∙ ap (λ x. x && q) miss in
                    rw z (omega arith))
          ];
      ordered = λ side. elim (Bool-cases (str_eq other ip && str_eq reason (reason_of side))) [
        | inl hit ↦
            let e : times side (held bl ip) ≡ times side (held al ip) ++ (now ∷ []) =
              times-fail_live al ip other reason now side ∙ rw hit refl in
            subst (Rising 0 now) (sym e)
              (Rising-snoc 0 last now (times side (held al ip)) h (v.ordered side))
        | inr miss ↦
            let e : times side (held bl ip) ≡ times side (held al ip) =
              times-fail_live al ip other reason now side ∙ rw miss refl in
            subst (Rising 0 now) (sym e) (
              Rising-weaken 0 0 last now (times side (held al ip)) (omega arith) h (v.ordered side))
      ];
    }
