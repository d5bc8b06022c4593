-- ===== src/RateLimit/Auth/Kept.antt =====
-- internal/ratelimit/auth.go: what the calls keep of an address's failures.
use mathlib.Core.Path.{subst}
use text.Mathlib.Text.{◌==◌ as str_eq}
use nexus_proxy.Shared.{
  ℕ, ◌≡◌, ◌≤◌, refl, sym, ap, ◌∙◌, Bool, true, false, String, Option, none, some, List, [], ◌∷◌,
  arith, Bool-cases, Option-cases, inl, inr, if◌then◌else◌,
}
use nexus_proxy.Shared.Assoc.{string_eq, lookup, insert, delete, lookup-insert, lookup-delete}
use nexus_proxy.RateLimit.Auth.{
  AuthFailure, AuthLimiter, prune_times, prune_failure, failure_at, is_idle, reap_failure,
  reap_failures,
}
use nexus_proxy.RateLimit.Auth.Window.{
  inside, Rising, inside-prune_times, Rising-prune_times, no_times,
}

-- The times of one of the two reasons, true for the missing credentials.
abbrev pub times : Bool → AuthFailure → List ℕ
times true f = f.missing_ts
times false f = f.invalid_ts

abbrev pub reason_of : Bool → String
reason_of true = "missing"
reason_of false = "invalid"

-- What a call at `now` leaves of an address's failures.
pub record Keeps (window now : ℕ) (f g : AuthFailure) : Type 0 where
  pub counts :
      (side : Bool) (later : ℕ)
      → now ≤ later
      → inside window later (times side g) ≡ inside window later (times side f)
  pub rises : (side : Bool) (last : ℕ) → Rising 0 last (times side f) → Rising 0 last (times side g)

pub Keeps-same : (window now : ℕ) (f : AuthFailure) → Keeps window now f f
Keeps-same window now f = record { counts = λ side later h. refl; rises = λ side last r. r }

pub times-prune_failure :
    (window now : ℕ) (f : AuthFailure) (side : Bool)
    → times side (prune_failure window now f) ≡ prune_times window now (times side f)
unfolding prune_failure
times-prune_failure window now f true = refl
times-prune_failure window now f false = refl

pub Keeps-prune_failure :
    (window now : ℕ) (f : AuthFailure) → Keeps window now f (prune_failure window now f)
Keeps-prune_failure window now f = record {
  counts = λ side later h.
      ap (inside window later) (times-prune_failure window now f side)
      ∙ inside-prune_times window now later (times side f) h;
  rises = λ side last r.
      subst (Rising 0 last) (sym (times-prune_failure window now f side))
        (Rising-prune_times window now 0 last (times side f) r);
}

Keeps-then :
    (window now : ℕ) (f g h : AuthFailure)
    → Keeps window now f g
    → Keeps window now g h
    → Keeps window now f h
Keeps-then window now f g h a b = record {
  counts = λ side later l. b.counts side later l ∙ a.counts side later l;
  rises = λ side last r. b.rises side last (a.rises side last r);
}

is_idle-empty :
    (now : ℕ) (f : AuthFailure) → is_idle now f ≡ true → (side : Bool) → times side f ≡ []
unfolding is_idle
is_idle-empty now f h true = no_times f.missing_ts (ground arith)
is_idle-empty now f h false = no_times f.invalid_ts (ground arith)

-- The failures held of an address.
unfoldable pub held : AuthLimiter → String → AuthFailure
held al ip = failure_at (lookup ip al.failures)

pub times-none : (side : Bool) → times side (failure_at none) ≡ []
unfolding failure_at
times-none true = refl
times-none false = refl

pub Rising-none : (last : ℕ) → Rising 0 last []
unfolding Rising
Rising-none last = omega arith

Keeps-empty :
    (window now : ℕ) (f : AuthFailure)
    → ((side : Bool) → times side f ≡ [])
    → Keeps window now f (failure_at none)
Keeps-empty window now f e = record {
  counts = λ side later h. ap (inside window later) (times-none side ∙ sym (e side));
  rises = λ side last r. subst (Rising 0 last) (sym (times-none side)) (Rising-none last);
}

-- Another entry under an address changes what is held of this address only.
pub Keeps-lookup :
    (window now : ℕ) (ip other : String) (fs gs : List (String × AuthFailure)) (f : AuthFailure)
    (o : Option AuthFailure)
    → lookup other fs ≡ some f
    → Keeps window now f (failure_at o)
    → lookup ip gs ≡ (if str_eq other ip then o else lookup ip fs)
    → Keeps window now (failure_at (lookup ip fs)) (failure_at (lookup ip gs))
unfolding failure_at
Keeps-lookup window now ip other fs gs f o there k e = elim (Bool-cases (str_eq other ip)) [
  | inl same ↦
      let l = sym there ∙ ap (λ x. lookup x fs) ((string_eq.beq_iff other ip).0 same) in
      let m : lookup ip gs ≡ o = e ∙ rw same refl in
      subst (λ x. Keeps window now x (failure_at (lookup ip gs))) (ap failure_at l)
        (subst (λ x. Keeps window now f x) (ap failure_at (sym m)) k)
  | inr differs ↦
      let m : lookup ip gs ≡ lookup ip fs = e ∙ rw differs refl in
      subst (λ x. Keeps window now (failure_at (lookup ip fs)) x) (ap failure_at (sym m))
        (Keeps-same window now (failure_at (lookup ip fs)))
]

Keeps-reap_failure :
    (window now : ℕ) (ip other : String) (fs : List (String × AuthFailure))
    → Keeps window now
        (failure_at (lookup ip fs))
        (failure_at (lookup ip (reap_failure window now other fs)))
unfolding reap_failure failure_at
Keeps-reap_failure window now ip other fs = elim (Option-cases (lookup other fs)) [
  | inl none_there ↦
      rw (none_there, reap_failure) (Keeps-same window now (failure_at (lookup ip fs)))
  | inr (f, there) ↦
      let g = prune_failure window now f in
      let kept = Keeps-prune_failure window now f in
      elim (Bool-cases (is_idle now g)) [
        | inl idle ↦
            let gone =
              Keeps-then window now f g (failure_at none) kept
                (Keeps-empty window now g (is_idle-empty now g idle)) in
            let e : reap_failure window now other fs ≡ delete other fs =
              rw (there, reap_failure) (rw idle refl) in
            subst (λ x. Keeps window now (failure_at (lookup ip fs)) (failure_at (lookup ip x)))
              (sym e)
              (Keeps-lookup window now ip other fs (delete other fs) f none there gone
                (lookup-delete other ip fs))
        | inr busy ↦
            let e : reap_failure window now other fs ≡ insert other g fs =
              rw (there, reap_failure) (rw busy refl) in
            subst (λ x. Keeps window now (failure_at (lookup ip fs)) (failure_at (lookup ip x)))
              (sym e)
              (Keeps-lookup window now ip other fs (insert other g fs) f (some g) there kept
                (lookup-insert other ip g fs))
      ]
]

pub Keeps-reap_failures :
    (window now : ℕ) (ip : String) (ips : List String) (fs : List (String × AuthFailure))
    → Keeps window now
        (failure_at (lookup ip fs))
        (failure_at (lookup ip (reap_failures window now ips fs)))
unfolding reap_failures
Keeps-reap_failures window now ip [] fs = Keeps-same window now (failure_at (lookup ip fs))
Keeps-reap_failures window now ip (i ∷ is) fs =
    let gs = reap_failure window now i fs in
    Keeps-then window now (failure_at (lookup ip fs)) (failure_at (lookup ip gs))
      (failure_at (lookup ip (reap_failures window now is gs)))
      (Keeps-reap_failure window now ip i fs) (Keeps-reap_failures window now ip is gs)
