-- ===== src/Router/Cache/Embedder.antt =====
-- internal/router/slm_cache.go: the circuit breaker around the embedder that `Set` and `getSemantic` share.
use nexus_proxy.Shared.{
  ℕ, suc, ◌+◌, ◌-◌, ◌%◌, ◌≡◌, inl, inr, refl, ap, ◌∙◌, true, false, Option, none, some, List, [],
  ◌∷◌, ltb, leb, ◌==◌, if◌then◌else◌, ◌&&◌, arith, Bool-cases,
}

-- `embedFailureCooldownWindow`, 30 seconds.
abbrev pub cooldown_window : ℕ
cooldown_window = 30000000000

-- `embedBreaker` by its index, `embedBreakerPos` and `embedCooldownUntil`.
pub record EmbedBreaker : Type 0 where
  pub slots : ℕ → ℕ
  pub position : ℕ
  pub cooldown_until : ℕ

abbrev pub new_embed_breaker : EmbedBreaker
new_embed_breaker = record { slots = λ i. 0; position = 0; cooldown_until = 0 }

-- `c.embedBreaker[i] = now`.
unfoldable pub put_slot : (ℕ → ℕ) → ℕ → ℕ → ℕ → ℕ
put_slot slots i now j = if j == i then now else slots j

-- `Set` and `getSemantic`, a failure of the embedder.
unfoldable pub note_failure : EmbedBreaker → ℕ → EmbedBreaker
note_failure b now =
    let write_idx = b.position % 3 in
    let slots = put_slot b.slots write_idx now in
    let oldest_idx = (write_idx + 3 - 1) % 3 in
    let noted = record b { slots = slots; position = suc b.position } in
    if leb 3 (suc b.position) && leb (slots write_idx - slots oldest_idx) cooldown_window
    then record noted { cooldown_until = now + cooldown_window; position = 0 }
    else noted

-- `Set` and `getSemantic`, the call of the embedder, which answers with an embedding or fails: the breaker
-- and the embedding. No call is made while the breaker cools down.
unfoldable pub embed_once {ℓ} : {E : Type ℓ} → EmbedBreaker → ℕ → Option E → EmbedBreaker × Option E
unfolding note_failure
embed_once b now answer =
    if ltb now b.cooldown_until
    then (b, none)
    else (elim answer [ none ↦ (note_failure b now, none) | some v ↦ (b, some v) ])

-- A breaker that remembers two numbers: the failures since it last tripped and the time of the last one.
pub record TwoFailures : Type 0 where
  pub count : ℕ
  pub last : ℕ
  pub until : ℕ

unfoldable pub two_failures : TwoFailures → ℕ → TwoFailures
two_failures t now =
    if leb 3 (suc t.count) && leb (now - t.last) cooldown_window
    then record { count = 0; last = now; until = now + cooldown_window }
    else record { count = suc t.count; last = now; until = t.until }

unfoldable pub failures : EmbedBreaker → List ℕ → EmbedBreaker
failures b [] = b
failures b (now ∷ ts) = failures (note_failure b now) ts

unfoldable pub two_failures_all : TwoFailures → List ℕ → TwoFailures
two_failures_all t [] = t
two_failures_all t (now ∷ ts) = two_failures_all (two_failures t now) ts

-- The last failure stands in the slot before the position, if there was one since the breaker tripped.
record Mirrors (b : EmbedBreaker) (t : TwoFailures) : Type 0 where
  counts : b.position ≡ t.count
  untils : b.cooldown_until ≡ t.until
  lasts : (n : ℕ) → b.position ≡ suc n → b.slots (n % 3) ≡ t.last

last_put :
    (b : EmbedBreaker) (n now : ℕ)
    → n ≡ b.position
    → put_slot b.slots (b.position % 3) now (n % 3) ≡ now
unfolding put_slot
last_put b n now h = ground arith

-- Both breakers see the same gap behind the second failure.
same_gap :
    (b : EmbedBreaker) (t : TwoFailures) (now : ℕ)
    → Mirrors b t
    → (leb 3 (suc b.position)
        && leb
            (put_slot b.slots (b.position % 3) now (b.position % 3)
              - put_slot b.slots (b.position % 3) now ((b.position % 3 + 3 - 1) % 3))
            cooldown_window)
      ≡ (leb 3 (suc t.count) && leb (now - t.last) cooldown_window)
unfolding put_slot
same_gap b t now m = elim (Bool-cases (leb 3 (suc b.position))) [
  | inr few ↦ let c = m.counts in ground arith
  | inl many ↦
      let c = m.counts in
      let i = b.position % 3 in
      let prev = b.position - 1 in
      let e : (i + 3 - 1) % 3 ≡ prev % 3 = ground arith in
      let other : ((i + 3 - 1) % 3 == i) ≡ false = ground arith in
      let self : (i == i) ≡ true = ground arith in
      let l = m.lasts prev (ground arith) in
      rw (← c) (
        rw (other, self)
          (ap (λ x. leb 3 (suc b.position) && leb (now - x) cooldown_window) (ap b.slots e ∙ l)))
]

Mirrors-failure :
    (b : EmbedBreaker) (t : TwoFailures) (now : ℕ)
    → Mirrors b t
    → Mirrors (note_failure b now) (two_failures t now)
unfolding note_failure two_failures
Mirrors-failure b t now m =
    let g = same_gap b t now m in
    elim (Bool-cases (leb 3 (suc t.count) && leb (now - t.last) cooldown_window)) [
      | inl h ↦
          rw (g ∙ h, h)
            (record { counts = refl; untils = refl; lasts = λ n e. absurd (omega arith) })
      | inr h ↦
          rw (g ∙ h, h)
            (record {
              counts = ap suc m.counts;
              untils = m.untils;
              lasts = λ n e. last_put b n now (omega arith);
            })
    ]

Mirrors-failures :
    (b : EmbedBreaker) (t : TwoFailures) (ts : List ℕ)
    → Mirrors b t
    → Mirrors (failures b ts) (two_failures_all t ts)
unfolding failures two_failures_all
Mirrors-failures b t [] m = m
Mirrors-failures b t (now ∷ ts) m =
    Mirrors-failures (note_failure b now) (two_failures t now) ts (Mirrors-failure b t now m)

-- After any failures the breaker around the embedder cools down until the same time as one that remembers
-- only two numbers: it trips at the third failure since it last tripped, or a later one, that comes at most
-- 30 seconds behind the failure just before it, however old the earlier ones are.
pub embed_breaker_two :
    (ts : List ℕ)
    → (failures new_embed_breaker ts).cooldown_until
      ≡ (two_failures_all (record { count = 0; last = 0; until = 0 }) ts).until
embed_breaker_two ts =
    let m =
      Mirrors-failures new_embed_breaker (record { count = 0; last = 0; until = 0 }) ts
        (record { counts = refl; untils = refl; lasts = λ n e. absurd (omega arith) }) in
    m.untils
