-- ===== src/Health/Frontier/Isolated.antt =====
-- internal/health/frontier.go: the circuit of a provider against the outcomes of its own probes.
use mathlib.Core.Path.{subst}
use text.Mathlib.Text.{◌==◌ as str_eq}
use nexus_proxy.Shared.{
  ℕ, suc, ◌+◌, ◌≡◌, ◌<◌, refl, sym, ap, ◌∙◌, Bool, true, false, ◌||◌, String, none, some, List, [],
  ◌∷◌, ltb, length, arith, Bool-cases, Option-cases, inl, inr, if◌then◌else◌,
}
use nexus_proxy.Shared.Int.{pos, ◌+ℤ◌, wrap_int32}
use nexus_proxy.Shared.Assoc.{string_eq, lookup, insert, lookup-insert}
use nexus_proxy.Health.Poller.{Reply}
use nexus_proxy.Health.Frontier.{
  ProviderState, FrontierHealth, fresh_state, register, new_frontier_health, frontier_failure,
  frontier_success, probe_fails, recorded, probe_one, probe_all, is_healthy,
}

-- The failures of the provider's own probes since its last success, from `n` on.
unfoldable pub streak : String → ℕ → List (String × Reply) → ℕ
streak name n [] = n
streak name n ((other, reply) ∷ probes) =
    streak name (if str_eq other name then (if probe_fails reply then suc n else 0) else n) probes

-- A circuit with `n` failures in a row.
record Streak (limit n : ℕ) (st : ProviderState) : Type 0 where
  counted : st.failure_count ≡ pos n
  judged : st.healthy ≡ ltb n limit

Streak-failure :
    (limit n : ℕ) (st : ProviderState)
    → n + 1 < 2147483648
    → Streak limit n st
    → Streak limit (suc n) (frontier_failure (pos limit) st).0
unfolding frontier_failure wrap_int32 ◌+ℤ◌
Streak-failure limit n st small v = ground arith

Streak-success :
    (limit : ℕ) (st : ProviderState) → 0 < limit → Streak limit 0 (frontier_success st).0
unfolding frontier_success
Streak-success limit st p = ground arith

Streak-recorded :
    (limit n : ℕ) (name : String) (reply : Reply) (st : ProviderState)
    → 0 < limit
    → n + 1 < 2147483648
    → Streak limit n st
    → Streak limit (if probe_fails reply then suc n else 0) (recorded name reply (pos limit) st).0
unfolding recorded
Streak-recorded limit n name reply st p small v = elim (Bool-cases (probe_fails reply)) [
  | inl f ↦ rw f (Streak-failure limit n st small v)
  | inr f ↦ rw f (Streak-success limit st p)
]

-- The provider's circuit in a poller that trips at `limit`.
record Followed (limit n : ℕ) (name : String) (fh : FrontierHealth) : Type 0 where
  limited : fh.breaker_threshold ≡ pos limit
  state : ProviderState
  found : lookup name fh.states ≡ some state
  follows : Streak limit n state

probe_one-none :
    (fh : FrontierHealth) (name : String) (reply : Reply)
    → lookup name fh.states ≡ none
    → (probe_one fh name reply).0 ≡ fh
unfolding probe_one
probe_one-none fh name reply h = rw (h, probe_one) refl

probe_one-some :
    (fh : FrontierHealth) (name : String) (reply : Reply) (st : ProviderState)
    → lookup name fh.states ≡ some st
    → (probe_one fh name reply).0
      ≡ record fh { states = insert name (recorded name reply fh.breaker_threshold st).0 fh.states }
unfolding probe_one
probe_one-some fh name reply st h = rw (h, probe_one) refl

Followed-probe_one :
    (limit n : ℕ) (name other : String) (reply : Reply) (fh : FrontierHealth)
    → 0 < limit
    → n + 1 < 2147483648
    → Followed limit n name fh
    → Followed limit
        (if str_eq other name then (if probe_fails reply then suc n else 0) else n)
        name
        (probe_one fh other reply).0
Followed-probe_one limit n name other reply fh p small v =
    elim (Option-cases (lookup other fh.states)) [
      | inl none_there ↦ elim (Bool-cases (str_eq other name)) [
        | inl same ↦
            let z : none ≡ some v.state =
              sym none_there
              ∙ ap (λ x. lookup x fh.states) ((string_eq.beq_iff other name).0 same)
              ∙ v.found in
            absurd (ground arith)
        | inr differs ↦ rw (probe_one-none fh other reply none_there, differs) v
      ]
      | inr (st, there) ↦
          let next = (recorded other reply fh.breaker_threshold st).0 in
          let written = lookup-insert other name next fh.states in
          elim (Bool-cases (str_eq other name)) [
            | inl same ↦
                let e : some v.state ≡ some st =
                  sym v.found
                  ∙ ap (λ x. lookup x fh.states) (sym ((string_eq.beq_iff other name).0 same))
                  ∙ there in
                rw (probe_one-some fh other reply st there, same)
                  (record {
                    limited = v.limited;
                    state = next;
                    found = written ∙ rw same refl;
                    follows =
                        let s = ap (λ o. elim o [ none ↦ v.state | some x ↦ x ]) e in
                        let m = if probe_fails reply then suc n else 0 in
                        subst (λ k. Streak limit m (recorded other reply k st).0) (sym v.limited)
                          (Streak-recorded limit n other reply st p small
                            (subst (Streak limit n) s v.follows));
                  })
            | inr differs ↦
                rw (probe_one-some fh other reply st there, differs)
                  (record {
                    limited = v.limited;
                    state = v.state;
                    found = written ∙ rw differs v.found;
                    follows = v.follows;
                  })
          ]
    ]

Followed-probe_all :
    (limit n : ℕ) (name : String) (fh : FrontierHealth) (probes : List (String × Reply))
    → 0 < limit
    → n + length probes < 2147483648
    → Followed limit n name fh
    → Followed limit (streak name n probes) name (probe_all fh probes).0
unfolding probe_all streak
Followed-probe_all limit n name fh [] p small v = v
Followed-probe_all limit n name fh ((other, reply) ∷ probes) p small v =
    Followed-probe_all limit
      (if str_eq other name then (if probe_fails reply then suc n else 0) else n) name
      (probe_one fh other reply).0 probes p (ground arith)
      (Followed-probe_one limit n name other reply fh p (omega arith) v)

-- Whether a name is one of the targets.
unfoldable pub listed : String → List String → Bool
listed name [] = false
listed name (t ∷ ts) = str_eq t name || listed name ts

lookup-register :
    (name : String) (targets : List String) (states : List (String × ProviderState))
    → lookup name (register targets states)
      ≡ (if listed name targets then some fresh_state else lookup name states)
unfolding register listed
lookup-register name [] states = refl
lookup-register name (t ∷ ts) states = elim (Bool-cases (listed name ts)) [
  | inl later ↦ lookup-register name ts (insert t fresh_state states) ∙ ground arith
  | inr absent ↦
      lookup-register name ts (insert t fresh_state states)
      ∙ rw absent (lookup-insert t name fresh_state states ∙ ground arith)
]

Followed-new :
    (targets : List String) (limit : ℕ) (name : String)
    → 0 < limit
    → limit < 2147483648
    → listed name targets ≡ true
    → Followed limit 0 name (new_frontier_health targets (pos limit))
unfolding new_frontier_health wrap_int32
Followed-new targets limit name p q h = record {
  limited = ground arith;
  state = fresh_state;
  found = lookup-register name targets [] ∙ rw h refl;
  follows = record { counted = refl; judged = ground arith };
}

-- In a poller with a positive threshold that fits an int32, a registered provider is healthy exactly if the
-- failures of its own probes since its last success are fewer than the threshold, whatever the probes of the
-- other providers find and in whatever order they record; fewer than 2147483648 probes are made.
pub frontier_isolated :
    (targets : List String) (limit : ℕ) (name : String) (probes : List (String × Reply))
    → 0 < limit
    → limit < 2147483648
    → listed name targets ≡ true
    → length probes < 2147483648
    → is_healthy (some (probe_all (new_frontier_health targets (pos limit)) probes).0) name
      ≡ ltb (streak name 0 probes) limit
unfolding is_healthy
frontier_isolated targets limit name probes p q h small =
    let v =
      Followed-probe_all limit 0 name (new_frontier_health targets (pos limit)) probes p
        (omega arith) (Followed-new targets limit name p q h) in
    rw (v.found, is_healthy) v.follows.judged
