-- ===== src/Router/Cache/Sweep.antt =====
-- internal/router/slm_cache.go: what the sweep of the expired entries leaves and keeps.
use text.Mathlib.Text.{◌==◌ as str_eq}
use nexus_proxy.Shared.{
  ℕ, ◌≡◌, ◌≤◌, ◌≢◌, ◌⊎◌, inl, inr, refl, sym, ap, ◌∙◌, Bool, true, false, String, none, some, List,
  [], ◌∷◌, length, arith, Bool-cases, Option-cases, ◌||◌,
}
use nexus_proxy.Shared.Assoc.{string_eq, lookup, lookup-delete, length-delete-le}
use nexus_proxy.Router.Cache.{
  CachedDecision, Swept, Met, missing, fresh, expired, stale, meet, noted, without_met, sweep,
}

-- Whether a key stands in a list.
unfoldable pub holds : String → List String → Bool
holds k [] = false
holds k (j ∷ js) = str_eq j k || holds k js

pub key-cases : (j k : String) → (j ≡ k) ⊎ ((str_eq j k ≡ false) × (str_eq k j ≡ false))
key-cases j k = elim (Bool-cases (str_eq j k)) [
  | inl h ↦ inl ((string_eq.beq_iff j k).0 h)
  | inr h ↦ inr (h, ground (arith, string_eq.beq_iff j k, string_eq.beq_iff k j))
]

-- sort.Slice moves the elements of a slice, and neither drops nor makes one.
abbrev pub Moves : ((String → String → Bool) → List String → List String) → Type 0
Moves sort =
    (less : String → String → Bool) (k : String) (ks : List String)
    → holds k (sort less ks) ≡ holds k ks

module _ (E : Type 0) (sort : (String → String → Bool) → List String → List String) where
  -- Every entry's key stands in the list of expiries.
  abbrev pub Listed : List (String × CachedDecision E) → List String → Type 0
  Listed entries keys =
      (k : String) (e : CachedDecision E) → lookup k entries ≡ some e → holds k keys ≡ true

  -- Every key of a list has an entry.
  abbrev pub Present : List (String × CachedDecision E) → List String → Type 0
  Present entries keys =
      (k : String) → holds k keys ≡ true → (e : CachedDecision E) × (lookup k entries ≡ some e)

  noted-left : (j : String) (m : Met E sort) (s : Swept E sort) → (noted E sort j m s).left ≡ s.left
  unfolding noted
  noted-left j missing s = refl
  noted-left j fresh s = refl
  noted-left j expired s = refl

  noted-holds :
      (j k : String) (m : Met E sort) (s : Swept E sort)
      → holds k s.keep ≡ true
      → holds k (noted E sort j m s).keep ≡ true
  unfolding noted holds
  noted-holds j k missing s h = h
  noted-holds j k fresh s h = ground arith
  noted-holds j k expired s h = h

  noted-keep :
      (j : String) (m : Met E sort) (s : Swept E sort)
      → m ≢ fresh
      → (noted E sort j m s).keep ≡ s.keep
  unfolding noted
  noted-keep j missing s h = refl
  noted-keep j fresh s h = absurd (h refl)
  noted-keep j expired s h = refl

  noted_fresh :
      (j k : String) (m : Met E sort) (s : Swept E sort)
      → m ≡ fresh
      → holds k (noted E sort j m s).keep ≡ (str_eq j k || holds k s.keep)
  unfolding noted holds
  noted_fresh j k m s h = rw h refl

  -- What the loop does with one key.
  met_cases :
      (ttl now : ℕ) (j : String) (entries : List (String × CachedDecision E))
      → let m = meet E sort ttl now (lookup j entries) in
        ((m ≡ missing) × (lookup j entries ≡ none))
        ⊎ (((e : CachedDecision E) × ((lookup j entries ≡ some e)
                × ((m ≡ fresh) × (meet E sort ttl now (some e) ≡ fresh))))
            ⊎ ((e : CachedDecision E) × ((lookup j entries ≡ some e)
                  × ((m ≡ expired) × (meet E sort ttl now (some e) ≡ expired)))))
  unfolding meet
  met_cases ttl now j entries = elim (Option-cases (lookup j entries)) [
    | inl n ↦ inl (rw n refl, n)
    | inr (e, n) ↦ elim (Bool-cases (stale E sort ttl now e.stamp)) [
      | inl s ↦ inr (inr (e, (n, (rw n (rw s refl), rw s refl))))
      | inr s ↦ inr (inl (e, (n, (rw n (rw s refl), rw s refl))))
    ]
  ]

  other_key :
      (ttl now : ℕ) (j k : String) (d e : CachedDecision E)
      (entries : List (String × CachedDecision E))
      → lookup j entries ≡ some d
      → lookup k entries ≡ some e
      → meet E sort ttl now (some d) ≡ expired
      → meet E sort ttl now (some e) ≡ fresh
      → str_eq j k ≡ false
  other_key ttl now j k d e entries h i f g = elim (key-cases j k) [
    | inl s ↦
        let z : some d ≡ some e = sym h ∙ ap (λ x. lookup x entries) s ∙ i in
        absurd (let y : expired ≡ fresh = sym f ∙ ap (meet E sort ttl now) z ∙ g in ground arith)
    | inr n ↦ n.0
  ]

  without_met-keeps :
      (ttl now : ℕ) (j k : String) (e : CachedDecision E)
      (entries : List (String × CachedDecision E))
      → lookup k entries ≡ some e
      → meet E sort ttl now (some e) ≡ fresh
      → lookup k (without_met E sort j (meet E sort ttl now (lookup j entries)) entries) ≡ some e
  unfolding without_met
  without_met-keeps ttl now j k e entries h f = elim (met_cases ttl now j entries) [
    | inl (m, n) ↦ rw m h
    | inr (inl (d, (n, (m, q)))) ↦ rw m h
    | inr (inr (d, (n, (m, q)))) ↦
        rw m (lookup-delete j k entries ∙ rw (other_key ttl now j k d e entries n h q f) h)
  ]

  without_met-le :
      (j k : String) (m : Met E sort) (e : CachedDecision E)
      (entries : List (String × CachedDecision E))
      → lookup k (without_met E sort j m entries) ≡ some e
      → lookup k entries ≡ some e
  unfolding without_met
  without_met-le j k missing e entries h = h
  without_met-le j k fresh e entries h = h
  without_met-le j k expired e entries h = ground (arith, lookup-delete j k entries)

  pub sweep-keeps :
      (ttl now : ℕ) (k : String) (e : CachedDecision E) (keys : List String)
      (entries : List (String × CachedDecision E))
      → lookup k entries ≡ some e
      → meet E sort ttl now (some e) ≡ fresh
      → lookup k (sweep E sort ttl now keys entries).left ≡ some e
  unfolding sweep
  sweep-keeps ttl now k e [] entries h f = h
  sweep-keeps ttl now k e (j ∷ js) entries h f =
      let m = meet E sort ttl now (lookup j entries) in
      rw (noted-left j m (sweep E sort ttl now js (without_met E sort j m entries))) (
        sweep-keeps ttl now k e js (without_met E sort j m entries)
          (without_met-keeps ttl now j k e entries h f) f)

  pub sweep-le :
      (ttl now : ℕ) (k : String) (e : CachedDecision E) (keys : List String)
      (entries : List (String × CachedDecision E))
      → lookup k (sweep E sort ttl now keys entries).left ≡ some e
      → lookup k entries ≡ some e
  unfolding sweep
  sweep-le ttl now k e [] entries h = h
  sweep-le ttl now k e (j ∷ js) entries h =
      let m = meet E sort ttl now (lookup j entries) in
      let s = sweep E sort ttl now js (without_met E sort j m entries) in
      without_met-le j k m e entries (
        sweep-le ttl now k e js (without_met E sort j m entries)
          (ap (λ x. lookup k x) (sym (noted-left j m s)) ∙ h))

  -- What the loop keeps has an entry.
  pub sweep-Present :
      (ttl now : ℕ) (keys : List String) (entries : List (String × CachedDecision E))
      → Present (sweep E sort ttl now keys entries).left (sweep E sort ttl now keys entries).keep
  unfolding sweep holds
  sweep-Present ttl now [] entries k h = ground arith
  sweep-Present ttl now (j ∷ js) entries k h =
      let m = meet E sort ttl now (lookup j entries) in
      let rest = without_met E sort j m entries in
      let s = sweep E sort ttl now js rest in
      let left = noted-left j m s in
      let found = sweep-Present ttl now js rest k in
      elim (met_cases ttl now j entries) [
        | inl (n, o) ↦
            let g : m ≢ fresh = λ e. let z : missing ≡ fresh = sym n ∙ e in ground arith in
            let (x, y) = found (ap (holds k) (sym (noted-keep j m s g)) ∙ h) in
            (x, ap (lookup k) left ∙ y)
        | inr (inl (d, (o, (n, q)))) ↦ elim (Bool-cases (holds k s.keep)) [
          | inl g ↦ let (x, y) = found g in (x, ap (lookup k) left ∙ y)
          | inr g ↦
              let f = sym (noted_fresh j k m s n) ∙ h in
              let same : j ≡ k = (string_eq.beq_iff j k).0 (ground arith) in
              let here = ap (λ x. lookup x entries) (sym same) ∙ o in
              (
                d,
                ap (lookup k) left
                    ∙ sweep-keeps ttl now k d js rest
                        (without_met-keeps ttl now j k d entries here q) q,
              )
        ]
        | inr (inr (d, (o, (n, q)))) ↦
            let g : m ≢ fresh = λ e. let z : expired ≡ fresh = sym n ∙ e in ground arith in
            let (x, y) = found (ap (holds k) (sym (noted-keep j m s g)) ∙ h) in
            (x, ap (lookup k) left ∙ y)
      ]

  deleted :
      (j k : String) (m : Met E sort) (entries : List (String × CachedDecision E))
      → j ≡ k
      → m ≡ expired
      → lookup k (without_met E sort j m entries) ≡ none
  unfolding without_met
  deleted j k m entries same n =
      rw n (lookup-delete j k entries ∙ rw ((string_eq.beq_iff j k).1 same) refl)

  without_met-length :
      (j : String) (m : Met E sort) (entries : List (String × CachedDecision E))
      → length (without_met E sort j m entries) ≤ length entries
  unfolding without_met
  without_met-length j missing entries = omega arith
  without_met-length j fresh entries = omega arith
  without_met-length j expired entries = length-delete-le j entries

  pub sweep-length :
      (ttl now : ℕ) (keys : List String) (entries : List (String × CachedDecision E))
      → length (sweep E sort ttl now keys entries).left ≤ length entries
  unfolding sweep
  sweep-length ttl now [] entries = omega arith
  sweep-length ttl now (j ∷ js) entries =
      let m = meet E sort ttl now (lookup j entries) in
      let rest = without_met E sort j m entries in
      let s = sweep E sort ttl now js rest in
      let a = ap length (noted-left j m s) in
      omega (arith, sweep-length ttl now js rest, without_met-length j m entries)

  -- A key whose entry is left is kept.
  pub sweep-Listed :
      (ttl now : ℕ) (k : String) (e : CachedDecision E) (keys : List String)
      (entries : List (String × CachedDecision E))
      → lookup k (sweep E sort ttl now keys entries).left ≡ some e
      → holds k keys ≡ true
      → holds k (sweep E sort ttl now keys entries).keep ≡ true
  unfolding sweep holds
  sweep-Listed ttl now k e [] entries h g = ground arith
  sweep-Listed ttl now k e (j ∷ js) entries h g =
      let m = meet E sort ttl now (lookup j entries) in
      let rest = without_met E sort j m entries in
      let s = sweep E sort ttl now js rest in
      let l = ap (lookup k) (sym (noted-left j m s)) ∙ h in
      let back = sweep-le ttl now k e js rest l in
      elim (key-cases j k) [
        | inr (n, o) ↦ noted-holds j k m s (sweep-Listed ttl now k e js rest l (ground arith))
        | inl same ↦ elim (met_cases ttl now j entries) [
          | inl (n, o) ↦
              let whole = without_met-le j k m e entries back in
              absurd (
                let z : none ≡ some e = sym o ∙ ap (λ x. lookup x entries) same ∙ whole in
                ground arith)
          | inr (inl (d, (o, (n, q)))) ↦
              noted_fresh j k m s n ∙ rw ((string_eq.beq_iff j k).1 same) refl
          | inr (inr (d, (o, (n, q)))) ↦
              let gone = deleted j k m entries same n in
              absurd (let z : none ≡ some e = sym gone ∙ back in ground arith)
        ]
      ]
