-- ===== src/Router/Cache/Similar.antt =====
-- internal/router/slm_cache.go: the search for a similar prompt, `cosineSimilarity` and the scan of
-- `getSemantic` over the entries, in whatever order the map gives them.
use mathlib.Core.Path.{subst}
use nexus_proxy.Shared.{
  ℕ, suc, ◌+◌, ◌≡◌, ◌≤◌, ◌⊎◌, inl, inr, refl, sym, ap, ◌∙◌, Bool, true, false, ◌||◌, Option, none,
  some, List, [], ◌∷◌, ◌++◌, ltb, ◌==◌, length, if◌then◌else◌, arith, Bool-cases,
}
use nexus_proxy.Router.Types.{Route}
use nexus_proxy.Router.Cache.{CachedDecision}

-- float64: the operations that the similarity uses, with no law assumed.
pub record Reals : Type 1 where
  pub F : Type 0
  pub add : F → F → F
  pub mul : F → F → F
  pub div : F → F → F
  pub sqrt : F → F
  pub is_null : F → Bool
  pub less : F → F → Bool
  pub at_least : F → F → Bool  -- `at_least a b` is a >= b
  pub null : F
  pub one : F
  pub minus_one : F

module _ (fl : Reals) where
  open fl use {F, add, mul, div, sqrt, is_null, less, at_least, null, one, minus_one}

  -- The loop of `cosineSimilarity`, over the shorter length.
  unfoldable pub cosine_loop : List F → List F → F → F → F → F
  cosine_loop [] ys dot na nb =
      if is_null na || is_null nb then null else div dot (mul (sqrt na) (sqrt nb))
  cosine_loop (x ∷ xs) [] dot na nb =
      if is_null na || is_null nb then null else div dot (mul (sqrt na) (sqrt nb))
  cosine_loop (x ∷ xs) (y ∷ ys) dot na nb =
      cosine_loop xs ys (add dot (mul x y)) (add na (mul x x)) (add nb (mul y y))

  -- `cosineSimilarity`.
  unfoldable pub cosine_similarity : List F → List F → F
  cosine_similarity a b = cosine_loop a b null null null

  -- What the scan does with an entry: it passes over it, counts its dimension as wrong, or scores it.
  pub data Comparison : Type 0 where
    skipped mismatched : Comparison
    scored : F → Comparison

  unfoldable pub compared : List F → Option (List F) → Comparison
  unfolding cosine_similarity
  compared emb none = skipped
  compared emb (some v) =
      if length emb == length v then scored (cosine_similarity emb v) else mismatched

  unfoldable pub verdict : ℕ → ℕ → List F → CachedDecision (List F) → Comparison
  unfolding compared
  verdict ttl now emb e = if ltb (e.stamp + ttl) now then skipped else compared emb e.emb

  -- The best route so far with its score, and the count of wrong dimensions.
  pub record Best : Type 0 where
    pub best : Option Route
    pub score : F
    pub mismatches : ℕ

  unfoldable pub better : Best → F → Route → Best
  better b s route = if less b.score s then record b { best = some route; score = s } else b

  -- The loop of `getSemantic`.
  unfoldable pub semantic_scan : ℕ → ℕ → List F → List (CachedDecision (List F)) → Best → Best
  unfolding verdict better
  semantic_scan ttl now emb [] b = b
  semantic_scan ttl now emb (e ∷ es) b = elim (verdict ttl now emb e) [
    | skipped ↦ semantic_scan ttl now emb es b
    | mismatched ↦ semantic_scan ttl now emb es (record b { mismatches = suc b.mismatches })
    | scored s ↦
        let next = better b s e.route in
        let rest = semantic_scan ttl now emb es next in
        if at_least next.score one then next else rest
  ]

  abbrev pub no_best : Best
  no_best = record { best = none; score = minus_one; mismatches = 0 }

  -- `getSemantic`, behind the call of the embedder.
  unfoldable pub get_semantic : ℕ → F → ℕ → List F → List (CachedDecision (List F)) → Option Route
  unfolding semantic_scan
  get_semantic ttl threshold now emb entries =
      let b = semantic_scan ttl now emb entries no_best in
      if at_least b.score threshold then b.best else none

  -- An entry that is within its time to live and whose embedding has the dimension of the given one, with
  -- the cosine similarity of the two.
  abbrev pub Scores : ℕ → ℕ → List F → CachedDecision (List F) → F → Type 0
  Scores ttl now emb e s =
      (v : List F) × ((now ≤ e.stamp + ttl)
        × ((e.emb ≡ some v) × ((length emb ≡ length v) × (s ≡ cosine_similarity emb v))))

  compared-Scores :
      (emb : List F) (o : Option (List F)) (s : F)
      → compared emb o ≡ scored s
      → (v : List F) × ((o ≡ some v) × ((length emb ≡ length v) × (s ≡ cosine_similarity emb v)))
  unfolding compared
  compared-Scores emb none s h = ground arith
  compared-Scores emb (some v) s h = elim (Bool-cases (length emb == length v)) [
    | inl e ↦ (v, (refl, (ground arith, ground arith)))
    | inr e ↦ ground arith
  ]

  verdict-Scores :
      (ttl now : ℕ) (emb : List F) (e : CachedDecision (List F)) (s : F)
      → verdict ttl now emb e ≡ scored s
      → Scores ttl now emb e s
  unfolding verdict
  verdict-Scores ttl now emb e s h = elim (Bool-cases (ltb (e.stamp + ttl) now)) [
    | inl old ↦ ground arith
    | inr young ↦
        let (v, rest) = compared-Scores emb e.emb s (sym (rw young refl) ∙ h) in
        (v, (ground arith, rest))
  ]

  -- One of the entries has this route, and its score is this one.
  abbrev pub FromEntry : ℕ → ℕ → List F → List (CachedDecision (List F)) → Route → F → Type 0
  FromEntry ttl now emb entries r s =
      (before : List (CachedDecision (List F))) × ((e : CachedDecision (List F)) × ((behind : List
            (CachedDecision (List F)))
          × ((entries ≡ before ++ (e ∷ behind)) × ((e.route ≡ r) × Scores ttl now emb e s))))

  Comparison-cases :
      (v : Comparison) → (v ≡ skipped) ⊎ ((v ≡ mismatched) ⊎ ((s : F) × (v ≡ scored s)))
  Comparison-cases skipped = inl refl
  Comparison-cases mismatched = inr (inl refl)
  Comparison-cases (scored s) = inr (inr (s, refl))

  -- Where a best route comes from: the one before the scan, or an entry.
  Comes : ℕ → ℕ → List F → List (CachedDecision (List F)) → Best → Best → Type 0
  Comes ttl now emb es b c =
      ((c.best ≡ b.best) × (c.score ≡ b.score))
      ⊎ ((r : Route) × ((c.best ≡ some r) × FromEntry ttl now emb es r c.score))

  Comes-behind :
      (ttl now : ℕ) (emb : List F) (e : CachedDecision (List F))
      (es : List (CachedDecision (List F))) (b c : Best)
      → Comes ttl now emb es b c
      → Comes ttl now emb (e ∷ es) b c
  unfolding Comes
  Comes-behind ttl now emb e es b c (inl h) = inl h
  Comes-behind ttl now emb e es b c (inr (r, (h, (pre, (d, (post, (f, g))))))) =
      inr (r, (h, (e ∷ pre, (d, (post, (ap (λ x. e ∷ x) f, g))))))

  scan-scored :
      (ttl now : ℕ) (emb : List F) (e : CachedDecision (List F))
      (es : List (CachedDecision (List F))) (b : Best) (s : F)
      → verdict ttl now emb e ≡ scored s
      → (semantic_scan ttl now emb (e ∷ es) b ≡ better b s e.route)
        ⊎ (semantic_scan ttl now emb (e ∷ es) b ≡ semantic_scan ttl now emb es (better b s e.route))
  unfolding semantic_scan
  scan-scored ttl now emb e es b s v = elim (Bool-cases (at_least (better b s e.route).score one)) [
    | inl h ↦ inl (rw (v, semantic_scan) (rw h refl))
    | inr h ↦ inr (rw (v, semantic_scan) (rw h refl))
  ]

  Comes-better :
      (ttl now : ℕ) (emb : List F) (e : CachedDecision (List F))
      (es : List (CachedDecision (List F))) (b : Best) (s : F)
      → verdict ttl now emb e ≡ scored s
      → Comes ttl now emb (e ∷ es) b (better b s e.route)
  unfolding better Comes
  Comes-better ttl now emb e es b s v = elim (Bool-cases (less b.score s)) [
    | inl h ↦
        rw h
          (inr (e.route, (refl, ([], (e, (es, (refl, (refl, verdict-Scores ttl now emb e s v))))))))
    | inr h ↦ rw h (inl (refl, refl))
  ]

  Comes-then :
      (ttl now : ℕ) (emb : List F) (es : List (CachedDecision (List F))) (a b c : Best)
      → Comes ttl now emb es a b
      → Comes ttl now emb es b c
      → Comes ttl now emb es a c
  unfolding Comes
  Comes-then ttl now emb es a b c f (inr g) = inr g
  Comes-then ttl now emb es a b c (inl (p, q)) (inl (v, w)) = inl (v ∙ p, w ∙ q)
  Comes-then ttl now emb es a b c (inr (r, (p, q))) (inl (v, w)) =
      inr (r, (v ∙ p, subst (FromEntry ttl now emb es r) (sym w) q))

  scan-Comes :
      (ttl now : ℕ) (emb : List F) (es : List (CachedDecision (List F))) (b : Best)
      → Comes ttl now emb es b (semantic_scan ttl now emb es b)
  unfolding semantic_scan Comes
  scan-Comes ttl now emb [] b = inl (refl, refl)
  scan-Comes ttl now emb (e ∷ es) b = elim (Comparison-cases (verdict ttl now emb e)) [
    | inl v ↦
        rw (v, semantic_scan)
          (Comes-behind ttl now emb e es b (semantic_scan ttl now emb es b)
            (scan-Comes ttl now emb es b))
    | inr (inl v) ↦
        let d = record b { mismatches = suc b.mismatches } in
        rw (v, semantic_scan)
          (Comes-then ttl now emb (e ∷ es) b d (semantic_scan ttl now emb es d) (inl (refl, refl)) (
            Comes-behind ttl now emb e es d (semantic_scan ttl now emb es d)
              (scan-Comes ttl now emb es d)))
    | inr (inr (s, v)) ↦
        let first = Comes-better ttl now emb e es b s v in
        let next = better b s e.route in
        elim (scan-scored ttl now emb e es b s v) [
          | inl h ↦ subst (Comes ttl now emb (e ∷ es) b) (sym h) first
          | inr h ↦ subst (Comes ttl now emb (e ∷ es) b) (sym h) (
              Comes-then ttl now emb (e ∷ es) b next (semantic_scan ttl now emb es next) first (
                Comes-behind ttl now emb e es next (semantic_scan ttl now emb es next)
                  (scan-Comes ttl now emb es next)))
        ]
  ]

  -- A hit by similarity is the route of an entry that was stored no longer ago than the time to live and has
  -- an embedding of the same dimension whose cosine similarity reaches the threshold, if the threshold lies above the -1 that the scan starts
  -- from.
  pub get_semantic_sound :
      (ttl now : ℕ) (threshold : F) (emb : List F) (entries : List (CachedDecision (List F)))
      (r : Route)
      → at_least minus_one threshold ≡ false
      → get_semantic ttl threshold now emb entries ≡ some r
      → (s : F) × (FromEntry ttl now emb entries r s × (at_least s threshold ≡ true))
  unfolding get_semantic Comes
  get_semantic_sound ttl now threshold emb entries r low h =
      let b = semantic_scan ttl now emb entries no_best in
      elim (scan-Comes ttl now emb entries no_best) [
        | inl (p, q) ↦ absurd (
            let z : at_least b.score threshold ≡ false = ap (λ x. at_least x threshold) q ∙ low in
            ground arith)
        | inr (d, (p, q)) ↦ elim (Bool-cases (at_least b.score threshold)) [
          | inl g ↦
              let z : some d ≡ some r = sym p ∙ sym (rw g refl) ∙ h in
              (b.score, (subst (λ x. FromEntry ttl now emb entries x b.score) (ground arith) q, g))
          | inr g ↦ ground arith
        ]
      ]
