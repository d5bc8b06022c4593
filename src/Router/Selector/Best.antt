-- ===== src/Router/Selector/Best.antt =====
-- internal/router/selector.go: which provider SelectFrontier chooses.
use mathlib.Core.Path.{subst}
use mathlib.Core.Option.{none-ne-some, some-injective}
use nexus_proxy.Shared.{
  ◌≡◌, ◌↔◌, refl, sym, ap, ◌∙◌, ◌⊎◌, inl, inr, Bool, true, false, Option, none, some, List, [], ◌∷◌,
  arith, Bool-cases, Option-cases, if◌then◌else◌,
}
use nexus_proxy.Router.Selector.{
  SelectorFloats, ProviderStats, ProviderSelector, tail_blend, skipped, candidates, provider_score,
  bytes_before, ranks_before, stable_insert, slice_stable, first_of, select_frontier,
}
use nexus_proxy.Router.Selector.Order.{NoNan, ranks_before-asymmetric, ranks_before-comparable}

module _ (f : SelectorFloats) where
  unfoldable pub Among : ProviderStats f → List (ProviderStats f) → Type 0
  Among p [] = ⊥
  Among p (q ∷ qs) = (p ≡ q) ⊎ Among p qs

  -- The filter keeps those that are not skipped, and no others.
  Among-candidates :
      (s : ProviderSelector f) (p : ProviderStats f) (ps : List (ProviderStats f))
      → Among p ps
      → skipped f s p ≡ false
      → Among p (candidates f s ps)
  unfolding Among candidates
  Among-candidates s p [] m h = elim m [ ]
  Among-candidates s p (q ∷ qs) (inl e) h = rw (subst (λ r. skipped f s r ≡ false) e h) (inl e)
  Among-candidates s p (q ∷ qs) (inr m) h = elim (Bool-cases (skipped f s q)) [
    | inl skip ↦ rw skip (Among-candidates s p qs m h)
    | inr keep ↦ rw keep (inr (Among-candidates s p qs m h))
  ]

  kept :
      (s : ProviderSelector f) (p : ProviderStats f) (ps : List (ProviderStats f))
      → Among p (candidates f s ps)
      → Among p ps × (skipped f s p ≡ false)
  unfolding Among candidates
  kept s p [] m = elim m [ ]
  kept s p (q ∷ qs) m = elim (Bool-cases (skipped f s q)) [
    | inl skip ↦ let (a, b) = kept s p qs (rw skip at m) in (inr a, b)
    | inr keep ↦
        let m' : (p ≡ q) ⊎ Among p (candidates f s qs) = rw keep at m in
        elim m' [
          | inl e ↦ (inl e, subst (λ r. skipped f s r ≡ false) (sym e) keep)
          | inr rest ↦ let (a, b) = kept s p qs rest in (inr a, b)
        ]
  ]

  -- The elements that nothing in a list ranks before.
  record Best (less : ProviderStats f → ProviderStats f → Bool) (w : ProviderStats f)
      (ps : List (ProviderStats f)) : Type 0 where
    among : Among w ps
    unbeaten : (p : ProviderStats f) → Among p ps → less p w ≡ false

  leader :
      (ProviderStats f → ProviderStats f → Bool)
      → ProviderStats f
      → Option (ProviderStats f)
      → ProviderStats f
  leader less p none = p
  leader less p (some q) = if less q p then q else p

  first_of-stable_insert :
      (less : ProviderStats f → ProviderStats f → Bool) (p : ProviderStats f)
      (ps : List (ProviderStats f))
      → first_of f (stable_insert f less p ps) ≡ some (leader less p (first_of f ps))
  unfolding first_of stable_insert leader
  first_of-stable_insert less p [] = refl
  first_of-stable_insert less p (q ∷ qs) = elim (Bool-cases (less q p)) [
    | inl b ↦ rw b refl
    | inr b ↦ rw b refl
  ]

  -- The first of a sorted list is ranked behind nothing in it.
  module _ (less : ProviderStats f → ProviderStats f → Bool)
      (asym : (p q : ProviderStats f) → less p q ≡ true → less q p ≡ false)
      (comp : (p q r : ProviderStats f)
        → less p q ≡ false
        → less q r ≡ false
        → less p r ≡ false) where
    not_before_itself : (p : ProviderStats f) → less p p ≡ false
    not_before_itself p = elim (Bool-cases (less p p)) [ inl b ↦ asym p p b | inr b ↦ b ]

    Best-stays :
        (p w : ProviderStats f) (ps : List (ProviderStats f))
        → less w p ≡ true
        → Best less w ps
        → Best less w (p ∷ ps)
    unfolding Among
    Best-stays p w ps b v = record {
      among = inr v.among;
      unbeaten = λ q m. elim m [
        | inl e ↦ subst (λ r. less r w ≡ false) (sym e) (asym w p b)
        | inr rest ↦ v.unbeaten q rest
      ];
    }

    Best-new :
        (p w : ProviderStats f) (ps : List (ProviderStats f))
        → less w p ≡ false
        → Best less w ps
        → Best less p (p ∷ ps)
    unfolding Among
    Best-new p w ps b v = record {
      among = inl refl;
      unbeaten = λ q m. elim m [
        | inl e ↦ subst (λ r. less r p ≡ false) (sym e) (not_before_itself p)
        | inr rest ↦ comp q w p (v.unbeaten q rest) b
      ];
    }

    Best-slice_stable :
        (p : ProviderStats f) (ps : List (ProviderStats f))
        → (w : ProviderStats f) × ((first_of f (slice_stable f less (p ∷ ps)) ≡ some w)
            × Best less w (p ∷ ps))
    unfolding slice_stable Among leader first_of
    Best-slice_stable p [] = (
      p,
      (
        first_of-stable_insert less p [],
        record {
          among = inl refl;
          unbeaten = λ q m. elim m [
            | inl e ↦ subst (λ r. less r p ≡ false) (sym e) (not_before_itself p)
            | inr none_left ↦ elim none_left [ ]
          ];
        },
      ),
    )
    Best-slice_stable p (q ∷ qs) =
        let (w, (e, v)) = Best-slice_stable q qs in
        let first =
          first_of-stable_insert less p (slice_stable f less (q ∷ qs))
          ∙ ap (λ o. some (leader less p o)) e in
        elim (Bool-cases (less w p)) [
          | inl b ↦ (w, (rw b at first, Best-stays p w (q ∷ qs) b v))
          | inr b ↦ (p, (rw b at first, Best-new p w (q ∷ qs) b v))
        ]

    Best-first :
        (ps : List (ProviderStats f)) (w : ProviderStats f)
        → first_of f (slice_stable f less ps) ≡ some w
        → Best less w ps
    unfolding slice_stable first_of
    Best-first [] w h = elim (none-ne-some w h) [ ]
    Best-first (p ∷ ps) w h =
        let (u, (e, v)) = Best-slice_stable p ps in
        subst (λ r. Best less r (p ∷ ps)) (some-injective u w (sym e ∙ h)) v

    first-none :
        (ps : List (ProviderStats f)) → first_of f (slice_stable f less ps) ≡ none → ps ≡ []
    first-none [] h = refl
    first-none (p ∷ ps) h =
        let (u, (e, v)) = Best-slice_stable p ps in elim (none-ne-some u (sym h ∙ e)) [ ]

  chosen :
      (s : ProviderSelector f) (n : NoNan f) (stats : List (ProviderStats f)) (w : ProviderStats f)
      → select_frontier f s stats ≡ some w
      → Best (ranks_before f (tail_blend f s)) w (candidates f s stats)
  unfolding select_frontier
  chosen s n stats w h =
      let t = tail_blend f s in
      Best-first (ranks_before f t) (ranks_before-asymmetric f n t) (ranks_before-comparable f n t)
        (candidates f s stats) w h

  no_candidates :
      (s : ProviderSelector f) (n : NoNan f) (stats : List (ProviderStats f))
      → select_frontier f s stats ≡ none
      → candidates f s stats ≡ []
  unfolding select_frontier
  no_candidates s n stats h =
      let t = tail_blend f s in
      first-none (ranks_before f t) (ranks_before-asymmetric f n t) (ranks_before-comparable f n t)
        (candidates f s stats) h

  not_outranked :
      (n : NoNan f) (t : f.F) (p w : ProviderStats f)
      → ranks_before f t p w ≡ false
      → (f.less_than (provider_score f w t) (provider_score f p t) ≡ false)
        × (f.equal (provider_score f p t) (provider_score f w t) ≡ true
            → bytes_before p.name w.name ≡ false)
  unfolding ranks_before
  not_outranked n t p w h =
      let a = provider_score f p t in
      let b = provider_score f w t in ground (arith, n.equal_exact a b, n.asymmetric b a)

  -- Over floats without NaN: what SelectFrontier chooses is one of the given statistics, is not skipped, and no
  -- other that is not skipped has a higher score, or the same score and a smaller name; and it chooses none
  -- exactly if every one of them is skipped.
  pub select_frontier_best :
      (s : ProviderSelector f) (n : NoNan f) (stats : List (ProviderStats f))
      → ((w : ProviderStats f)
          → select_frontier f s stats ≡ some w
          → Among w stats
            × ((skipped f s w ≡ false)
                × ((p : ProviderStats f)
                    → Among p stats
                    → skipped f s p ≡ false
                    → (f.less_than
                          (provider_score f w (tail_blend f s))
                          (provider_score f p (tail_blend f s))
                        ≡ false)
                      × (f.equal
                              (provider_score f p (tail_blend f s))
                              (provider_score f w (tail_blend f s))
                            ≡ true
                          → bytes_before p.name w.name ≡ false))))
        × ((select_frontier f s stats ≡ none)
            ↔ ((p : ProviderStats f) → Among p stats → skipped f s p ≡ true))
  unfolding Among
  select_frontier_best s n stats = (
    (λ w h.
        let v = chosen s n stats w h in
        let (a, k) = kept s w stats v.among in
        (
          a,
          (
            k,
            λ p m e.
                not_outranked n (tail_blend f s) p w
                  (v.unbeaten p (Among-candidates s p stats m e)),
          ),
        )),
    (
      (λ h p m. elim (Bool-cases (skipped f s p)) [
        | inl b ↦ b
        | inr b ↦
            elim (subst (λ l. Among p l) (no_candidates s n stats h)
              (Among-candidates s p stats m b)) [ ]
      ]),
      (λ all. elim (Option-cases (select_frontier f s stats)) [
        | inl e ↦ e
        | inr (w, e) ↦
            let v = chosen s n stats w e in
            let (a, k) = kept s w stats v.among in
            let clash : true ≡ false = sym (all w a) ∙ k in ground arith
      ]),
    ),
  )
