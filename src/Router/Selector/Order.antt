-- ===== src/Router/Selector/Order.antt =====
-- internal/router/selector.go, the order that SelectFrontier sorts by.
use nexus_proxy.Shared.{ℕ, ◌≡◌, refl, true, false, not, ◌&&◌, List, [], ◌∷◌, arith}
use nexus_proxy.Router.Selector.{
  SelectorFloats, bytes_before, ProviderStats, provider_score, ranks_before,
}

-- What holds of the floats when none of them is NaN.
pub record NoNan (f : SelectorFloats) : Type 0 where
  pub equal_exact : (a b : f.F) → f.equal a b ≡ (not (f.less_than a b) && not (f.less_than b a))
  pub asymmetric : (a b : f.F) → f.less_than a b ≡ true → f.less_than b a ≡ false
  pub comparable :
      (a b c : f.F) → f.less_than a b ≡ false → f.less_than b c ≡ false → f.less_than a c ≡ false

bytes_before-asymmetric : (s t : List ℕ) → bytes_before s t ≡ true → bytes_before t s ≡ false
unfolding bytes_before
bytes_before-asymmetric [] [] h = refl
bytes_before-asymmetric [] (d ∷ t) h = refl
bytes_before-asymmetric (c ∷ s) [] h = ground arith
bytes_before-asymmetric (c ∷ s) (d ∷ t) h = ground (arith, bytes_before-asymmetric s t)

bytes_before-comparable :
    (s t u : List ℕ)
    → bytes_before s t ≡ false
    → bytes_before t u ≡ false
    → bytes_before s u ≡ false
unfolding bytes_before
bytes_before-comparable [] [] u h k = k
bytes_before-comparable [] (d ∷ t) u h k = ground arith
bytes_before-comparable (c ∷ s) t [] h k = refl
bytes_before-comparable (c ∷ s) [] (e ∷ u) h k = ground arith
bytes_before-comparable (c ∷ s) (d ∷ t) (e ∷ u) h k = ground (arith, bytes_before-comparable s t u)

module _ (f : SelectorFloats) (n : NoNan f) where
  pub ranks_before-asymmetric :
      (w : f.F) (p q : ProviderStats f) → ranks_before f w p q ≡ true → ranks_before f w q p ≡ false
  unfolding ranks_before
  ranks_before-asymmetric w p q h =
      let a = provider_score f p w in
      let b = provider_score f q w in
      ground (
        arith,
        n.equal_exact a b,
        n.equal_exact b a,
        n.asymmetric a b,
        n.asymmetric b a,
        bytes_before-asymmetric p.name q.name,
      )

  pub ranks_before-comparable :
      (w : f.F) (p q r : ProviderStats f)
      → ranks_before f w p q ≡ false
      → ranks_before f w q r ≡ false
      → ranks_before f w p r ≡ false
  unfolding ranks_before
  ranks_before-comparable w p q r h k =
      let a = provider_score f p w in
      let b = provider_score f q w in
      let c = provider_score f r w in
      ground (
        arith,
        n.equal_exact a b,
        n.equal_exact b c,
        n.equal_exact a c,
        n.comparable a b c,
        n.comparable c b a,
        n.comparable b a c,
        n.comparable a c b,
        n.comparable b c a,
        n.comparable c a b,
        bytes_before-comparable p.name q.name r.name,
      )
