-- ===== src/Router/Slm/First.antt =====
-- internal/router/slm.go, `extractFirstJSONObject`: it finds the first balanced object, and nothing else.
use mathlib.Core.List.{append_assoc}
use mathlib.Core.Path.{subst}
use nexus_proxy.Shared.{
  ◌≡◌, ◌≢◌, ◌↔◌, ◌⊎◌, inl, inr, refl, sym, ap, ◌∙◌, false, some, [], ◌∷◌, ◌++◌, ◌==◌, All-append,
  arith,
}
use nexus_proxy.Router.Slm.Scan.{Bytes, scan, from_brace, extract_first_json_object}
use nexus_proxy.Router.Slm.Balanced.{
  Body, print, IsBody, object, Braceless, scan_open, scan-object, from_brace-append,
}
use nexus_proxy.Router.Slm.Sound.{
  Outside-one, put_before-some, eq-cases, scan_none, scan_sound, outside,
}

from_brace-cases :
    (cs : Bytes)
    → (from_brace cs ≡ [])
      ⊎ ((pre : Bytes) × ((rest : Bytes) × ((cs ≡ pre ++ (123 ∷ rest))
              × (Braceless pre × (from_brace cs ≡ 123 ∷ rest)))))
unfolding from_brace
from_brace-cases [] = inl refl
from_brace-cases (c ∷ cs) = elim (eq-cases c 123) [
  | inl b ↦ inr ([], (cs, (ap (λ x. x ∷ cs) b, (tt, rw b refl))))
  | inr n ↦ elim (from_brace-cases cs) [
    | inl e ↦ inl (let z : (c == 123) ≡ false = ground arith in rw z e)
    | inr (pre, (rest, (f, (g, h)))) ↦ inr (
      c ∷ pre,
      (rest, (ap (λ s. c ∷ s) f, ((n, g), let z : (c == 123) ≡ false = ground arith in rw z h))),
    )
  ]
]

-- `o` is a balanced object in the text, and no brace opens before it.
abbrev pub FirstObject : Bytes → Bytes → Type 0
FirstObject content o =
    (pre : Bytes) × ((b : Body) × ((post : Bytes) × ((content ≡ pre ++ (object b ++ post))
          × (Braceless pre × (IsBody b × (o ≡ object b))))))

object-found : (cs o : Bytes) → scan 0 false false (123 ∷ cs) ≡ some o → FirstObject (123 ∷ cs) o
unfolding object
object-found cs o h =
    let (q, (r, e)) = put_before-some 123 (scan 1 false false cs) o (sym (scan_open 0 cs) ∙ h) in
    let (post, (f, g)) = scan_sound outside 1 cs q (omega arith) r in
    let (b, (k, w)) = Outside-one q g in
    (
      [],
      (
        b,
        (post, (ap (λ s. 123 ∷ s) (f ∙ ap (λ s. s ++ post) k), (tt, (w, e ∙ ap (λ s. 123 ∷ s) k)))),
      ),
    )

FirstObject-behind :
    (pre cs o : Bytes) → Braceless pre → FirstObject cs o → FirstObject (pre ++ cs) o
FirstObject-behind pre cs o h (p, (b, (post, (f, (g, k))))) = (
  pre ++ p,
  (
    b,
    (
      post,
      (
        ap (λ s. pre ++ s) f ∙ sym (append_assoc pre p (object b ++ post)),
        (All-append (λ c. c ≢ 123) pre p h g, k),
      ),
    ),
  ),
)

pub first-found :
    (content o : Bytes) → FirstObject content o → extract_first_json_object content ≡ some o
unfolding extract_first_json_object object
first-found content o (pre, (b, (post, (f, (g, (k, e)))))) =
    ap (λ s. scan 0 false false (from_brace s)) f
    ∙ ap (scan 0 false false) (from_brace-append pre (print b ++ (125 ∷ []) ++ post) g)
    ∙ scan-object b post k
    ∙ ap some (sym e)

-- `extractFirstJSONObject` returns a text exactly if it is the balanced object that the first opening brace
-- of the content starts: a body whose string literals, escapes included, may hold any brace.
pub extract_first_json_object_lem :
    (content o : Bytes) → (extract_first_json_object content ≡ some o) ↔ FirstObject content o
unfolding extract_first_json_object
extract_first_json_object_lem content o = (
  λ h. elim (from_brace-cases content) [
    | inl e ↦ absurd (scan_none 0 false false o (sym (ap (scan 0 false false) e) ∙ h))
    | inr (pre, (rest, (f, (g, e)))) ↦
        subst (λ s. FirstObject s o) (sym f)
          (FirstObject-behind pre (123 ∷ rest) o g
            (object-found rest o (sym (ap (scan 0 false false) e) ∙ h)))
  ],
  first-found content o,
)
