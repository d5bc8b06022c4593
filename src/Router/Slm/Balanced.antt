-- ===== src/Router/Slm/Balanced.antt =====
-- internal/router/slm.go, `extractFirstJSONObject` against a grammar of balanced texts.
use mathlib.Core.List.{append_assoc}
use nexus_proxy.Shared.{
  ℕ, ◌+◌, ◌-◌, ◌≡◌, ◌≢◌, ◌<◌, refl, sym, ap, ◌∙◌, true, false, Option, some, List, [], ◌∷◌, ◌++◌,
  ◌==◌, All, arith,
}
use nexus_proxy.Router.Slm.Scan.{Bytes, put_before, scan, from_brace}

-- A character of a string literal: itself, or a backslash and the byte behind it.
pub data Letter : Type 0 where
  raw : ℕ → Letter
  escape : ℕ → Letter

-- What stands between two braces that balance: other bytes, string literals and balanced parts.
pub data Body : Type 0 where
  done : Body
  plain : ℕ → Body → Body
  quoted : List Letter → Body → Body
  nested : Body → Body → Body

unfoldable pub spell : List Letter → Bytes
spell [] = []
spell (raw c ∷ ls) = c ∷ spell ls
spell (escape c ∷ ls) = 92 ∷ c ∷ spell ls

unfoldable pub print : Body → Bytes
print done = []
print (plain c b) = c ∷ print b
print (quoted ls b) = 34 ∷ (spell ls ++ (34 ∷ print b))
print (nested a b) = 123 ∷ (print a ++ (125 ∷ print b))

-- Only a backslash or a quote ends a run of raw letters.
abbrev pub IsLetters : List Letter → Type 0
IsLetters [] = Unit {0}
IsLetters (raw c ∷ ls) = ((c ≢ 92) × (c ≢ 34)) × IsLetters ls
IsLetters (escape c ∷ ls) = IsLetters ls

-- Outside of its literals a body has no other quotes and braces.
abbrev pub IsBody : Body → Type 0
IsBody done = Unit {0}
IsBody (plain c b) = ((c ≢ 34) × ((c ≢ 123) × (c ≢ 125))) × IsBody b
IsBody (quoted ls b) = IsLetters ls × IsBody b
IsBody (nested a b) = IsBody a × IsBody b

-- An object: a body between braces.
unfoldable pub object : Body → Bytes
object b = 123 ∷ (print b ++ (125 ∷ []))

unfoldable ahead : Bytes → Option Bytes → Option Bytes
ahead [] o = o
ahead (c ∷ cs) o = put_before c (ahead cs o)

ahead-append : (xs ys : Bytes) (o : Option Bytes) → ahead (xs ++ ys) o ≡ ahead xs (ahead ys o)
unfolding ahead
ahead-append [] ys o = refl
ahead-append (x ∷ xs) ys o = ap (put_before x) (ahead-append xs ys o)

ahead-some : (xs ys : Bytes) → ahead xs (some ys) ≡ some (xs ++ ys)
unfolding ahead put_before
ahead-some [] ys = refl
ahead-some (x ∷ xs) ys = ap (put_before x) (ahead-some xs ys)

scan-spell :
    (depth : ℕ) (ls : List Letter) (rest : Bytes)
    → IsLetters ls
    → scan depth true false (spell ls ++ (34 ∷ rest))
      ≡ ahead (spell ls ++ (34 ∷ [])) (scan depth false false rest)
unfolding scan spell ahead
scan-spell depth [] rest h = refl
scan-spell depth (raw c ∷ ls) rest ((a, b), h) =
    let e : (c == 92) ≡ false = ground arith in
    let f : (c == 34) ≡ false = ground arith in
    rw (e, f) (ap (put_before c) (scan-spell depth ls rest h))
scan-spell depth (escape c ∷ ls) rest h =
    ap (λ o. put_before 92 (put_before c o)) (scan-spell depth ls rest h)

-- One step outside of a literal, by what the byte is.
pub scan-plain :
    (d c : ℕ) (rest : Bytes)
    → c ≢ 34
    → c ≢ 123
    → c ≢ 125
    → scan d false false (c ∷ rest) ≡ put_before c (scan d false false rest)
unfolding scan
scan-plain d c rest h i j =
    let e : (c == 34) ≡ false = ground arith in
    let f : (c == 123) ≡ false = ground arith in
    let g : (c == 125) ≡ false = ground arith in rw (e, f, g) refl

pub scan_close :
    (d : ℕ) (rest : Bytes)
    → 0 < d
    → scan (d + 1) false false (125 ∷ rest) ≡ put_before 125 (scan d false false rest)
unfolding scan
scan_close d rest h =
    let e : (d + 1 == 1) ≡ false = ground arith in
    let f : d + 1 - 1 ≡ d = omega arith in rw (e, f) refl

pub scan_quote :
    (d : ℕ) (rest : Bytes) → scan d false false (34 ∷ rest) ≡ put_before 34 (scan d true false rest)
unfolding scan
scan_quote d rest = refl

pub scan_open :
    (d : ℕ) (rest : Bytes)
    → scan d false false (123 ∷ rest) ≡ put_before 123 (scan (d + 1) false false rest)
unfolding scan
scan_open d rest = refl

scan-print :
    (d : ℕ) (b : Body) (rest : Bytes)
    → 0 < d
    → IsBody b
    → scan d false false (print b ++ rest) ≡ ahead (print b) (scan d false false rest)
unfolding print ahead
scan-print d done rest h g = refl
scan-print d (plain c b) rest h ((i, (j, k)), g) =
    scan-plain d c (print b ++ rest) i j k ∙ ap (put_before c) (scan-print d b rest h g)
scan-print d (quoted ls b) rest h (l, g) =
    let x = scan d false false rest in
    scan_quote d _
    ∙ ap (put_before 34) (
        ap (scan d true false) (append_assoc (spell ls) (34 ∷ print b) rest)
        ∙ scan-spell d ls (print b ++ rest) l
        ∙ ap (ahead (spell ls ++ (34 ∷ []))) (scan-print d b rest h g)
        ∙ sym (ahead-append (spell ls ++ (34 ∷ [])) (print b) x)
        ∙ ap (λ s. ahead s x) (append_assoc (spell ls) (34 ∷ []) (print b)))
scan-print d (nested a b) rest h (g, k) =
    let x = scan d false false rest in
    scan_open d _
    ∙ ap (put_before 123) (
        ap (scan (d + 1) false false) (append_assoc (print a) (125 ∷ print b) rest)
        ∙ scan-print (d + 1) a (125 ∷ (print b ++ rest)) (omega arith) g
        ∙ ap (ahead (print a))
            (scan_close d (print b ++ rest) h ∙ ap (put_before 125) (scan-print d b rest h k))
        ∙ sym (ahead-append (print a) (125 ∷ print b) x))

pub scan-object :
    (b : Body) (post : Bytes) → IsBody b → scan 0 false false (object b ++ post) ≡ some (object b)
unfolding object scan put_before
scan-object b post h =
    rw
      (
        append_assoc (print b) (125 ∷ []) post,
        scan-print 1 b (125 ∷ post) (omega arith) h,
        ahead-some (print b) (125 ∷ []),
      )
      refl

abbrev pub Braceless : Bytes → Type 0
Braceless = All (λ c. c ≢ 123)

pub from_brace-append :
    (pre post : Bytes) → Braceless pre → from_brace (pre ++ (123 ∷ post)) ≡ 123 ∷ post
unfolding from_brace
from_brace-append [] post h = refl
from_brace-append (c ∷ cs) post (i, h) =
    let e : (c == 123) ≡ false = ground arith in rw e (from_brace-append cs post h)
