-- ===== src/Router/Slm/Sound.antt =====
-- internal/router/slm.go, `extractFirstJSONObject`: what it finds is balanced.
use mathlib.Core.List.{append_assoc}
use mathlib.Core.Path.{subst}
use nexus_proxy.Shared.{
  ℕ, ◌+◌, ◌-◌, ◌≡◌, ◌≢◌, ◌<◌, ◌⊎◌, inl, inr, refl, sym, ap, ◌∙◌, Bool, true, false, Option, none,
  some, List, [], ◌∷◌, ◌++◌, ◌==◌, ==→eq, All, length, arith, Bool-cases,
}
use nexus_proxy.Router.Slm.Scan.{Bytes, put_before, scan}
use nexus_proxy.Router.Slm.Balanced.{
  Letter, raw, escape, Body, done, plain, quoted, nested, spell, print, IsLetters, IsBody,
  scan-plain, scan_quote, scan_open, scan_close,
}

-- Bodies closed one after the other: what a scan of that depth finds.
closed : List Body → Bytes
closed [] = []
closed (b ∷ bs) = print b ++ (125 ∷ closed bs)

pub Outside : ℕ → Bytes → Type 0
Outside depth o = (bs : List Body) × ((length bs ≡ depth) × ((o ≡ closed bs) × All IsBody bs))

pub Inside : ℕ → Bytes → Type 0
Inside depth o =
    (ls : List Letter) × ((q : Bytes) × ((o ≡ spell ls ++ (34 ∷ q))
        × (IsLetters ls × Outside depth q)))

pub Behind : ℕ → Bytes → Type 0
Behind depth o = (c : ℕ) × ((q : Bytes) × ((o ≡ c ∷ q) × Inside depth q))

Outside-plain :
    (d c : ℕ) (o : Bytes) → c ≢ 34 → c ≢ 123 → c ≢ 125 → 0 < d → Outside d o → Outside d (c ∷ o)
unfolding Outside closed print
Outside-plain d c o i j k p ([], (l, _)) = absurd (omega arith)
Outside-plain d c o i j k p (b ∷ bs, (l, (e, (h, g)))) =
    (plain c b ∷ bs, (l, (ap (λ s. c ∷ s) e, (((i, (j, k)), h), g))))

Outside-open : (d : ℕ) (o : Bytes) → 0 < d → Outside (d + 1) o → Outside d (123 ∷ o)
unfolding Outside closed print
Outside-open d o p ([], (l, _)) = absurd (omega arith)
Outside-open d o p (a ∷ [], (l, _)) = absurd (omega arith)
Outside-open d o p (a ∷ b ∷ bs, (l, (e, (h, (g, k))))) = (
  nested a b ∷ bs,
  (
    omega arith,
    (
      ap (λ s. 123 ∷ s) (e ∙ sym (append_assoc (print a) (125 ∷ print b) (125 ∷ closed bs))),
      ((h, g), k),
    ),
  ),
)

Outside-close : (d : ℕ) (o : Bytes) → Outside d o → Outside (d + 1) (125 ∷ o)
unfolding Outside closed print
Outside-close d o (bs, (l, (e, g))) = (done ∷ bs, (omega arith, (ap (λ s. 125 ∷ s) e, (tt, g))))

Outside-quote : (d : ℕ) (o : Bytes) → 0 < d → Inside d o → Outside d (34 ∷ o)
unfolding Outside Inside closed print
Outside-quote d o p (ls, (q, (e, (h, ([], (l, _)))))) = absurd (omega arith)
Outside-quote d o p (ls, (q, (e, (h, (b ∷ bs, (l, (f, (g, k)))))))) = (
  quoted ls b ∷ bs,
  (
    l,
    (
      ap (λ s. 34 ∷ s)
          (e
            ∙ ap (λ s. spell ls ++ (34 ∷ s)) f
            ∙ sym (append_assoc (spell ls) (34 ∷ print b) (125 ∷ closed bs))),
      ((h, g), k),
    ),
  ),
)

Inside-raw : (d c : ℕ) (o : Bytes) → c ≢ 92 → c ≢ 34 → Inside d o → Inside d (c ∷ o)
unfolding Inside spell
Inside-raw d c o i j (ls, (q, (e, (h, g)))) =
    (raw c ∷ ls, (q, (ap (λ s. c ∷ s) e, (((i, j), h), g))))

Inside-end : (d : ℕ) (o : Bytes) → Outside d o → Inside d (34 ∷ o)
unfolding Inside spell
Inside-end d o g = ([], (o, (refl, (tt, g))))

Inside-escape : (d : ℕ) (o : Bytes) → Behind d o → Inside d (92 ∷ o)
unfolding Inside Behind spell
Inside-escape d o (c, (p, (f, (ls, (q, (e, (h, g))))))) =
    (escape c ∷ ls, (q, (ap (λ s. 92 ∷ s) (f ∙ ap (λ s. c ∷ s) e), (h, g))))

abbrev pub Found : (Bytes → Type 0) → Bytes → Bytes → Type 0
Found P cs o = (post : Bytes) × ((cs ≡ o ++ post) × P o)

pub eq-cases : (a b : ℕ) → (a ≡ b) ⊎ (a ≢ b)
eq-cases a b = elim (Bool-cases (a == b)) [
  | inl h ↦ inl (==→eq a b h)
  | inr h ↦ inr (λ e. ground arith)
]

pub put_before-some :
    (c : ℕ) (r : Option Bytes) (o : Bytes)
    → put_before c r ≡ some o
    → (q : Bytes) × ((r ≡ some q) × (o ≡ c ∷ q))
unfolding put_before
put_before-some c none o h = ground arith
put_before-some c (some q) o h = (q, (refl, ground arith))

Found-put_before :
    (P Q : Bytes → Type 0) (c : ℕ) (cs o : Bytes) (q : Bytes)
    → ((p : Bytes) → P p → Q (c ∷ p))
    → o ≡ c ∷ q
    → Found P cs q
    → Found Q (c ∷ cs) o
Found-put_before P Q c cs o q f e (post, (g, h)) =
    (post, (ap (λ s. c ∷ s) g ∙ ap (λ s. s ++ post) (sym e), subst Q (sym e) (f q h)))

-- Where the loop stands: outside of a literal, inside of one, or behind a backslash in one.
pub data Mode : Type 0 where
  outside inside behind : Mode

abbrev pub run_scan : Mode → ℕ → Bytes → Option Bytes
run_scan outside d cs = scan d false false cs
run_scan inside d cs = scan d true false cs
run_scan behind d cs = scan d true true cs

abbrev pub Shape : Mode → ℕ → Bytes → Type 0
Shape outside = Outside
Shape inside = Inside
Shape behind = Behind

Outside-last : Outside 1 (125 ∷ [])
unfolding Outside closed print
Outside-last = (done ∷ [], (refl, (refl, (tt, tt))))

scan_last : (rest : Bytes) → scan 1 false false (125 ∷ rest) ≡ some (125 ∷ [])
unfolding scan
scan_last rest = refl

scan_letter :
    (d c : ℕ) (rest : Bytes)
    → c ≢ 92
    → c ≢ 34
    → scan d true false (c ∷ rest) ≡ put_before c (scan d true false rest)
unfolding scan
scan_letter d c rest i j =
    let e : (c == 92) ≡ false = ground arith in
    let f : (c == 34) ≡ false = ground arith in rw (e, f) refl

scan-escape :
    (d : ℕ) (rest : Bytes) → scan d true false (92 ∷ rest) ≡ put_before 92 (scan d true true rest)
unfolding scan
scan-escape d rest = refl

scan_end :
    (d : ℕ) (rest : Bytes) → scan d true false (34 ∷ rest) ≡ put_before 34 (scan d false false rest)
unfolding scan
scan_end d rest = refl

scan-behind :
    (d c : ℕ) (rest : Bytes) → scan d true true (c ∷ rest) ≡ put_before c (scan d true false rest)
unfolding scan
scan-behind d c rest = refl

pub scan_none : (d : ℕ) (s e : Bool) (o : Bytes) → scan d s e [] ≢ some o
unfolding scan
scan_none d s e o h = ground arith

-- A step of the scan: its byte, the rest that it finds and the shape that it makes.
scan_step :
    (m n : Mode) (d e c : ℕ) (cs o : Bytes)
    → run_scan m d (c ∷ cs) ≡ put_before c (run_scan n e cs)
    → ((p : Bytes) → Shape n e p → Shape m d (c ∷ p))
    → ((q : Bytes) → run_scan n e cs ≡ some q → Found (Shape n e) cs q)
    → run_scan m d (c ∷ cs) ≡ some o
    → Found (Shape m d) (c ∷ cs) o
scan_step m n d e c cs o s f g h =
    let (q, (r, z)) = put_before-some c (run_scan n e cs) o (sym s ∙ h) in
    Found-put_before (Shape n e) (Shape m d) c cs o q f z (g q r)

-- What the scan promises of a text that starts with `x`.
abbrev Goal : Mode → ℕ → Bytes → Bytes → ℕ → Type 0
Goal m d cs o x = run_scan m d (x ∷ cs) ≡ some o → Found (Shape m d) (x ∷ cs) o

scan_closing :
    (d : ℕ) (cs o : Bytes)
    → 0 < d
    → ((e : ℕ) (q : Bytes) → 0 < e → scan e false false cs ≡ some q → Found (Outside e) cs q)
    → Goal outside d cs o 125
scan_closing d cs o p g = elim (eq-cases d 1) [
  | inl b ↦
      subst (λ e. Goal outside e cs o 125) (sym b)
        (λ h.
          let z : 125 ∷ [] ≡ o = ground (arith, scan_last cs) in
          (cs, (ap (λ s. s ++ cs) z, subst (Outside 1) z Outside-last)))
  | inr n ↦
      let e = d - 1 in
      let b : e + 1 ≡ d = omega arith in
      subst (λ k. Goal outside k cs o 125) b
        (scan_step outside outside (e + 1) e 125 cs o (scan_close e cs (omega arith))
          (Outside-close e) (λ q. g e q (omega arith)))
]

pub scan_sound :
    (m : Mode) (d : ℕ) (cs o : Bytes) → 0 < d → run_scan m d cs ≡ some o → Found (Shape m d) cs o
unfolding Behind
scan_sound outside d [] o p h = absurd (scan_none d false false o h)
scan_sound inside d [] o p h = absurd (scan_none d true false o h)
scan_sound behind d [] o p h = absurd (scan_none d true true o h)
scan_sound behind d (c ∷ cs) o p h =
    scan_step behind inside d d c cs o (scan-behind d c cs) (λ q g. (c, (q, (refl, g))))
      (λ q. scan_sound inside d cs q p) h
scan_sound inside d (c ∷ cs) o p h = elim (eq-cases c 92) [
  | inl b ↦
      let step =
        scan_step inside behind d d 92 cs o (scan-escape d cs) (Inside-escape d)
          (λ q. scan_sound behind d cs q p) in
      subst (Goal inside d cs o) (sym b) step h
  | inr n ↦ elim (eq-cases c 34) [
    | inl b ↦
        let step =
          scan_step inside outside d d 34 cs o (scan_end d cs) (Inside-end d)
            (λ q. scan_sound outside d cs q p) in
        subst (Goal inside d cs o) (sym b) step h
    | inr k ↦
        scan_step inside inside d d c cs o (scan_letter d c cs n k) (λ q. Inside-raw d c q n k)
          (λ q. scan_sound inside d cs q p) h
  ]
]
scan_sound outside d (c ∷ cs) o p h = elim (eq-cases c 34) [
  | inl b ↦
      let step =
        scan_step outside inside d d 34 cs o (scan_quote d cs) (λ q. Outside-quote d q p)
          (λ q. scan_sound inside d cs q p) in
      subst (Goal outside d cs o) (sym b) step h
  | inr i ↦ elim (eq-cases c 123) [
    | inl b ↦
        let step =
          scan_step outside outside d (d + 1) 123 cs o (scan_open d cs) (λ q. Outside-open d q p)
            (λ q. scan_sound outside (d + 1) cs q (omega arith)) in
        subst (Goal outside d cs o) (sym b) step h
    | inr j ↦ elim (eq-cases c 125) [
      | inl b ↦
          subst (Goal outside d cs o) (sym b)
            (scan_closing d cs o p (λ e q. scan_sound outside e cs q)) h
      | inr k ↦
          scan_step outside outside d d c cs o (scan-plain d c cs i j k)
            (λ q. Outside-plain d c q i j k p) (λ q. scan_sound outside d cs q p) h
    ]
  ]
]

pub Outside-one : (q : Bytes) → Outside 1 q → (b : Body) × ((q ≡ print b ++ (125 ∷ [])) × IsBody b)
unfolding Outside closed
Outside-one q ([], (l, _)) = absurd (omega arith)
Outside-one q (b ∷ [], (l, (e, (h, _)))) = (b, (e, h))
Outside-one q (a ∷ b ∷ bs, (l, _)) = absurd (omega arith)
