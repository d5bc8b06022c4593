-- ===== src/Budget/Refines.antt =====
-- internal/budget/budget.go, the answers of the guard against the whole history of what was spent.
use mathlib.Core.Path.{ap₂}
use nexus_proxy.Shared.{
  ℕ, ◌+◌, ◌-◌, ◌≤◌, ◌<◌, ◌≡◌, refl, sym, ◌∙◌, String, false, List, [], ◌∷◌, ◌++◌, ltb, arith,
  Bool-cases, inl, inr, ◌⊎◌, ◌==◌, ==→eq,
}
use nexus_proxy.Shared.Int.{pos}
use nexus_proxy.Budget.{
  Entry, Guard, new_guard, evict, spent, check, would_exceed, record_spend, check_approaching,
  remaining,
}
use nexus_proxy.Budget.Window.{
  Event, spends, checks, estimates, approaches, reads, step, steps, Ordered, spent_recently, recent,
  Ascending, Ascending-weaken, spent-drop_expired, recent-drop_expired, Ascending-drop_expired,
}

recent-append :
    (now : ℕ) (xs ys : List Entry) → recent now (xs ++ ys) ≡ recent now xs + recent now ys
unfolding recent
recent-append now [] ys = omega arith
recent-append now (x ∷ xs) ys = ground (arith, recent-append now xs ys)

Ascending-append :
    (from until stamp : ℕ) (es : List Entry) (e : Entry)
    → e.at ≡ stamp
    → until ≤ stamp
    → Ascending from until es
    → Ascending from stamp (es ++ (e ∷ []))
unfolding Ascending
Ascending-append from until stamp [] e h k a = (omega arith, omega arith)
Ascending-append from until stamp (x ∷ xs) e h k (a, b) =
    (a, Ascending-append x.at until stamp xs e h k b)

-- What one event keeps of the window, seen from a later time `now`.
record Kept (g h : Guard) (until now added : ℕ) : Type 0 where
  limits : h.limit ≡ g.limit
  ascends : Ascending 0 until h.window
  recents : recent now h.window ≡ recent now g.window + added

Kept-evict :
    (g : Guard) (last t now : ℕ)
    → Ascending 0 last g.window
    → last ≤ t
    → t ≤ now
    → Kept g (evict g t) t now 0
unfolding evict
Kept-evict g last t now a h k = record {
  limits = refl;
  ascends =
      Ascending-drop_expired t 0 t g.window
        (Ascending-weaken 0 0 last t g.window (omega arith) h a);
  recents = let e = recent-drop_expired t now g.window k in omega arith;
}

Kept-same :
    (g h i : Guard) (until now added : ℕ)
    → h.limit ≡ i.limit
    → h.window ≡ i.window
    → Kept g h until now added
    → Kept g i until now added
Kept-same g h i until now added e w v = record {
  limits = sym e ∙ v.limits;
  ascends = rw (← w) v.ascends;
  recents = rw (← w) v.recents;
}

evict_same :
    (g : Guard) (t cost : ℕ)
    → (((check g t cost).0.limit ≡ (evict g t).limit)
        × ((check g t cost).0.window ≡ (evict g t).window))
      × (((would_exceed g t cost).0.limit ≡ (evict g t).limit)
          × ((would_exceed g t cost).0.window ≡ (evict g t).window))
      × (((check_approaching g t).0.limit ≡ (evict g t).limit)
          × ((check_approaching g t).0.window ≡ (evict g t).window))
unfolding check would_exceed check_approaching evict
evict_same g t cost = ground arith

record_spend-cases :
    (g : Guard) (t stamp cost : ℕ) (source : String)
    → (g.limit == 0) ≡ false
    → ((cost ≡ 0) × (record_spend g t stamp cost source ≡ g))
      ⊎ (record_spend g t stamp cost source ≡ record (evict g t) {
        window = (evict g t).window ++ (record { at = stamp; cost = cost; source = source } ∷ []);
      })
unfolding record_spend evict
record_spend-cases g t stamp cost source on = elim (Bool-cases (cost == 0)) [
  | inl free ↦ inl (==→eq cost 0 free, rw free)
  | inr paid ↦ inr (rw paid (rw on))
]

Kept-spends :
    (g : Guard) (last t stamp now cost : ℕ) (source : String)
    → (g.limit == 0) ≡ false
    → Ascending 0 last g.window
    → last ≤ t
    → t ≤ stamp
    → stamp ≤ now
    → Kept g
        (record_spend g t stamp cost source)
        stamp
        now
        (spent_recently now (spends t stamp cost source ∷ []))
unfolding spent_recently recent
Kept-spends g last t stamp now cost source on a h k l =
    elim (record_spend-cases g t stamp cost source on) [
      | inl (free, same) ↦ rw same (record {
        limits = refl;
        ascends = Ascending-weaken 0 0 last stamp g.window (omega arith) (omega arith) a;
        recents = ground arith;
      })
      | inr added ↦
          let v = Kept-evict g last t now a h (omega arith) in
          let e : Entry = record { at = stamp; cost = cost; source = source } in
          rw added (record {
            limits = v.limits;
            ascends = Ascending-append 0 t stamp (evict g t).window e refl k v.ascends;
            recents =
                let r = v.recents in
                rw (recent-append now (evict g t).window (e ∷ [])) (ground arith);
          })
    ]

Kept-checks :
    (g h : Guard) (last t now : ℕ)
    → (h.limit ≡ (evict g t).limit) × (h.window ≡ (evict g t).window)
    → Ascending 0 last g.window
    → last ≤ t
    → t ≤ now
    → Kept g h t now 0
Kept-checks g h last t now (e, w) a k l =
    Kept-same g (evict g t) h t now 0 (sym e) (sym w) (Kept-evict g last t now a k l)

Kept-trans :
    (f g h : Guard) (t until now added more : ℕ)
    → Kept f g t now added
    → Kept g h until now more
    → Kept f h until now (added + more)
Kept-trans f g h t until now added more v w = record {
  limits = w.limits ∙ v.limits;
  ascends = w.ascends;
  recents = let e = v.recents in let d = w.recents in omega arith;
}

Kept-then :
    (f g h : Guard) (t until now more : ℕ)
    → Kept f g t now 0
    → Kept g h until now more
    → Kept f h until now more
Kept-then f g h t until now more v w = record {
  limits = w.limits ∙ v.limits;
  ascends = w.ascends;
  recents = let e = v.recents in let d = w.recents in omega arith;
}

Ordered-le : (from until : ℕ) (es : List Event) → Ordered from until es → from ≤ until
Ordered-le from until [] o = o
Ordered-le from until (spends t stamp cost source ∷ es) (h, (k, o)) =
    let l = Ordered-le stamp until es o in omega arith
Ordered-le from until (checks t cost ∷ es) (h, o) = let l = Ordered-le t until es o in omega arith
Ordered-le from until (estimates t cost ∷ es) (h, o) =
    let l = Ordered-le t until es o in omega arith
Ordered-le from until (approaches t ∷ es) (h, o) = let l = Ordered-le t until es o in omega arith
Ordered-le from until (reads t ∷ es) (h, o) = let l = Ordered-le t until es o in omega arith

spent_recently-spends :
    (now t stamp cost : ℕ) (source : String) (es : List Event)
    → spent_recently now (spends t stamp cost source ∷ es)
      ≡ spent_recently now (spends t stamp cost source ∷ []) + spent_recently now es
unfolding spent_recently
spent_recently-spends now t stamp cost source es = ground arith

Kept-steps :
    (g : Guard) (last until now : ℕ) (es : List Event)
    → (g.limit == 0) ≡ false
    → Ascending 0 last g.window
    → Ordered last until es
    → until ≤ now
    → Kept g (steps g es) until now (spent_recently now es)
unfolding steps step spent_recently remaining
Kept-steps g last until now [] on a o h = record {
  limits = refl;
  ascends = Ascending-weaken 0 0 last until g.window (omega arith) o a;
  recents = omega arith;
}
Kept-steps g last until now (spends t stamp cost source ∷ es) on a (k, (l, o)) h =
    let m = Ordered-le stamp until es o in
    let v = Kept-spends g last t stamp now cost source on a k l (omega arith) in
    let w =
      Kept-steps (record_spend g t stamp cost source) stamp until now es (rw v.limits on) v.ascends
        o h in
    rw (spent_recently-spends now t stamp cost source es)
      (Kept-trans g _ _ stamp until now _ (spent_recently now es) v w)
Kept-steps g last until now (checks t cost ∷ es) on a (k, o) h =
    let m = Ordered-le t until es o in
    let v = Kept-checks g (check g t cost).0 last t now (evict_same g t cost).0 a k (omega arith) in
    let w = Kept-steps (check g t cost).0 t until now es (rw v.limits on) v.ascends o h in
    Kept-then g _ _ t until now (spent_recently now es) v w
Kept-steps g last until now (estimates t cost ∷ es) on a (k, o) h =
    let m = Ordered-le t until es o in
    let v =
      Kept-checks g (would_exceed g t cost).0 last t now (evict_same g t cost).1 a k
        (omega arith) in
    let w = Kept-steps (would_exceed g t cost).0 t until now es (rw v.limits on) v.ascends o h in
    Kept-then g _ _ t until now (spent_recently now es) v w
Kept-steps g last until now (approaches t ∷ es) on a (k, o) h =
    let m = Ordered-le t until es o in
    let v =
      Kept-checks g (check_approaching g t).0 last t now (evict_same g t 0).2 a k (omega arith) in
    let w = Kept-steps (check_approaching g t).0 t until now es (rw v.limits on) v.ascends o h in
    Kept-then g _ _ t until now (spent_recently now es) v w
Kept-steps g last until now (reads t ∷ es) on a (k, o) h =
    let m = Ordered-le t until es o in
    let v = Kept-checks g (remaining g t).0 last t now (refl, refl) a k (omega arith) in
    let w = Kept-steps (remaining g t).0 t until now es (rw v.limits on) v.ascends o h in
    Kept-then g _ _ t until now (spent_recently now es) v w

-- The spend that a guard's window holds at `now`.
window_spent :
    (limit until now : ℕ) (es : List Event)
    → 0 < limit
    → Ordered 0 until es
    → until ≤ now
    → let g = steps (new_guard (pos limit)) es in
      (g.limit ≡ limit) × (spent (evict g now).window ≡ spent_recently now es)
unfolding new_guard evict Ascending recent
window_spent limit until now es on o h =
    let g = steps (new_guard (pos limit)) es in
    let v = Kept-steps (new_guard (pos limit)) 0 until now es (ground arith) (omega arith) o h in
    let e = spent-drop_expired now 0 until g.window v.ascends in
    (v.limits, e ∙ (let r = v.recents in omega arith))

answers :
    (g : Guard) (now cost : ℕ)
    → (g.limit == 0) ≡ false
    → ((check g now cost).1 ≡ ltb g.limit (spent (evict g now).window + cost))
      × ((would_exceed g now cost).1 ≡ ltb g.limit (spent (evict g now).window + cost))
      × ((remaining g now).1 ≡ g.limit - spent (evict g now).window)
unfolding check would_exceed remaining evict
answers g now cost on = (rw on, rw on, refl)

-- From a new guard with a positive limit, after any checks, estimates and recorded spends in the order of
-- the clock, `Check` and `WouldExceed` refuse a cost exactly if it and what was recorded in the last 24
-- hours exceed the limit, and `Remaining` is what is left of the limit: what was evicted never counts
-- again, and nothing else is forgotten.
pub check_exact :
    (limit until now cost : ℕ) (es : List Event)
    → 0 < limit
    → Ordered 0 until es
    → until ≤ now
    → let g = steps (new_guard (pos limit)) es in
      ((check g now cost).1 ≡ ltb limit (spent_recently now es + cost))
      × ((would_exceed g now cost).1 ≡ ltb limit (spent_recently now es + cost))
      × ((remaining g now).1 ≡ limit - spent_recently now es)
check_exact limit until now cost es on o h =
    let g = steps (new_guard (pos limit)) es in
    let (l, s) = window_spent limit until now es on o h in
    let (a, b, c) = answers g now cost (rw l (ground arith)) in
    (
      a ∙ ap₂ (λ n m. ltb n (m + cost)) l s,
      b ∙ ap₂ (λ n m. ltb n (m + cost)) l s,
      c ∙ ap₂ (λ n m. n - m) l s,
    )
