-- ===== src/Budget/Window.antt =====
-- internal/budget/budget.go, the window against the whole history of what was spent.
use nexus_proxy.Shared.{
  ℕ, ◌+◌, ◌≤◌, ◌≡◌, refl, ap, sym, String, List, [], ◌∷◌, ltb, arith, Bool-cases, ltb-false→le, inl,
  inr, if◌then◌else◌,
}
use nexus_proxy.Budget.{
  Entry, Guard, window_length, expired, drop_expired, spent, check, would_exceed, record_spend,
  check_approaching, remaining,
}

-- What a guard is asked or told.
pub data Event : Type 0 where
  spends : ℕ → ℕ → ℕ → String → Event
  checks : ℕ → ℕ → Event
  estimates : ℕ → ℕ → Event
  approaches : ℕ → Event
  reads : ℕ → Event

unfoldable pub step : Guard → Event → Guard
step g (spends now stamp cost source) = record_spend g now stamp cost source
step g (checks now cost) = (check g now cost).0
step g (estimates now cost) = (would_exceed g now cost).0
step g (approaches now) = (check_approaching g now).0
step g (reads now) = (remaining g now).0

unfoldable pub steps : Guard → List Event → Guard
steps g [] = g
steps g (e ∷ es) = steps (step g e) es

-- The readings of the clock never go back, from `from` to `until`.
abbrev pub Ordered : ℕ → ℕ → List Event → Type 0
Ordered from until [] = from ≤ until
Ordered from until (spends now stamp cost source ∷ es) =
    (from ≤ now) × ((now ≤ stamp) × Ordered stamp until es)
Ordered from until (checks now cost ∷ es) = (from ≤ now) × Ordered now until es
Ordered from until (estimates now cost ∷ es) = (from ≤ now) × Ordered now until es
Ordered from until (approaches now ∷ es) = (from ≤ now) × Ordered now until es
Ordered from until (reads now ∷ es) = (from ≤ now) × Ordered now until es

-- What the events spent at a time of at least `now` less 24 hours.
unfoldable pub spent_recently : ℕ → List Event → ℕ
spent_recently now [] = 0
spent_recently now (spends t stamp cost source ∷ es) =
    if ltb (stamp + window_length) now then spent_recently now es else cost + spent_recently now es
spent_recently now (checks t cost ∷ es) = spent_recently now es
spent_recently now (estimates t cost ∷ es) = spent_recently now es
spent_recently now (approaches t ∷ es) = spent_recently now es
spent_recently now (reads t ∷ es) = spent_recently now es

-- The same of a window.
unfoldable pub recent : ℕ → List Entry → ℕ
recent now [] = 0
recent now (e ∷ es) = if expired now e then recent now es else e.cost + recent now es

unfoldable pub Ascending : ℕ → ℕ → List Entry → Type 0
Ascending from until [] = from ≤ until
Ascending from until (e ∷ es) = (from ≤ e.at) × Ascending e.at until es

pub Ascending-weaken :
    (from lower until later : ℕ) (es : List Entry)
    → lower ≤ from
    → until ≤ later
    → Ascending from until es
    → Ascending lower later es
unfolding Ascending
Ascending-weaken from lower until later [] h k a = omega arith
Ascending-weaken from lower until later (e ∷ es) h k (a, b) =
    (omega arith, Ascending-weaken e.at e.at until later es (omega arith) k b)

recent-spent :
    (now from until : ℕ) (es : List Entry)
    → now ≤ from + window_length
    → Ascending from until es
    → recent now es ≡ spent es
unfolding recent spent Ascending
recent-spent now from until [] h a = refl
recent-spent now from until (e ∷ es) h (a, b) =
    ground (arith, recent-spent now e.at until es (omega arith) b)

pub spent-drop_expired :
    (now from until : ℕ) (es : List Entry)
    → Ascending from until es
    → spent (drop_expired now es) ≡ recent now es
unfolding recent spent drop_expired Ascending
spent-drop_expired now from until [] a = refl
spent-drop_expired now from until (e ∷ es) (a, b) = elim (Bool-cases (expired now e)) [
  | inl old ↦ rw old (spent-drop_expired now e.at until es b)
  | inr new ↦
      let h = ltb-false→le (e.at + window_length) now new in
      rw new (ap (λ n. e.cost + n) (sym (recent-spent now e.at until es h b)))
]

pub recent-drop_expired :
    (now later : ℕ) (es : List Entry)
    → now ≤ later
    → recent later (drop_expired now es) ≡ recent later es
unfolding recent drop_expired
recent-drop_expired now later [] h = refl
recent-drop_expired now later (e ∷ es) h = ground (arith, recent-drop_expired now later es h)

pub Ascending-drop_expired :
    (now from until : ℕ) (es : List Entry)
    → Ascending from until es
    → Ascending from until (drop_expired now es)
unfolding Ascending drop_expired
Ascending-drop_expired now from until [] a = a
Ascending-drop_expired now from until (e ∷ es) (a, b) = elim (Bool-cases (expired now e)) [
  | inl old ↦ rw old (
      Ascending-drop_expired now from until es
        (Ascending-weaken e.at from until until es a (omega arith) b))
  | inr new ↦ rw new (a, b)
]
