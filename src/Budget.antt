-- ===== src/Budget.antt =====
-- internal/budget/budget.go: the guard of the money spent on frontier calls in the last 24 hours. Amounts
-- are multiples of a smallest unit; the rounding of the source's float64 is not modelled. Each reading of
-- the clock, in nanoseconds since the epoch, is given to the call. The alerter is left out.
-- `Tracker` has the tracker of the daily spend (tracker.go).
pub mod Window
pub mod Refines
pub mod Tracker
mod Examples
use nexus_proxy.Shared.{
  ℕ, ◌+◌, ◌-◌, ◌*◌, ◌≡◌, String, Bool, true, false, not, ◌&&◌, List, [], ◌∷◌, ◌++◌, ltb, leb, ◌==◌,
  if◌then◌else◌,
}
use nexus_proxy.Shared.Int.{ℤ, pos, pos_part, sub_ℕ}

pub record Entry : Type 0 where
  pub at : ℕ
  pub cost : ℕ
  pub source : String

pub record Guard : Type 0 where
  pub limit : ℕ
  pub window : List Entry
  pub approaching_sent : Bool

-- `Window`, 24 hours.
abbrev pub window_length : ℕ
window_length = 86400000000000

-- `limitLimit`.
abbrev pub limit_limit : ℤ → ℕ
limit_limit limit = pos_part limit

-- `NewGuard`.
unfoldable pub new_guard : ℤ → Guard
new_guard limit = record { limit = limit_limit limit; window = []; approaching_sent = false }

-- `e.At.Before(cutoff)`, with the cutoff one window before `now`.
abbrev pub expired : ℕ → Entry → Bool
expired now e = ltb (e.at + window_length) now

-- The entries from the first one on that has not expired: in a window that is sorted, as the binary
-- search of `evictLocked` needs it.
unfoldable pub drop_expired : ℕ → List Entry → List Entry
drop_expired now [] = []
drop_expired now (e ∷ es) = let rest = drop_expired now es in if expired now e then rest else e ∷ es

-- `evictLocked`.
unfoldable pub evict : Guard → ℕ → Guard
unfolding drop_expired
evict g now = record g { window = drop_expired now g.window }

-- `currentSpentLocked`.
unfoldable pub spent : List Entry → ℕ
spent [] = 0
spent (e ∷ es) = e.cost + spent es

-- `Check`.
unfoldable pub check : Guard → ℕ → ℕ → Guard × Bool
unfolding evict
check g now cost =
    let g' = evict g now in
    if g'.limit == 0 then (g', false) else (g', ltb g'.limit (spent g'.window + cost))

-- `WouldExceed`.
unfoldable pub would_exceed : Guard → ℕ → ℕ → Guard × Bool
unfolding evict
would_exceed g now cost =
    let g' = evict g now in
    if g'.limit == 0 then (g', false) else (g', ltb g'.limit (spent g'.window + cost))

-- `Record`; the entry is stamped by a second reading of the clock.
unfoldable pub record_spend : Guard → ℕ → ℕ → ℕ → String → Guard
unfolding evict
record_spend g now stamp cost source =
    let g' = evict g now in
    if (cost == 0)
    then g
    else (if g.limit == 0 then g else record g' {
      window = g'.window ++ (record { at = stamp; cost = cost; source = source } ∷ []);
    })

-- `CheckApproaching`; four fifths of the limit is the threshold.
unfoldable pub check_approaching : Guard → ℕ → Guard × Bool
unfolding evict
check_approaching g now =
    let g' = evict g now in
    let reached = leb (4 * g'.limit) (5 * spent g'.window) in
    if g'.limit == 0
    then (g', false)
    else (if reached && not g'.approaching_sent
        then (record g' { approaching_sent = true }, true)
        else (
          record g' { approaching_sent = if reached then g'.approaching_sent else false },
          false,
        ))

-- `Remaining`.
unfoldable pub remaining : Guard → ℕ → Guard × ℕ
unfolding evict
remaining g now = let g' = evict g now in (g', g'.limit - spent g'.window)

-- `SetLimit`.
unfoldable pub set_limit : Guard → ℤ → Guard
set_limit g limit = record g { limit = limit_limit limit; approaching_sent = false }
