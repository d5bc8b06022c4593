-- ===== src/Budget/Tracker.antt =====
-- internal/budget/tracker.go: the spend of the last 24 hours kept in buckets of one minute. The map of the
-- buckets and its sorted keys are one list of keys and buckets in the order of the keys. Amounts are
-- multiples of a smallest unit; the rounding of the source's float64 is not modelled. Each reading of the
-- clock, in nanoseconds since the epoch, is given to the call. The observer is left out: it only hears of
-- what the answers say.
pub mod History
mod Buckets
mod Filing
pub mod Bounds
mod Examples
use nexus_proxy.Shared.{
  ℕ, ◌+◌, ◌-◌, ◌/◌, Bool, true, false, Option, none, some, List, [], ◌∷◌, ◌++◌, ltb, ◌==◌,
  if◌then◌else◌,
}
use nexus_proxy.Shared.Int.{ℤ, pos_part, nonpos}
use nexus_proxy.Budget.{window_length}

pub record Spend : Type 0 where
  pub at : ℕ
  pub amount : ℕ

pub record Bucket : Type 0 where
  pub entries : List Spend
  pub sum : ℕ
  pub oldest_at : ℕ

pub record SpendTracker : Type 0 where
  pub budget : ℕ
  pub buckets : List (ℕ × Bucket)
  pub total : ℕ

-- `NewSpendTracker`; no tracker is the nil one.
unfoldable pub new_spend_tracker : ℤ → Option SpendTracker
new_spend_tracker daily =
    if nonpos daily
    then none
    else some (record { budget = pos_part daily; buckets = []; total = 0 })

-- `t.Unix() / 60`.
unfoldable pub bucket_key : ℕ → ℕ
bucket_key t = t / 1000000000 / 60

unfoldable pub sum_of : List Spend → ℕ
sum_of [] = 0
sum_of (e ∷ es) = e.amount + sum_of es

-- `Before(cutoff)`, with the cutoff one window before `now`.
abbrev pub before_cutoff : ℕ → ℕ → Bool
before_cutoff now at = ltb (at + window_length) now

-- The first bucket that has not expired as a whole: its leading expired entries are taken out one by one.
unfoldable pub drop_leading : ℕ → List Spend → List Spend
drop_leading now [] = []
drop_leading now (e ∷ es) =
    let rest = drop_leading now es in if before_cutoff now e.at then rest else e ∷ es

-- What the total loses by that.
unfoldable pub leading_amount : ℕ → List Spend → ℕ
leading_amount now [] = 0
leading_amount now (e ∷ es) =
    let rest = leading_amount now es in if before_cutoff now e.at then e.amount + rest else 0

unfoldable pub trimmed : ℕ → Bucket → List Spend → List (ℕ × Bucket) → List (ℕ × Bucket)
trimmed key b [] rest = rest
trimmed key b (e ∷ es) rest =
    (key, record { entries = e ∷ es; sum = sum_of (e ∷ es); oldest_at = e.at }) ∷ rest

-- The loop of `pruneLocked`: the buckets and the total that it leaves.
unfoldable pub prune_buckets : ℕ → List (ℕ × Bucket) → ℕ → List (ℕ × Bucket) × ℕ
prune_buckets now [] total = ([], total)
prune_buckets now ((key, b) ∷ rest) total =
    let next = prune_buckets now rest (total - b.sum) in
    if before_cutoff now b.oldest_at
    then next
    else (trimmed key b (drop_leading now b.entries) rest, total - leading_amount now b.entries)

-- `pruneLocked`.
unfoldable pub prune : SpendTracker → ℕ → SpendTracker
prune t now =
    let (buckets, total) = prune_buckets now t.buckets t.total in
    record t { buckets = buckets; total = total }

-- `WouldExceed`.
unfoldable pub tracker_would_exceed : Option SpendTracker → ℕ → ℤ → Option SpendTracker × Bool
tracker_would_exceed none now amount = (none, false)
tracker_would_exceed (some t) now amount =
    let u = prune t now in
    if nonpos amount then (some t, false) else (some u, ltb u.budget (u.total + pos_part amount))

-- `Record`, the entry put into the bucket of its minute, which is made if it is missing.
unfoldable pub file_entry : ℕ → Spend → List (ℕ × Bucket) → List (ℕ × Bucket)
file_entry key e [] = (key, record { entries = e ∷ []; sum = e.amount; oldest_at = e.at }) ∷ []
file_entry key e ((k, b) ∷ rest) =
    let later = file_entry key e rest in
    if k == key
    then (k, record b { entries = b.entries ++ (e ∷ []); sum = b.sum + e.amount }) ∷ rest
    else (if ltb key k
        then (key, record { entries = e ∷ []; sum = e.amount; oldest_at = e.at }) ∷ (k, b) ∷ rest
        else (k, b) ∷ later)

-- `Record`.
unfoldable pub tracker_record : Option SpendTracker → ℕ → ℤ → Option SpendTracker
tracker_record none now amount = none
tracker_record (some t) now amount =
    let u = prune t now in
    let e : Spend = record { at = now; amount = pos_part amount } in
    if nonpos amount
    then some t
    else some (record u {
      buckets = file_entry (bucket_key now) e u.buckets;
      total = u.total + pos_part amount;
    })

-- `CurrentSpend` and `RunningTotal`.
unfoldable pub current_spend : Option SpendTracker → ℕ → Option SpendTracker × ℕ
current_spend none now = (none, 0)
current_spend (some t) now = let u = prune t now in (some u, u.total)

-- The wait of `RetryAfter`, with the second reading of the clock.
unfoldable pub until_reset : ℕ → List (ℕ × Bucket) → ℕ
until_reset now [] = 0
until_reset now ((key, b) ∷ rest) = b.oldest_at + window_length - now

-- `RetryAfter`.
unfoldable pub tracker_retry_after : Option SpendTracker → ℕ → ℕ → Option SpendTracker × ℕ
tracker_retry_after none now later = (none, 0)
tracker_retry_after (some t) now later =
    let u = prune t now in (some u, until_reset later u.buckets)
