-- ===== src/Budget/Tracker/Buckets.antt =====
-- internal/budget/tracker.go, the buckets of the tracker: what pruning keeps.
use nexus_proxy.Shared.{
  ℕ, suc, ◌+◌, ◌-◌, ◌*◌, ◌≤◌, ◌<◌, ◌≡◌, refl, ◌∙◌, false, List, [], ◌∷◌, arith, Bool-cases, inl,
  inr, All,
}
use nexus_proxy.Budget.{window_length}
use nexus_proxy.Budget.Tracker.{
  Spend, Bucket, bucket_key, sum_of, before_cutoff, drop_leading, leading_amount, trimmed,
  prune_buckets,
}
use nexus_proxy.Budget.Tracker.History.{within}

-- One minute less than the window.
abbrev pub short : ℕ
short = 86340000000000

unfoldable pub held : ℕ → ℕ → List (ℕ × Bucket) → ℕ
held age now [] = 0
held age now ((k, b) ∷ rest) = within age now b.entries + held age now rest

unfoldable pub sums : List (ℕ × Bucket) → ℕ
sums [] = 0
sums ((k, b) ∷ rest) = sum_of b.entries + sums rest

-- The oldest entry of a bucket stands first.
unfoldable pub Opens : ℕ → List Spend → Type 0
Opens oldest [] = ⊥
Opens oldest (e ∷ es) = e.at ≡ oldest

-- An entry of the bucket of minute `k`, not older than the bucket's oldest.
unfoldable pub Filed : ℕ → ℕ → Spend → Type 0
Filed k oldest e = (oldest ≤ e.at) × (bucket_key e.at ≡ k)

unfoldable pub Sound : ℕ → ℕ → Bucket → Type 0
Sound last k b =
    ((b.sum ≡ sum_of b.entries) × (b.oldest_at ≤ last))
    × ((bucket_key b.oldest_at ≡ k)
        × (Opens b.oldest_at b.entries × All (Filed k b.oldest_at) b.entries))

-- Buckets with ascending keys from `lower` on, none opened after `last`.
unfoldable pub Buckets : ℕ → ℕ → List (ℕ × Bucket) → Type 0
Buckets last lower [] = Unit
Buckets last lower ((k, b) ∷ rest) = (lower ≤ k) × (Sound last k b × Buckets last (suc k) rest)

Buckets-weaken :
    (last lower upper : ℕ) (bs : List (ℕ × Bucket))
    → lower ≤ upper
    → Buckets last upper bs
    → Buckets last lower bs
unfolding Buckets
Buckets-weaken last lower upper [] h g = g
Buckets-weaken last lower upper ((k, b) ∷ rest) h (l, s) = (omega arith, s)

pub Sound-later : (last later k : ℕ) (b : Bucket) → last ≤ later → Sound last k b → Sound later k b
unfolding Sound
Sound-later last later k b h ((s, o), q) = ((s, omega arith), q)

pub Buckets-later :
    (last later lower : ℕ) (bs : List (ℕ × Bucket))
    → last ≤ later
    → Buckets last lower bs
    → Buckets later lower bs
unfolding Buckets
Buckets-later last later lower [] h g = g
Buckets-later last later lower ((k, b) ∷ rest) h (l, (s, g)) =
    (l, (Sound-later last later k b h s, Buckets-later last later (suc k) rest h g))

live_sum :
    (k oldest now : ℕ) (es : List Spend)
    → All (Filed k oldest) es
    → now ≤ oldest + window_length
    → within window_length now es ≡ sum_of es
unfolding within sum_of Filed
live_sum k oldest now [] a h = refl
live_sum k oldest now (e ∷ es) ((l, q), a) h = let r = live_sum k oldest now es a h in ground arith

expired_sum :
    (k oldest now : ℕ) (es : List Spend)
    → All (Filed k oldest) es
    → bucket_key oldest ≡ k
    → oldest + window_length < now
    → within short now es ≡ 0
unfolding within Filed bucket_key
expired_sum k oldest now [] a q h = refl
expired_sum k oldest now (e ∷ es) ((l, p), a) q h =
    let r = expired_sum k oldest now es a q h in
    let late : e.at + short < now = omega arith in ground arith

held_all :
    (last lower now : ℕ) (bs : List (ℕ × Bucket))
    → Buckets last lower bs
    → now ≤ lower * 60000000000 + window_length
    → held window_length now bs ≡ sums bs
unfolding held sums Buckets Sound bucket_key
held_all last lower now [] g h = refl
held_all last lower now ((k, b) ∷ rest) (l, (((s, p), (q, (o, a))), g)) h =
    let r = held_all last (suc k) now rest g (omega arith) in
    let w = live_sum k b.oldest_at now b.entries a (omega arith) in omega arith

-- What pruning at `now` leaves, seen from `later`.
pub record Pruned (last lower now later : ℕ) (bs cs : List (ℕ × Bucket)) (total : ℕ) : Type 0 where
  pub sound : Buckets last lower cs
  pub exact : total ≡ sums cs
  pub alive : sums cs ≡ held window_length now cs
  pub upper : held window_length later cs ≤ held window_length later bs
  pub same : held short later cs ≡ held short later bs

leading_none :
    (now oldest : ℕ) (es : List Spend)
    → Opens oldest es
    → before_cutoff now oldest ≡ false
    → (drop_leading now es ≡ es) × (leading_amount now es ≡ 0)
unfolding drop_leading leading_amount Opens
leading_none now oldest [] o h = absurd o
leading_none now oldest (e ∷ es) o h = (rw o (rw h), rw o (rw h))

Filed-from :
    (k from to : ℕ) (es : List Spend) → to ≡ from → All (Filed k from) es → All (Filed k to) es
Filed-from k from to es h a = rw h a

trimmed-Buckets :
    (last lower k oldest : ℕ) (b : Bucket) (es : List Spend) (rest : List (ℕ × Bucket))
    → lower ≤ k
    → oldest ≤ last
    → bucket_key oldest ≡ k
    → Opens oldest es
    → All (Filed k oldest) es
    → Buckets last (suc k) rest
    → Buckets last lower (trimmed k b es rest)
      × ((sums (trimmed k b es rest) ≡ sum_of es + sums rest)
          × ((age now : ℕ)
              → held age now (trimmed k b es rest) ≡ within age now es + held age now rest))
unfolding trimmed Buckets Sound held sums Opens within sum_of
trimmed-Buckets last lower k oldest b [] rest l p q o a r = absurd o
trimmed-Buckets last lower k oldest b (e ∷ es) rest l p q o a r = (
  (l, (((refl, rw o p), (rw o q, (refl, Filed-from k oldest e.at (e ∷ es) o a))), r)),
  (refl, λ age now. refl),
)

prune_live :
    (last lower now later total k : ℕ) (b : Bucket) (rest : List (ℕ × Bucket))
    → Buckets last lower ((k, b) ∷ rest)
    → total ≡ sums ((k, b) ∷ rest)
    → before_cutoff now b.oldest_at ≡ false
    → Pruned last lower now later
        ((k, b) ∷ rest)
        (trimmed k b (drop_leading now b.entries) rest)
        (total - leading_amount now b.entries)
unfolding Buckets Sound sums held bucket_key
prune_live last lower now later total k b rest (l, (((s, p), (q, (o, a))), g)) t h =
    let (d, z) = leading_none now b.oldest_at b.entries o h in
    let (c, (u, w)) = trimmed-Buckets last lower k b.oldest_at b b.entries rest l p q o a g in
    let young : now ≤ b.oldest_at + window_length = ground arith in
    let m = live_sum k b.oldest_at now b.entries a young in
    let n = held_all last (suc k) now rest g (omega arith) in
    rw (d, z)
      (record {
        sound = c;
        exact = omega arith;
        alive = u ∙ (let v = w window_length now in omega arith);
        upper = let v = w window_length later in omega arith;
        same = w short later;
      })

pub prune_ok :
    (last lower now later total : ℕ) (bs : List (ℕ × Bucket))
    → Buckets last lower bs
    → total ≡ sums bs
    → now ≤ later
    → Pruned last lower now later bs (prune_buckets now bs total).0 (prune_buckets now bs total).1
unfolding prune_buckets Buckets sums held Sound
prune_ok last lower now later total [] g t h = record {
  sound = g;
  exact = t;
  alive = refl;
  upper = omega arith;
  same = refl;
}
prune_ok last lower now later total ((k, b) ∷ rest) g t h =
    let (l, (((s, p), (q, (o, a))), r)) = g in
    elim (Bool-cases (before_cutoff now b.oldest_at)) [
      | inl old ↦
          let gone : b.oldest_at + window_length < now = ground arith in
          let v = prune_ok last (suc k) now later (total - b.sum) rest r (omega arith) h in
          let w = expired_sum k b.oldest_at later b.entries a q (omega arith) in
          rw old (record {
            sound = Buckets-weaken last lower (suc k) _ (omega arith) v.sound;
            exact = v.exact;
            alive = v.alive;
            upper = let u = v.upper in omega arith;
            same = let u = v.same in omega arith;
          })
      | inr young ↦ rw young (prune_live last lower now later total k b rest g t young)
    ]
