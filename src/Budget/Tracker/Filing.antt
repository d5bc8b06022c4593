-- ===== src/Budget/Tracker/Filing.antt =====
-- internal/budget/tracker.go, the buckets of the tracker: what filing keeps.
use nexus_proxy.Shared.{
  ℕ, suc, ◌+◌, ◌≤◌, ◌≡◌, refl, sym, ◌∙◌, ap, List, [], ◌∷◌, ◌++◌, ltb, arith, Bool-cases, ◌==◌,
  ==→eq, ltb→lt, inl, inr, All,
}
use nexus_proxy.Budget.{window_length}
use nexus_proxy.Budget.Tracker.{Spend, Bucket, bucket_key, sum_of, file_entry}
use nexus_proxy.Budget.Tracker.History.{within}
use nexus_proxy.Budget.Tracker.Buckets.{
  short, held, sums, Opens, Filed, Sound, Buckets, Sound-later, Buckets-later,
}

sum_of-snoc : (es : List Spend) (e : Spend) → sum_of (es ++ (e ∷ [])) ≡ sum_of es + e.amount
unfolding sum_of
sum_of-snoc [] e = omega arith
sum_of-snoc (x ∷ xs) e = omega (arith, sum_of-snoc xs e)

within-snoc :
    (age now : ℕ) (es : List Spend) (e : Spend)
    → within age now (es ++ (e ∷ [])) ≡ within age now es + within age now (e ∷ [])
unfolding within
within-snoc age now [] e = omega arith
within-snoc age now (x ∷ xs) e = ground (arith, within-snoc age now xs e)

All-snoc :
    (k o : ℕ) (es : List Spend) (e : Spend)
    → All (Filed k o) es
    → Filed k o e
    → All (Filed k o) (es ++ (e ∷ []))
All-snoc k o [] e a h = (h, tt)
All-snoc k o (x ∷ xs) e (y, a) h = (y, All-snoc k o xs e a h)

Opens-snoc : (o : ℕ) (es : List Spend) (e : Spend) → Opens o es → Opens o (es ++ (e ∷ []))
unfolding Opens
Opens-snoc o [] e h = absurd h
Opens-snoc o (x ∷ xs) e h = h

abbrev opened : Spend → Bucket
opened e = record { entries = e ∷ []; sum = e.amount; oldest_at = e.at }

abbrev grown : Bucket → Spend → Bucket
grown b e = record b { entries = b.entries ++ (e ∷ []); sum = b.sum + e.amount }

Sound-opened : (now : ℕ) (e : Spend) → e.at ≡ now → Sound now (bucket_key now) (opened e)
unfolding Sound sum_of Opens Filed
Sound-opened now e h =
    ((omega arith, omega arith), (ap bucket_key h, (refl, ((omega arith, ap bucket_key h), tt))))

Sound-grown :
    (last now k : ℕ) (b : Bucket) (e : Spend)
    → e.at ≡ now
    → last ≤ now
    → k ≡ bucket_key now
    → Sound last k b
    → Sound now k (grown b e)
unfolding Sound Filed
Sound-grown last now k b e z h m ((s, p), (q, (o, a))) = (
  (ap (λ n. n + e.amount) s ∙ sym (sum_of-snoc b.entries e), omega arith),
  (
    q,
    (
      Opens-snoc b.oldest_at b.entries e o,
      All-snoc _ b.oldest_at b.entries e a (omega arith, ap bucket_key z ∙ sym m),
    ),
  ),
)

-- What filing an entry changes.
pub record FiledIn (now lower : ℕ) (e : Spend) (bs cs : List (ℕ × Bucket)) : Type 0 where
  pub filed : Buckets now lower cs
  pub added : sums cs ≡ sums bs + e.amount
  pub counted : (age later : ℕ) → held age later cs ≡ held age later bs + within age later (e ∷ [])

pub Buckets-file :
    (last now lower : ℕ) (e : Spend) (bs : List (ℕ × Bucket))
    → Buckets last lower bs
    → last ≤ now
    → e.at ≡ now
    → lower ≤ bucket_key now
    → FiledIn now lower e bs (file_entry (bucket_key now) e bs)
unfolding file_entry Buckets held sums within sum_of
Buckets-file last now lower e [] g h z l = record {
  filed = (l, (Sound-opened now e z, tt));
  added = omega arith;
  counted = λ age later. omega arith;
}
Buckets-file last now lower e ((k, b) ∷ rest) (low, (s, g)) h z l =
    elim (Bool-cases (k == bucket_key now)) [
      | inl found ↦
          let q = ==→eq k (bucket_key now) found in
          rw found (record {
            filed = (
              low,
              (Sound-grown last now k b e z h q s, Buckets-later last now (suc k) rest h g),
            );
            added = let v = sum_of-snoc b.entries e in omega arith;
            counted = λ age later. let v = within-snoc age later b.entries e in omega arith;
          })
      | inr missing ↦ rw missing (elim (Bool-cases (ltb (bucket_key now) k)) [
        | inl before ↦ rw before (record {
          filed = (
            l,
            (
              Sound-opened now e z,
              (
                ltb→lt _ _ before,
                (Sound-later last now k b h s, Buckets-later last now (suc k) rest h g),
              ),
            ),
          );
          added = omega arith;
          counted = λ age later. omega arith;
        })
        | inr behind ↦
            let v = Buckets-file last now (suc k) e rest g h z (ground arith) in
            rw behind (record {
              filed = (low, (Sound-later last now k b h s, v.filed));
              added = let a = v.added in omega arith;
              counted = λ age later. let c = v.counted age later in omega arith;
            })
      ])
    ]

pub held_none : (last age now : ℕ) → Buckets last 0 [] × ((sums [] ≡ 0) × (held age now [] ≡ 0))
unfolding Buckets sums held
held_none last age now = (tt, (refl, refl))

within-short : (now : ℕ) (es : List Spend) → within short now es ≤ within window_length now es
unfolding within
within-short now [] = omega arith
within-short now (e ∷ es) = ground (arith, within-short now es)

pub held-short : (now : ℕ) (bs : List (ℕ × Bucket)) → held short now bs ≤ held window_length now bs
unfolding held
held-short now [] = omega arith
held-short now ((k, b) ∷ rest) = omega (arith, held-short now rest, within-short now b.entries)
