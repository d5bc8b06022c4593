-- ===== src/Budget/Tracker/Bounds.antt =====
-- internal/budget/tracker.go, the answers of the tracker against the whole history of what was recorded.
use nexus_proxy.Shared.{
  ℕ, zero, suc, ◌+◌, ◌≤◌, ◌<◌, ◌≡◌, refl, sym, ◌∙◌, ap, true, false, some, List, [], ◌∷◌, ltb,
  arith, Bool-cases, ◌⊎◌, inl, inr,
}
use nexus_proxy.Shared.Int.{ℤ, pos, negsuc, pos_part, nonpos}
use nexus_proxy.Budget.{window_length}
use nexus_proxy.Budget.Tracker.{
  Spend, SpendTracker, new_spend_tracker, bucket_key, prune_buckets, prune, tracker_would_exceed,
  file_entry, tracker_record, current_spend, tracker_retry_after,
}
use nexus_proxy.Budget.Tracker.History.{
  Call, records, asks, reads, waits, after, after_all, time_of, InOrder, within, spent_by,
  recorded_within,
}
use nexus_proxy.Budget.Tracker.Filing.{Buckets-file, held_none, held-short}
use nexus_proxy.Budget.Tracker.Buckets.{short, held, sums, Buckets, prune_ok, Buckets-later}

-- A tracker that is sound at `last`.
record Tracks (last : ℕ) (t : SpendTracker) : Type 0 where
  buckets_sound : Buckets last 0 t.buckets
  total_exact : t.total ≡ sums t.buckets

-- What one call adds, seen from `later`.
record Moves (t u : SpendTracker) (now later upper lower : ℕ) : Type 0 where
  tracks : Tracks now u
  budgets : u.budget ≡ t.budget
  above : held window_length later u.buckets ≤ held window_length later t.buckets + upper
  below : held short later u.buckets ≡ held short later t.buckets + lower

Moves-prune :
    (last now later : ℕ) (t : SpendTracker)
    → Tracks last t
    → last ≤ now
    → now ≤ later
    → Moves t (prune t now) now later 0 0
unfolding prune
Moves-prune last now later t v h k =
    let p =
      prune_ok now 0 now later t.total t.buckets
        (Buckets-later last now 0 t.buckets h v.buckets_sound) v.total_exact k in
    record {
      tracks = record { buckets_sound = p.sound; total_exact = p.exact };
      budgets = refl;
      above = let u = p.upper in omega arith;
      below = let u = p.same in omega arith;
    }

record_paid :
    (t : SpendTracker) (now : ℕ) (amount : ℤ)
    → nonpos amount ≡ false
    → tracker_record (some t) now amount
      ≡ some (record (prune t now) {
        buckets =
            file_entry
              (bucket_key now)
              (record { at = now; amount = pos_part amount })
              (prune t now).buckets;
        total = (prune t now).total + pos_part amount;
      })
unfolding tracker_record
record_paid t now amount h = rw h refl

Moved : SpendTracker → ℕ → Call → Type 0
Moved t later c =
    (u : SpendTracker) × ((after (some t) c ≡ some u)
      × Moves t u (time_of c) later (spent_by window_length later c) (spent_by short later c))

Moves-still :
    (last now later : ℕ) (t : SpendTracker) → Tracks last t → last ≤ now → Moves t t now later 0 0
Moves-still last now later t v h = record {
  tracks = record {
    buckets_sound = Buckets-later last now 0 t.buckets h v.buckets_sound;
    total_exact = v.total_exact;
  };
  budgets = refl;
  above = omega arith;
  below = omega arith;
}

nonpos-pos_part : (z : ℤ) → nonpos z ≡ true → pos_part z ≡ 0
nonpos-pos_part (pos n) h = ground arith
nonpos-pos_part (negsuc n) h = refl

record_free :
    (t : SpendTracker) (now : ℕ) (amount : ℤ)
    → nonpos amount ≡ true
    → tracker_record (some t) now amount ≡ some t
unfolding tracker_record
record_free t now amount h = rw h refl

Moves-record :
    (last now later : ℕ) (amount : ℤ) (t : SpendTracker)
    → Tracks last t
    → last ≤ now
    → now ≤ later
    → Moved t later (records now amount)
unfolding Moved after within
Moves-record last now later amount t v h k = elim (Bool-cases (nonpos amount)) [
  | inl free ↦
      let s = Moves-still last now later t v h in
      let z = nonpos-pos_part amount free in
      (
        t,
        (
          record_free t now amount free,
          record { tracks = s.tracks; budgets = refl; above = omega arith; below = ground arith },
        ),
      )
  | inr paid ↦
      let m = Moves-prune last now later t v h k in
      let e : Spend = record { at = now; amount = pos_part amount } in
      let f =
        Buckets-file now now 0 e (prune t now).buckets m.tracks.buckets_sound (omega arith) refl
          (omega arith) in
      (
        _,
        (
          record_paid t now amount paid,
          record {
            tracks = record {
              buckets_sound = f.filed;
              total_exact = let a = f.added in let q = m.tracks.total_exact in omega arith;
            };
            budgets = m.budgets;
            above = let c = f.counted window_length later in let a = m.above in omega arith;
            below = let c = f.counted short later in let a = m.below in omega arith;
          },
        ),
      )
]

asked :
    (t : SpendTracker) (now : ℕ) (amount : ℤ)
    → ((tracker_would_exceed (some t) now amount).0 ≡ some t)
      ⊎ ((tracker_would_exceed (some t) now amount).0 ≡ some (prune t now))
unfolding tracker_would_exceed
asked t now amount = elim (Bool-cases (nonpos amount)) [
  | inl free ↦ inl (rw free refl)
  | inr paid ↦ inr (rw paid refl)
]

Moves-asks :
    (last now later : ℕ) (amount : ℤ) (t : SpendTracker)
    → Tracks last t
    → last ≤ now
    → now ≤ later
    → Moved t later (asks now amount)
unfolding Moved after
Moves-asks last now later amount t v h k = elim (asked t now amount) [
  | inl e ↦ (t, (e, Moves-still last now later t v h))
  | inr e ↦ (prune t now, (e, Moves-prune last now later t v h k))
]

Moves-call :
    (last later : ℕ) (t : SpendTracker) (c : Call)
    → Tracks last t
    → last ≤ time_of c
    → time_of c ≤ later
    → Moved t later c
unfolding Moved after current_spend tracker_retry_after
Moves-call last later t (records now amount) v h k = Moves-record last now later amount t v h k
Moves-call last later t (asks now amount) v h k = Moves-asks last now later amount t v h k
Moves-call last later t (reads now) v h k =
    (prune t now, (refl, Moves-prune last now later t v h k))
Moves-call last later t (waits now next) v h k =
    (prune t now, (refl, Moves-prune last now later t v h k))

InOrder-le : (from until : ℕ) (cs : List Call) → InOrder from until cs → from ≤ until
InOrder-le from until [] o = o
InOrder-le from until (c ∷ cs) (h, o) = let l = InOrder-le (time_of c) until cs o in omega arith

Moves-calls :
    (last until later : ℕ) (t : SpendTracker) (cs : List Call)
    → Tracks last t
    → InOrder last until cs
    → until ≤ later
    → (u : SpendTracker) × ((after_all (some t) cs ≡ some u)
        × Moves t u until later
            (recorded_within window_length later cs)
            (recorded_within short later cs))
unfolding after_all recorded_within Moved
Moves-calls last until later t [] v o h = (t, (refl, Moves-still last until later t v o))
Moves-calls last until later t (c ∷ cs) v (k, o) h =
    let l = InOrder-le (time_of c) until cs o in
    let (u, (e, m)) = Moves-call last later t c v k (omega arith) in
    let (w, (f, n)) = Moves-calls (time_of c) until later u cs m.tracks o h in
    (
      w,
      (
        rw e f,
        record {
          tracks = n.tracks;
          budgets = n.budgets ∙ m.budgets;
          above = let a = m.above in let b = n.above in omega arith;
          below = let a = m.below in let b = n.below in omega arith;
        },
      ),
    )

-- The spend that a sound tracker states at `now`.
prune-total :
    (last now : ℕ) (t : SpendTracker)
    → Tracks last t
    → last ≤ now
    → (held short now t.buckets ≤ (prune t now).total)
      × ((prune t now).total ≤ held window_length now t.buckets)
unfolding prune
prune-total last now t v h =
    let p =
      prune_ok now 0 now now t.total t.buckets
        (Buckets-later last now 0 t.buckets h v.buckets_sound) v.total_exact (omega arith) in
    let e = p.exact in
    let a = p.alive in
    let u = p.upper in
    let s = p.same in
    let n = held-short now (prune_buckets now t.buckets t.total).0 in (omega arith, omega arith)

reached :
    (limit until now : ℕ) (cs : List Call)
    → 0 < limit
    → InOrder 0 until cs
    → until ≤ now
    → (t : SpendTracker) × ((after_all (new_spend_tracker (pos limit)) cs ≡ some t)
        × ((t.budget ≡ limit)
            × ((recorded_within short now cs ≤ (prune t now).total)
                × ((prune t now).total ≤ recorded_within window_length now cs))))
unfolding new_spend_tracker
reached zero until now cs on o h = absurd (omega arith)
reached (suc limit) until now cs on o h =
    let new : SpendTracker = record { budget = suc limit; buckets = []; total = 0 } in
    let (g, (s, e)) = held_none 0 window_length now in
    let f = (held_none 0 short now).1.1 in
    let v : Tracks 0 new = record { buckets_sound = g; total_exact = sym s } in
    let (t, (r, m)) = Moves-calls 0 until now new cs v o h in
    let (a, b) = prune-total until now t m.tracks h in
    let z : nonpos (pos (suc limit)) ≡ false = ground arith in
    (t, (rw z r, (m.budgets, (let c = m.below in omega arith, let c = m.above in omega arith))))

answered :
    (t : SpendTracker) (now amount : ℕ)
    → (tracker_would_exceed (some t) now (pos (suc amount))).1
      ≡ ltb t.budget ((prune t now).total + suc amount)
unfolding tracker_would_exceed prune
answered t now amount = let z : nonpos (pos (suc amount)) ≡ false = ground arith in rw z refl

-- In a tracker made with a positive budget, after any records, questions and readings in the order of the
-- clock, the current spend is at most what was recorded in the last 24 hours and at least what was recorded
-- in the last 23 hours and 59 minutes, and a positive amount is refused exactly if it takes that spend
-- over the budget.
pub tracker_bounds :
    (limit until now amount : ℕ) (cs : List Call)
    → 0 < limit
    → InOrder 0 until cs
    → until ≤ now
    → let t = after_all (new_spend_tracker (pos limit)) cs in
      (recorded_within short now cs ≤ (current_spend t now).1)
      × (((current_spend t now).1 ≤ recorded_within window_length now cs)
          × ((tracker_would_exceed t now (pos (suc amount))).1
              ≡ ltb limit ((current_spend t now).1 + suc amount)))
unfolding current_spend
tracker_bounds limit until now amount cs on o h =
    let (t, (r, (b, (l, u)))) = reached limit until now cs on o h in
    rw r (l, (u, answered t now amount ∙ ap (λ n. ltb n ((prune t now).total + suc amount)) b))
