-- ===== src/Limiter/Wakeups.antt =====
-- internal/concurrencylimit/limiter.go, the goroutines around the condition variable. A goroutine waits in
-- `Wait`, or is about to make a turn of the loop, or holds a slot; they are counted by where they stand.
-- A context that is done has yet to start the callback of `AfterFunc`; until it has, the call of `stop` behind
-- the loop, by the goroutine that leaves with the context's error, holds the callback back. Once started it
-- broadcasts at some later time.
pub mod Lost
use nexus_proxy.Shared.{ℕ, suc, ◌+◌, ◌≤◌, ◌≡◌, refl, true, false, arith, ◌⊎◌}
use nexus_proxy.Shared.Int.{ℤ, pos, ltb_ℤ, nonpos, ◌≤ℤ◌}
use nexus_proxy.Limiter.{
  Limiter, effective, try_acquire, acquired, cancelled, waits, Turn, release, signal, broadcast,
  effective_bounds, try_acquire-acquired, try_acquire-waits,
}

pub record System : Type 0 where
  pub limiter : Limiter
  pub ready : ℕ  -- about to make a turn, with a live context
  pub expired : ℕ  -- about to make a turn, with a context that is done and a callback that has started
  pub unstarted : ℕ  -- about to make a turn, with a context that is done and no callback started yet
  pub parked : ℕ  -- in Wait, with a live context
  pub parked_expired : ℕ  -- in Wait, with a context that is done and a callback that has started
  pub parked_unstarted : ℕ  -- in Wait, with a context that is done and no callback started yet
  pub holders : ℕ
  pub broadcasts : ℕ  -- callbacks that have started and are still to broadcast
  pub stopped : ℕ  -- callbacks that `stop` has held back

abbrev pub wake_all : System → System
wake_all s = record s {
  ready = s.ready + s.parked;
  expired = s.expired + s.parked_expired;
  unstarted = s.unstarted + s.parked_unstarted;
  parked = 0;
  parked_expired = 0;
  parked_unstarted = 0;
}

-- Where the goroutine goes that made a turn with a live context.
abbrev pub after_turn : System → Limiter × Turn → System
after_turn s (l, acquired) = record s { limiter = l; holders = s.holders + 1 }
after_turn s (l, cancelled) = record s { limiter = l }
after_turn s (l, waits) = record s { limiter = l; parked = s.parked + 1 }

-- One step of one goroutine; every reading of the memory satisfies `P`.
pub data Step (P : ℤ → Type 0) (s : System) : System → Type 0 where
  arrive : Step P s (record s { ready = s.ready + 1 })
  turn :
      {r : ℕ} (free : ℤ)
      → P free
      → s.ready ≡ suc r
      → Step P s (after_turn (record s { ready = r }) (try_acquire s.limiter free false))
  give_up : {e : ℕ} → s.expired ≡ suc e → Step P s (record s { expired = e })
  give_up_stopped :
      {e : ℕ} → s.unstarted ≡ suc e → Step P s (record s { unstarted = e; stopped = s.stopped + 1 })
  done_ready :
      {r : ℕ} → s.ready ≡ suc r → Step P s (record s { ready = r; unstarted = s.unstarted + 1 })
  done_parked :
      {k : ℕ}
      → s.parked ≡ suc k
      → Step P s (record s { parked = k; parked_unstarted = s.parked_unstarted + 1 })
  start_callback :
      {e : ℕ}
      → s.unstarted ≡ suc e
      → Step P s
          (record s { unstarted = e; expired = s.expired + 1; broadcasts = s.broadcasts + 1 })
  start_parked :
      {k : ℕ}
      → s.parked_unstarted ≡ suc k
      → Step P s (record s {
        parked_unstarted = k;
        parked_expired = s.parked_expired + 1;
        broadcasts = s.broadcasts + 1;
      })
  done_late : Step P s (record s { broadcasts = s.broadcasts + 1 })
  call_back : {b : ℕ} → s.broadcasts ≡ suc b → Step P s (record (wake_all s) { broadcasts = b })
  release_all :
      {h : ℕ} (f g : ℤ)
      → P f
      → P g
      → s.holders ≡ suc h
      → (release s.limiter f g).1 ≡ broadcast
      → Step P s (record (wake_all s) { limiter = (release s.limiter f g).0; holders = h })
  release_live :
      {h k : ℕ} (f g : ℤ)
      → P f
      → P g
      → s.holders ≡ suc h
      → (release s.limiter f g).1 ≡ signal
      → s.parked ≡ suc k
      → Step P s (record s {
        limiter = (release s.limiter f g).0;
        holders = h;
        parked = k;
        ready = s.ready + 1;
      })
  release_expired :
      {h k : ℕ} (f g : ℤ)
      → P f
      → P g
      → s.holders ≡ suc h
      → (release s.limiter f g).1 ≡ signal
      → s.parked_expired ≡ suc k
      → Step P s (record s {
        limiter = (release s.limiter f g).0;
        holders = h;
        parked_expired = k;
        expired = s.expired + 1;
      })
  release_unstarted :
      {h k : ℕ} (f g : ℤ)
      → P f
      → P g
      → s.holders ≡ suc h
      → (release s.limiter f g).1 ≡ signal
      → s.parked_unstarted ≡ suc k
      → Step P s (record s {
        limiter = (release s.limiter f g).0;
        holders = h;
        parked_unstarted = k;
        unstarted = s.unstarted + 1;
      })
  release_none :
      {h : ℕ} (f g : ℤ)
      → P f
      → P g
      → s.holders ≡ suc h
      → (release s.limiter f g).1 ≡ signal
      → s.parked ≡ 0
      → s.parked_expired ≡ 0
      → s.parked_unstarted ≡ 0
      → Step P s (record s { limiter = (release s.limiter f g).0; holders = h })

pub data Reach (P : ℤ → Type 0) (s : System) : System → Type 0 where
  here : Reach P s s
  next : {t u : System} → Reach P s t → Step P t u → Reach P s u

-- No goroutine yet.
unfoldable pub start : Limiter → System
start l = record {
  limiter = l;
  ready = 0;
  expired = 0;
  unstarted = 0;
  parked = 0;
  parked_expired = 0;
  parked_unstarted = 0;
  holders = 0;
  broadcasts = 0;
  stopped = 0;
}

pub record Bounded (l : Limiter) (s : System) : Type 0 where
  pub same_ceiling : s.limiter.ceiling ≡ l.ceiling
  pub same_bytes : s.limiter.bytes_per_slot ≡ l.bytes_per_slot
  pub in_flight_holders : s.limiter.in_flight ≡ s.holders
  pub holders_ceiling : pos s.holders ≤ℤ l.ceiling

Bounded-Step :
    {P : ℤ → Type 0} (l : Limiter) {s t : System}
    → nonpos l.ceiling ≡ false
    → Bounded l s
    → Step P s t
    → Bounded l t
unfolding try_acquire release
Bounded-Step l h v arrive = ground arith
Bounded-Step l {s} h v (turn free p e) =
    ground (arith, effective_bounds s.limiter free (rw v.same_ceiling h))
Bounded-Step l h v (give_up e) = ground arith
Bounded-Step l h v (give_up_stopped e) = ground arith
Bounded-Step l h v (done_ready e) = ground arith
Bounded-Step l h v (done_parked e) = ground arith
Bounded-Step l h v (start_callback e) = ground arith
Bounded-Step l h v (start_parked e) = ground arith
Bounded-Step l h v done_late = ground arith
Bounded-Step l h v (call_back e) = ground arith
Bounded-Step l h v (release_all f g p q e w) = ground arith
Bounded-Step l h v (release_live f g p q e w k) = ground arith
Bounded-Step l h v (release_expired f g p q e w k) = ground arith
Bounded-Step l h v (release_unstarted f g p q e w k) = ground arith
Bounded-Step l h v (release_none f g p q e w k m n) = ground arith

-- Whatever the readings, from a limiter with a positive ceiling and nothing in flight the slots held are
-- those counted, and never more than the ceiling.
pub reach_Bounded :
    {P : ℤ → Type 0} (l : Limiter) {s : System}
    → nonpos l.ceiling ≡ false
    → l.in_flight ≡ 0
    → Reach P (start l) s
    → Bounded l s
unfolding start
reach_Bounded l h z here = ground arith
reach_Bounded l h z (next r step) = Bounded-Step l h (reach_Bounded l h z r) step
