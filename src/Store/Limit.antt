-- ===== src/Store/Limit.antt =====
-- The daily limit over any history of internal/store/state.go.
use code_agent_router.Prelude.{ℕ, ◌+◌, ◌≤◌, ◌<◌, ◌^◌, arith}
use code_agent_router.Prelude.Int.{ℤ, pos, ◌≤ℤ◌, negsuc}
use code_agent_router.Text.{Bytes}
use code_agent_router.Clock.{Time}
use code_agent_router.Store.State.{Store}
use code_agent_router.Store.Windows.{day_value, Reads, reserve_user-Reads}
use code_agent_router.Store.Ledger.{
  Book, total, Takes-total, Step, reserves, releases, settles, others, History, begin, next,
  IsCounted, SameWindow-sym, Step-charged, Step-IsCounted, counters_balance,
}

module _ (id : Bytes) (t : Time) (hourly : ℤ) (limit : ℕ) (hour_0 day_0 : ℕ)
    (positive : 1 ≤ limit) where
  Step-limit :
      (s : Store) (b : Book) {v : Store} {c : Book}
      → Step id t hourly (pos limit) s b v c
      → Reads id t v
          (pos (hour_0 + (c.spent + total c.held)))
          (pos (day_0 + (c.spent + total c.held)))
      → IsCounted c
      → day_0 + (b.spent + total b.held) ≤ limit + b.overrun
      → day_0 + (c.spent + total c.held) ≤ limit + c.overrun
  Step-limit s b (reserves (negsuc n) working now s' w e) r nn h = absurd (ground arith)
  Step-limit s b (reserves (pos est) working now s' w e) r nn h =
      let (_, d, _) =
        reserve_user-Reads id (pos est) now t s (SameWindow-sym w) hourly (pos limit) working e in
      let d' : day_value id t s' ≤ℤ pos limit = d (omega arith) in
      let d'' : pos (day_0 + (b.spent + (est + total b.held))) ≤ℤ pos limit =
        rw r.day_reads at d' in
      omega arith
  Step-limit s b (releases est now rest w k) r nn h = omega (arith, Takes-total k)
  Step-limit s b (settles est actual now rest w k) r nn h = omega (arith, Takes-total k)
  Step-limit s b (others s' e) r nn h = h

  History-limit :
      (s : Store) {v : Store} {c : Book}
      → Reads id t s (pos hour_0) (pos day_0)
      → day_0 ≤ limit
      → History id t hourly (pos limit) s v c
      → IsCounted c
      → hour_0 + total c.charges < 2 ^ 63
      → day_0 + total c.charges < 2 ^ 63
      → day_0 + (c.spent + total c.held) ≤ limit + c.overrun
  History-limit s r start begin nn hh hd = omega arith
  History-limit s r start (next {u} {v} {b} {c} h st) nn hh hd =
      let le = Step-charged st in
      Step-limit u b st
        (counters_balance id t hourly (pos limit) hour_0 day_0 s r (next h st) nn hh hd) nn
        (History-limit s r start h (Step-IsCounted st nn) (omega arith) (omega arith))

  -- A user's day never holds more than the daily limit by more than what the settled requests went
  -- over their estimates, if it did not begin above the limit, every request is checked against it,
  -- and no estimate and no count of tokens is negative. So it stays within the limit as long as no
  -- answer costs more than was reserved for it. The sums stay below 2^63.
  pub daily_limit_kept :
      (s : Store) {v : Store} {c : Book}
      → Reads id t s (pos hour_0) (pos day_0)
      → day_0 ≤ limit
      → History id t hourly (pos limit) s v c
      → IsCounted c
      → hour_0 + total c.charges < 2 ^ 63
      → day_0 + total c.charges < 2 ^ 63
      → day_value id t v ≤ℤ pos (limit + c.overrun)
  daily_limit_kept s {v} {c} r start h nn hh hd =
      let e = (counters_balance id t hourly (pos limit) hour_0 day_0 s r h nn hh hd).day_reads in
      rw e (omega (arith, History-limit s r start h nn hh hd))
