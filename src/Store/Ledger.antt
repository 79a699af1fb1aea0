-- ===== src/Store/Ledger.antt =====
-- The day of one user over any history of internal/store/state.go: reservations, releases and
-- settlements of that user, in any order and with anything else in between, within one day.
mod Books
pub use Books.{
  Book, empty_book, total, Takes, here, there, Takes-total, Takes-All, IsCount, IsCounted,
  reserve_exact, release_exact, settle_exact, Step, reserves, releases, settles, others, History,
  begin, next,
}
use code_agent_router.Prelude.{
  ℕ, ◌+◌, ◌-◌, ◌≤◌, ◌<◌, ◌^◌, ◌≡◌, refl, ap, sym, ◌∙◌, Bool, List, [], ◌∷◌, arith, get_or, All,
}
use code_agent_router.Prelude.Int.{ℤ, pos, ◌+ℤ◌, ◌-ℤ◌, negsuc}
use code_agent_router.Prelude.Int64.{add64, sub64, max64}
use code_agent_router.Text.{Bytes}
use code_agent_router.Map.{lookup}
use code_agent_router.Clock.{Time, day_start, hour_start}
use code_agent_router.Model.{UserCounters, zero_counters}
use code_agent_router.Result.{ok}
use code_agent_router.Store.State.{Store}
use code_agent_router.Store.Counters.{
  current, reserve_user, release_user, settle_user, ensure_window,
}
use code_agent_router.Store.Windows.{
  day_value, SameWindow, reserve_user-Reads, release_user-Reads, settle_user-Reads, Reads,
  hour_value,
}

-- What the counters of the user read is the value at the start and what the book adds to it.
record Agrees (id : Bytes) (t : Time) (hour_0 day_0 : ℕ) (s : Store) (b : Book) : Type 0 where
  reads :
      Reads id t s
        (pos (hour_0 + (b.spent + total b.held)))
        (pos (day_0 + (b.spent + total b.held)))
  bounded : b.spent + total b.held ≤ total b.charges
  counts : All IsCount b.held

pub SameWindow-sym : {t now : Time} → SameWindow t now → SameWindow now t
SameWindow-sym w = record {
  same_hour = sym w.same_hour;
  same_day = sym w.same_day;
  hour_positive = rw w.same_hour w.hour_positive;
  day_positive = rw w.same_day w.day_positive;
}

-- Two times of one window read the same.
reads_at :
    (id : Bytes) (t now : Time) (s : Store)
    → SameWindow t now
    → (hour_value id now s ≡ hour_value id t s) × (day_value id now s ≡ day_value id t s)
unfolding current ensure_window
reads_at id t now s w =
    let c : UserCounters = get_or zero_counters (lookup id s.counters) in
    (
      ap (λ (h : Time). (ensure_window c.hour h t).value) w.same_hour,
      ap (λ (d : Time). (ensure_window c.day d t).value) w.same_day,
    )

module _ (id : Bytes) (t : Time) (s s' : Store)
    (e : lookup id s'.counters ≡ lookup id s.counters) where
  others_hour : hour_value id t s' ≡ hour_value id t s
  unfolding current ensure_window
  others_hour = ap (λ c. (ensure_window (get_or zero_counters c).hour (hour_start t) t).value) e

  others_day : day_value id t s' ≡ day_value id t s
  unfolding current ensure_window
  others_day = ap (λ c. (ensure_window (get_or zero_counters c).day (day_start t) t).value) e

pub Step-charged :
    {id : Bytes} {t : Time} {hourly daily : ℤ} {s : Store} {b : Book} {v : Store} {c : Book}
    → Step id t hourly daily s b v c
    → total b.charges ≤ total c.charges
Step-charged (reserves est working now s' w e) = omega arith
Step-charged (releases est now rest w k) = omega arith
Step-charged (settles est actual now rest w k) = omega arith
Step-charged (others s' e) = omega arith

pub Step-IsCounted :
    {id : Bytes} {t : Time} {hourly daily : ℤ} {s : Store} {b : Book} {v : Store} {c : Book}
    → Step id t hourly daily s b v c
    → IsCounted c
    → IsCounted b
Step-IsCounted (reserves est working now s' w e) h = h.1
Step-IsCounted (releases est now rest w k) h = h
Step-IsCounted (settles est actual now rest w k) h = h.1
Step-IsCounted (others s' e) h = h

module _ (id : Bytes) (t : Time) (hourly daily : ℤ) (hour_0 day_0 : ℕ) (s : Store) (b : Book) where
  Step-Agrees :
      {v : Store} {c : Book}
      → Step id t hourly daily s b v c
      → IsCounted c
      → hour_0 + total c.charges < 2 ^ 63
      → day_0 + total c.charges < 2 ^ 63
      → Agrees id t hour_0 day_0 s b
      → Agrees id t hour_0 day_0 v c
  Step-Agrees (reserves (negsuc n) working now s' w e) nn hh hd a = absurd (ground arith)
  Step-Agrees (reserves (pos est) working now s' w e) nn hh hd a =
      let (r, _, _) =
        reserve_user-Reads id (pos est) now t s (SameWindow-sym w) hourly daily working e in
      let (fh, fd) = reads_at id t now s w in
      record {
        reads = record {
          hour_reads =
              r.hour_reads
              ∙ reserve_exact hour_0 b.spent (total b.held) _ (fh ∙ a.reads.hour_reads) est
                  (ground arith);
          day_reads =
              r.day_reads
              ∙ reserve_exact day_0 b.spent (total b.held) _ (fd ∙ a.reads.day_reads) est
                  (ground arith);
        };
        counts = (nn.0, a.counts);
        bounded = ground arith;
      }
  Step-Agrees (releases (negsuc n) now rest w k) nn hh hd a =
      absurd (ground (arith, Takes-All k a.counts))
  Step-Agrees (releases (pos est) now rest w k) nn hh hd a =
      let r = release_user-Reads id (pos est) now t s (SameWindow-sym w) in
      let (fh, fd) = reads_at id t now s w in
      let k' = Takes-total k in
      record {
        reads = record {
          hour_reads =
              r.hour_reads
              ∙ release_exact hour_0 b.spent (total b.held) _ (fh ∙ a.reads.hour_reads) est
                  (total rest) k' (ground arith);
          day_reads =
              r.day_reads
              ∙ release_exact day_0 b.spent (total b.held) _ (fd ∙ a.reads.day_reads) est
                  (total rest) k' (ground arith);
        };
        counts = (Takes-All k a.counts).1;
        bounded = omega arith;
      }
  Step-Agrees (settles est (negsuc n) now rest w k) nn hh hd a = absurd (ground arith)
  Step-Agrees (settles (negsuc n) (pos actual) now rest w k) nn hh hd a =
      absurd (ground (arith, Takes-All k a.counts))
  Step-Agrees (settles (pos est) (pos actual) now rest w k) nn hh hd a =
      let r = settle_user-Reads id (pos est) now t s (SameWindow-sym w) (pos actual) in
      let (fh, fd) = reads_at id t now s w in
      let k' = Takes-total k in
      record {
        reads = record {
          hour_reads =
              r.hour_reads
              ∙ settle_exact hour_0 b.spent (total b.held) _ (fh ∙ a.reads.hour_reads) est actual
                  (total rest) k' (ground arith);
          day_reads =
              r.day_reads
              ∙ settle_exact day_0 b.spent (total b.held) _ (fd ∙ a.reads.day_reads) est actual
                  (total rest) k' (ground arith);
        };
        counts = (Takes-All k a.counts).1;
        bounded = omega arith;
      }
  Step-Agrees (others s' e) nn hh hd a = record {
    reads = record {
      hour_reads = others_hour id t s s' e ∙ a.reads.hour_reads;
      day_reads = others_day id t s s' e ∙ a.reads.day_reads;
    };
    bounded = a.bounded;
    counts = a.counts;
  }

History-Agrees :
    (id : Bytes) (t : Time) (hourly daily : ℤ) (hour_0 day_0 : ℕ) (s : Store) {v : Store} {c : Book}
    → Reads id t s (pos hour_0) (pos day_0)
    → History id t hourly daily s v c
    → IsCounted c
    → hour_0 + total c.charges < 2 ^ 63
    → day_0 + total c.charges < 2 ^ 63
    → Agrees id t hour_0 day_0 v c
History-Agrees id t hourly daily hour_0 day_0 s r begin nn hh hd = record {
  reads = record {
    hour_reads = r.hour_reads ∙ ap pos (omega arith);
    day_reads = r.day_reads ∙ ap pos (omega arith);
  };
  bounded = omega arith;
  counts = tt;
}
History-Agrees id t hourly daily hour_0 day_0 s r (next {u} {v} {b} {c} h st) nn hh hd =
    let le = Step-charged st in
    Step-Agrees id t hourly daily hour_0 day_0 u b st nn hh hd (
      History-Agrees id t hourly daily hour_0 day_0 s r h (Step-IsCounted st nn) (omega arith)
        (omega arith))

-- Within one hour of one day, whatever a user's requests do and in whatever order, the counters read
-- what they read at the start, plus the tokens of the settled requests, plus the estimates of the
-- requests under way: no reservation is lost and none is given back twice. It is for a
-- history in which no estimate and no count of tokens is negative; the counters must begin at zero
-- or above, and the sums stay below 2^63.
pub counters_balance :
    (id : Bytes) (t : Time) (hourly daily : ℤ) (hour_0 day_0 : ℕ) (s : Store) {v : Store} {c : Book}
    → Reads id t s (pos hour_0) (pos day_0)
    → History id t hourly daily s v c
    → IsCounted c
    → hour_0 + total c.charges < 2 ^ 63
    → day_0 + total c.charges < 2 ^ 63
    → Reads id t v
        (pos (hour_0 + (c.spent + total c.held)))
        (pos (day_0 + (c.spent + total c.held)))
counters_balance id t hourly daily hour_0 day_0 s r h nn hh hd =
    (History-Agrees id t hourly daily hour_0 day_0 s r h nn hh hd).reads
