-- ===== src/Store/Trips.antt =====
-- A request of internal/store/state.go that reserves and then releases, within one window.
use code_agent_router.Prelude.{Bool, ◌≡◌, ap, ◌∙◌}
use code_agent_router.Prelude.Int.{ℤ, pos, ◌≤ℤ◌}
use code_agent_router.Prelude.Int64.{add64, sub64, max64, Fits64, sub64-add64, max64_of_nonneg}
use code_agent_router.Text.{Bytes}
use code_agent_router.Clock.{Time}
use code_agent_router.Result.{ok}
use code_agent_router.Store.State.{Store}
use code_agent_router.Store.Counters.{reserve_user, release_user}
use code_agent_router.Store.Windows.{
  hour_value, day_value, Reads, SameWindow, reserve_user-Reads, release_user-Reads,
}

-- Taking back an estimate that was added gives the value again, if it was an int64 of at least zero.
taken_back :
    (v est w : ℤ) → Fits64 v → pos 0 ≤ℤ v → w ≡ add64 v est → max64 (pos 0) (sub64 w est) ≡ v
taken_back v est w fits nonneg e =
    ap (λ x. max64 (pos 0) (sub64 x est)) e
    ∙ ap (max64 (pos 0)) (sub64-add64 v est fits)
    ∙ max64_of_nonneg v nonneg

-- A reservation that `ReserveUser` grants and that `ReleaseUser` gives back within the same hour and
-- day leaves both counters reading what they read before, for every estimate, also one with which the
-- sums wrap around. The counters must read an int64 of at least zero at the start.
pub reserve_then_release :
    (id : Bytes) (est hourly daily : ℤ) (working : Bool) (now now' now'' : Time) (s : Store)
    {s' : Store}
    → SameWindow now now'
    → SameWindow now' now''
    → Fits64 (hour_value id now s) × (pos 0 ≤ℤ hour_value id now s)
    → Fits64 (day_value id now s) × (pos 0 ≤ℤ day_value id now s)
    → reserve_user id est hourly daily working now s ≡ (ok tt, s')
    → Reads id now'' (release_user id est now' s') (hour_value id now s) (day_value id now s)
reserve_then_release id est hourly daily working now now' now'' s {s'} w w' h d e =
    let (r, day_limit, hour_limit) =
      reserve_user-Reads id est now now' s w hourly daily working e in
    let q = release_user-Reads id est now' now'' s' w' in
    record {
      hour_reads = q.hour_reads ∙ taken_back (hour_value id now s) est _ h.0 h.1 r.hour_reads;
      day_reads = q.day_reads ∙ taken_back (day_value id now s) est _ d.0 d.1 r.day_reads;
    }
