-- ===== src/Relay/Next.antt =====
-- `nextWorkingStart` of internal/api/relay.go: when a client whose hourly quota is used up is told to
-- come back. The proxy calls it when ReserveUser gives ErrHourlyQuota and when Select gives
-- ErrHourlyExhausted, both of which are given in the working hours only.
use code_agent_router.Prelude.{
  refl, some, none, true, [], ◌∷◌, arith, ℕ, List, ◌≡◌, Option, if◌then◌else◌, ◌%◌, ◌+◌, ◌<◌, subst,
  ◌*◌, ◌-◌, sym, suc, ◌≤◌, get_or,
}
use code_agent_router.Clock.{hour, day, day_start, Time, hour_of, add, in_location, hour_start}
use code_agent_router.Quota.{any_range, Engine, is_working_hour}
use code_agent_router.Config.{WorkingHour}
use code_agent_router.Prelude.Int.{ℤ, pos, ltb_ℤ, negsuc}
use code_agent_router.Text.{Bytes}
use code_agent_router.Store.Counters.{current, ensure_window}
use code_agent_router.Store.State.{Store}
use code_agent_router.Store.Windows.{hour_value}
use code_agent_router.Model.{zero_counters}
use code_agent_router.Map.{lookup}

-- `time.Date` on the day of a time, at an hour of it.
unfoldable pub hours_after : ℕ → ℤ → ℕ
hours_after start (pos n) = start + n * 3_600_000_000_000
hours_after start (negsuc n) = start - suc n * 3_600_000_000_000

unfoldable pub at_hour : Time → ℤ → Time
unfolding day_start hours_after
at_hour t h = record t { instant = hours_after (day_start t).instant h }

-- The first range that begins later in the day.
unfoldable pub first_later : (h : ℕ) → List WorkingHour → Option WorkingHour
first_later h [] = none
first_later h (wh ∷ whs) =
    let rest : Option WorkingHour = first_later h whs in
    if ltb_ℤ (pos h) wh.start then some wh else rest

-- The part of `nextWorkingStart` on a time in the location, with the first of the hours.
unfoldable pub next_start : WorkingHour → List WorkingHour → Time → Time
unfolding any_range first_later at_hour hour_of
next_start first hours lt =
    if any_range (hour_of lt) hours
    then at_hour lt (pos (hour_of lt + 1))
    else elim (first_later (hour_of lt) hours) [
      | some wh ↦ at_hour lt wh.start
      | none ↦ at_hour (add lt day) first.start
    ]

unfoldable pub next_working_start : Engine → (now : Time) → Time
unfolding next_start
next_working_start e now = elim e.working_hours [
  | [] ↦ add now hour
  | first ∷ rest ↦ next_start first (first ∷ rest) (in_location now e.loc)
]

-- The day of a time begins no earlier than the clock does.
abbrev pub HasDay : Time → Type 0
HasDay t = (t.instant + t.offset) % 86_400_000_000_000 ≤ t.instant

-- The server's clock and the location of the working hours begin their hours together.
abbrev pub SameHours : Engine → Time → Type 0
SameHours e t = t.offset % 3_600_000_000_000 ≡ e.loc % 3_600_000_000_000

-- The hour that a user's counter is of, in a store, began no later than a time.
abbrev pub HasBegun : Bytes → Store → Time → Type 0
HasBegun id s t =
    (get_or zero_counters (lookup id s.counters)).hour.window_start.instant ≤ t.instant

-- A time after another and at most an hour after it, at which an hour begins, and with it a window of
-- the counters.
pub record IsNextStart (e : Engine) (now next : Time) : Type 0 where
  pub later : now.instant < next.instant
  pub soon : next.instant ≤ now.instant + 3_600_000_000_000
  pub on_the_hour : (next.instant + e.loc) % 3_600_000_000_000 ≡ 0
  pub begins : (hour_start (in_location next now.offset)).instant ≡ next.instant

next_hour-IsNextStart :
    (e : Engine) (now : Time)
    → HasDay (in_location now e.loc)
    → SameHours e now
    → let lt : Time = in_location now e.loc in IsNextStart e now (at_hour lt (pos (hour_of lt + 1)))
unfolding hour_of at_hour day_start hours_after hour_start
next_hour-IsNextStart e now d z = record {
  later = omega arith;
  soon = omega arith;
  on_the_hour = omega arith;
  begins = omega arith;
}

-- In the working hours the next hour is told.
next_working_start-eq :
    (e : Engine) (now : Time)
    → is_working_hour e now ≡ true
    → let lt : Time = in_location now e.loc in
      next_working_start e now ≡ at_hour lt (pos (hour_of lt + 1))
unfolding next_working_start next_start is_working_hour any_range
next_working_start-eq e now w = go e.working_hours refl
  where
    lt : Time
    lt = in_location now e.loc

    go :
        (hours : List WorkingHour)
        → e.working_hours ≡ hours
        → next_working_start e now ≡ at_hour lt (pos (hour_of lt + 1))
    go [] p = absurd (ground arith)
    go (first ∷ rest) p =
        let q : any_range (hour_of lt) (first ∷ rest) ≡ true =
          subst (λ hs. any_range (hour_of lt) hs ≡ true) p w in
        rw (next_working_start, p, next_start, q) refl

-- A window that begins after the hour of a counter has none of it.
emptied :
    (id : Bytes) (s : Store) (now next : Time)
    → HasBegun id s now
    → now.instant < next.instant
    → (hour_start next).instant ≡ next.instant
    → hour_value id next s ≡ pos 0
unfolding current ensure_window
emptied id s now next b l h = ground arith

-- In the working hours the time that a client is told to come back at is after the request and at
-- most an hour after it, an hour begins at it, and whatever the user has used of the hourly quota by
-- then counts no more: at that time, on the server's clock, the hour of the user's counters reads zero
-- in every store whose hour for the user began no later than the request. The day of the clock begins
-- no earlier than its zero, and the hours of the server's clock and of the location begin together.
pub next_working_start-IsNextStart :
    (e : Engine) (now : Time) (id : Bytes) (s : Store)
    → is_working_hour e now ≡ true
    → HasDay (in_location now e.loc)
    → SameHours e now
    → HasBegun id s now
    → IsNextStart e now (next_working_start e now)
      × (hour_value id (in_location (next_working_start e now) now.offset) s ≡ pos 0)
next_working_start-IsNextStart e now id s w d z b =
    let h : IsNextStart e now (next_working_start e now) =
      subst (IsNextStart e now) (sym (next_working_start-eq e now w))
        (next_hour-IsNextStart e now d z) in
    (h, emptied id s now (in_location (next_working_start e now) now.offset) b h.later h.begins)
