-- ===== src/Quota.antt =====
-- internal/quota/quota.go: working hours, limits, and the reservations that it drives on the store.
pub mod Gate
mod Tests
use code_agent_router.Prelude.{
  ℕ, Bool, true, false, not, ◌&&◌, Option, none, some, List, [], ◌∷◌, if◌then◌else◌,
}
use code_agent_router.Prelude.Int.{ℤ, pos, ltb_ℤ}
use code_agent_router.Text.{Bytes, is_empty}
use code_agent_router.Clock.{Time, in_location, hour_of}
use code_agent_router.Config.{WorkingHour, QuotaConfig}
use code_agent_router.Model.{User}
use code_agent_router.Result.{Result, err, user_not_found}
use code_agent_router.Store.State.{Store}
use code_agent_router.Store.Users.{get_user}
use code_agent_router.Store.Counters.{
  reserve_user, release_user, settle_user, release_key, settle_key,
}

-- `loc` is the offset that the configured time zone stands for.
pub record Engine : Type 0 where
  pub working_hours : List WorkingHour
  pub quota : QuotaConfig
  pub loc : ℕ

-- `lt.Hour() >= wh.Start && lt.Hour() < wh.End`
unfoldable pub in_range : ℕ → WorkingHour → Bool
in_range h wh = not (ltb_ℤ (pos h) wh.start) && ltb_ℤ (pos h) wh.finish

unfoldable pub any_range : ℕ → List WorkingHour → Bool
unfolding in_range
any_range h [] = false
any_range h (wh ∷ rest) = if in_range h wh then true else any_range h rest

unfoldable pub is_working_hour : Engine → Time → Bool
unfolding any_range
is_working_hour e t = any_range (hour_of (in_location t e.loc)) e.working_hours

unfoldable pub hourly_limit : Engine → User → ℤ
hourly_limit e u =
    if ltb_ℤ (pos 0) u.hourly_tokens then u.hourly_tokens else e.quota.default_hourly_tokens

unfoldable pub daily_limit : Engine → User → ℤ
daily_limit e u =
    if ltb_ℤ (pos 0) u.daily_tokens then u.daily_tokens else e.quota.default_daily_tokens

-- `CheckAndReserve` once `GetUser` has returned.
unfoldable pub reserve_for :
    Engine → Bytes → (est : ℤ) → (now : Time) → Option User → Store → Result (Unit {0}) × Store
reserve_for e user_id est now none s = (err user_not_found, s)
reserve_for e user_id est now (some user) s =
    reserve_user user_id est (hourly_limit e user) (daily_limit e user) (is_working_hour e now) now
      s

-- `CheckAndReserve`. Between its two calls of the store other requests may change it: `between` is
-- what they do.
unfoldable pub check_and_reserve :
    Engine
    → (between : Store → Store) → Bytes
    → (est : ℤ) → (now : Time) → Store
    → Result (Unit {0}) × Store
unfolding reserve_for
check_and_reserve e between user_id est now s =
    reserve_for e user_id est now (get_user user_id s) (between s)

-- `Release` and `Settle`; an empty key id means that no key is held. The clock is read at each lock.
unfoldable pub release :
    (between : Store → Store)
    → (user_id key_id : Bytes) → (est : ℤ) → (now now' : Time) → Store
    → Store
release between user_id key_id est now now' s =
    let s' : Store = release_user user_id est now s in
    if is_empty key_id then s' else release_key key_id est now' (between s')

unfoldable pub settle :
    (between : Store → Store)
    → (user_id key_id : Bytes) → (est actual : ℤ) → (now now' : Time) → Store
    → Store
settle between user_id key_id est actual now now' s =
    let s' : Store = settle_user user_id est actual now s in
    if is_empty key_id then s' else settle_key key_id est actual now' (between s')
