-- ===== src/Ratelimit.antt =====
-- internal/ratelimit/ratelimit.go: the sliding window of each user. Times are instants and durations
-- nanoseconds, and the in-place filter of the slice is the list of the hits that it keeps.
pub mod Window
pub mod Retry
mod Tests
use code_agent_router.Prelude.{
  ℕ, ◌+◌, ◌-◌, Bool, true, false, Option, none, some, List, [], ◌∷◌, ◌++◌, keep, length, ltb,
  if◌then◌else◌, get_or,
}
use code_agent_router.Text.{Bytes}
use code_agent_router.Map.{Map, lookup, insert}

pub record Limiter : Type 0 where
  pub windows : Map (List ℕ)
  pub limit : ℕ
  pub window : ℕ

unfoldable pub new : (limit window : ℕ) → Limiter
new limit window = record { windows = []; limit = limit; window = window }

-- What `Allow` returns; `panics` is the read of `kept[0]` from an empty slice.
pub data Verdict : Type 0 where
  allowed : Verdict
  denied : (retry : ℕ) → Verdict
  panics : Verdict

-- `t.After(now.Add(-window))`
unfoldable pub is_recent : (window now t : ℕ) → Bool
is_recent window now t = ltb now (t + window)

-- The loop that fills `kept`.
unfoldable pub recent : (window now : ℕ) → List ℕ → List ℕ
unfolding is_recent
recent window now = keep (is_recent window now)

-- The wait of a denied request: `window - now.Sub(kept[0])`, or 0 if that is negative.
unfoldable pub retry_after : (window now : ℕ) → List ℕ → Verdict
retry_after window now [] = panics
retry_after window now (t ∷ ts) = denied (if ltb (t + window) now then 0 else t + window - now)

-- `Allow`, on the hits of the user.
unfoldable pub allow_hits : (limit window now : ℕ) → List ℕ → Verdict × List ℕ
unfolding recent retry_after
allow_hits limit window now hits =
    let kept : List ℕ = recent window now hits in
    if ltb (length kept) limit
    then (allowed, kept ++ now ∷ [])
    else (retry_after window now kept, kept)

unfoldable pub allow : Limiter → Bytes → (now : ℕ) → Verdict × Limiter
unfolding allow_hits
allow l user_id now =
    let (v, hits) = allow_hits l.limit l.window now (get_or [] (lookup user_id l.windows)) in
    (v, record l { windows = insert user_id hits l.windows })
