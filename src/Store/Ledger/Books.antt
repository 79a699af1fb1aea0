-- ===== src/Store/Ledger/Books.antt =====
-- The book that the counters of one user in internal/store/state.go are compared with.
use code_agent_router.Prelude.{ℕ, ◌+◌, ◌-◌, ◌<◌, ◌^◌, ◌≡◌, refl, Bool, List, [], ◌∷◌, arith, All}
use code_agent_router.Prelude.Int.{ℤ, pos, ◌+ℤ◌, ◌-ℤ◌, pos_part, ◌≤ℤ◌}
use code_agent_router.Prelude.Int64.{add64, sub64, max64}
use code_agent_router.Text.{Bytes}
use code_agent_router.Map.{lookup}
use code_agent_router.Clock.{Time}
use code_agent_router.Result.{ok}
use code_agent_router.Store.State.{Store}
use code_agent_router.Store.Counters.{reserve_user, release_user, settle_user}
use code_agent_router.Store.Windows.{SameWindow}

-- The estimates of the requests that are under way, the tokens of those that were settled, by how
-- much these went over their estimates, and every estimate and count of tokens there was. The code
-- has int64 here, and negative ones are possible.
pub record Book : Type 0 where
  pub held : List ℤ
  pub spent : ℕ
  pub overrun : ℕ
  pub charges : List ℤ

abbrev pub empty_book : Book
empty_book = record { held = []; spent = 0; overrun = 0; charges = [] }

abbrev pub total : List ℤ → ℕ
total [] = 0
total (n ∷ ns) = pos_part n + total ns

abbrev pub IsCount : ℤ → Type 0
IsCount n = pos 0 ≤ℤ n

-- No request of the book has a negative estimate or a negative count of tokens.
abbrev pub IsCounted : Book → Type 0
IsCounted b = All IsCount b.charges

-- One occurrence of `n` taken out of a list.
pub data Takes (n : ℤ) : List ℤ → List ℤ → Type 0 where
  here : {ns : List ℤ} → Takes n (n ∷ ns) ns
  there : {m : ℤ} {ns ms : List ℤ} → Takes n ns ms → Takes n (m ∷ ns) (m ∷ ms)

pub Takes-total : {n : ℤ} {ns ms : List ℤ} → Takes n ns ms → total ns ≡ pos_part n + total ms
Takes-total here = refl
Takes-total (there t) = omega (arith, Takes-total t)

pub Takes-All :
    {n : ℤ} {ns ms : List ℤ} → Takes n ns ms → All IsCount ns → IsCount n × All IsCount ms
Takes-All here (p, h) = (p, h)
Takes-All (there t) (p, h) = let (q, k) = Takes-All t h in (q, (p, k))

-- The three changes of a counter, where nothing overflows.
module _ (base spent held : ℕ) (v : ℤ) (reads : v ≡ pos (base + (spent + held))) where
  pub reserve_exact :
      (est : ℕ)
      → base + (spent + held) + est < 2 ^ 63
      → add64 v (pos est) ≡ pos (base + (spent + (est + held)))
  unfolding add64 ◌+ℤ◌
  reserve_exact est h = ground arith

  pub release_exact :
      (est rest : ℕ)
      → held ≡ est + rest
      → base + (spent + held) < 2 ^ 63
      → max64 (pos 0) (sub64 v (pos est)) ≡ pos (base + (spent + rest))
  unfolding max64 sub64 ◌-ℤ◌
  release_exact est rest e h = ground arith

  pub settle_exact :
      (est actual rest : ℕ)
      → held ≡ est + rest
      → base + (spent + held) + actual < 2 ^ 63
      → max64 (pos 0) (add64 v (sub64 (pos actual) (pos est)))
        ≡ pos (base + (spent + actual + rest))
  unfolding max64 add64 sub64 ◌+ℤ◌ ◌-ℤ◌
  settle_exact est actual rest e h = ground arith

-- One step of a history, in the window of the time `t`, for a user with the given limits. What the
-- user's counters do not show, such as a refusal or another user's request, is `others`.
pub data Step (id : Bytes) (t : Time) (hourly daily : ℤ) (s : Store) (b : Book)
    : Store → Book → Type 0 where
  reserves :
      (est : ℤ) (working : Bool) (now : Time) (s' : Store)
      → SameWindow t now
      → reserve_user id est hourly daily working now s ≡ (ok tt, s')
      → Step id t hourly daily s b s' (record b { held = est ∷ b.held; charges = est ∷ b.charges })
  releases :
      (est : ℤ) (now : Time) (rest : List ℤ)
      → SameWindow t now
      → Takes est b.held rest
      → Step id t hourly daily s b (release_user id est now s) (record b { held = rest })
  settles :
      (est actual : ℤ) (now : Time) (rest : List ℤ)
      → SameWindow t now
      → Takes est b.held rest
      → Step id t hourly daily s b (settle_user id est actual now s) (record b {
        held = rest;
        spent = b.spent + pos_part actual;
        overrun = b.overrun + (pos_part actual - pos_part est);
        charges = actual ∷ b.charges;
      })
  others :
      (s' : Store) → lookup id s'.counters ≡ lookup id s.counters → Step id t hourly daily s b s' b

pub data History (id : Bytes) (t : Time) (hourly daily : ℤ) (s : Store)
    : Store → Book → Type 0 where
  begin : History id t hourly daily s s empty_book
  next :
      {u v : Store} {b c : Book}
      → History id t hourly daily s u b
      → Step id t hourly daily u b v c
      → History id t hourly daily s v c
