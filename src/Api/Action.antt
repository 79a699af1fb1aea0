-- ===== src/Api/Action.antt =====
-- What the handlers of internal/api are made of: a handler calls the store and the reports one lock
-- after the other, may answer early, and may panic. Before each lock the other requests may change
-- everything in any way.
use code_agent_router.Prelude.{some, none, true, false, [], ◌∷◌, ℕ, Bool, Option, List, ◌+◌}
use code_agent_router.Text.{Bytes}
use code_agent_router.Store.State.{Store}
use code_agent_router.Result.{Result, Error, ok, err}
use code_agent_router.Report.Service.{Reporting}

-- The texts of internal/api, and the text of an error.
pub data Message : Type 0 where
  says : Bytes → Message
  of_error : Error → Message
  of_report_error : Message

-- The shared state, and how often it has been locked.
pub record World : Type 0 where
  pub store : Store
  pub reporting : Reporting
  pub locks : ℕ

-- `goes` hands a value to the rest of the handler; `answers` is an early return, with its status and
-- message; `panics` is a panic.
pub data Flow (A : Type 0) : Type 0 where
  goes : A → Flow A
  answers : (status : ℕ) → Message → Flow A
  panics : Flow A

abbrev pub Action : Type 0 → Type 0
Action A = World → Flow A × World

infixl 5 ◌>>=◌ ◌>>◌
-- The rest of a handler, after what its first action comes to.
abbrev pub bound : {A B : Type 0} → Flow A → (A → Action B) → Action B
bound (goes a) f w = f a w
bound (answers status m) f w = (answers status m, w)
bound panics f w = (panics, w)

unfoldable pub ◌>>=◌ : {A B : Type 0} → Action A → (A → Action B) → Action B
◌>>=◌ act f w = bound (act w).0 f (act w).1

unfoldable pub ◌>>◌ : {B : Type 0} → Action (Unit {0}) → Action B → Action B
unfolding ◌>>=◌
act >> rest = act >>= λ _. rest

unfoldable pub pure : {A : Type 0} → A → Action A
pure a w = (goes a, w)

-- What the clock or the random source gives.
unfoldable pub draw : {A : Type 0} → (ℕ → A) → Action A
draw f w = (goes (f w.locks), w)

unfoldable pub reject : {A : Type 0} → (status : ℕ) → Message → Action A
reject status m w = (answers status m, w)

unfoldable pub panic : {A : Type 0} → Action A
panic w = (panics, w)

-- `if bad { writeJSONError(…); return }`
unfoldable pub reject_if : Bool → (status : ℕ) → Message → Action (Unit {0})
unfolding reject pure
reject_if true status m = reject status m
reject_if false status m = pure tt

-- `if err != nil { writeJSONError(…); return }`
unfoldable pub or_reject : {A : Type 0} → Result A → (Error → ℕ × Message) → Action A
unfolding reject pure
or_reject (ok a) f = pure a
or_reject (err e) f = reject (f e).0 (f e).1

-- `if x == nil { writeJSONError(…); return }`
unfoldable pub found_or : {A : Type 0} → Option A → (status : ℕ) → Message → Action A
unfolding reject pure
found_or (some a) status m = pure a
found_or none status m = reject status m

-- Reading through a pointer.
unfoldable pub deref : {A : Type 0} → Option A → Action A
unfolding pure panic
deref (some a) = pure a
deref none = panic

-- What the request does not decide.
pub record Others : Type 0 where
  pub others : ℕ → Store → Store
  pub others_reporting : ℕ → Reporting → Reporting

module _ (o : Others) where
  -- A call of a method of the store.
  unfoldable pub call : {A : Type 0} → (ℕ → Store → A × Store) → Action A
  call op w =
      let (a, s) = op w.locks (o.others w.locks w.store) in
      (goes a, record w { store = s; locks = w.locks + 1 })

  -- A call that takes the lock a second time, with other requests in between.
  unfoldable pub call_twice :
      {A : Type 0} → (ℕ → (between : Store → Store) → Store → A × Store) → Action A
  call_twice op w =
      let (a, s) = op w.locks (o.others (w.locks + 1)) (o.others w.locks w.store) in
      (goes a, record w { store = s; locks = w.locks + 2 })

  unfoldable pub read : {A : Type 0} → (Store → A) → Action A
  unfolding call
  read f = call (λ n s. (f s, s))

  unfoldable pub call_reports : {A : Type 0} → (ℕ → Reporting → A × Reporting) → Action A
  call_reports op w =
      let (a, r) = op w.locks (o.others_reporting w.locks w.reporting) in
      (goes a, record w { reporting = r; locks = w.locks + 1 })

-- A loop that appends what an action gives for each element.
unfoldable pub each : {A B : Type 0} → (A → Action B) → List A → Action (List B)
unfolding ◌>>=◌ pure
each f [] = pure []
each f (x ∷ xs) = do y ← f x; ys ← each f xs; pure (y ∷ ys)
