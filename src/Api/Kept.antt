-- ===== src/Api/Kept.antt =====
-- What each step of a handler of internal/api keeps of the store, whatever the other requests do in
-- between as long as they keep it too.
use code_agent_router.Api.Action.{
  ◌>>=◌, ◌>>◌, Flow, Action, pure, each, Others, goes, World, Message, deref, call, read, answers,
  reject, found_or, or_reject, reject_if, panics, bound, draw, call_reports, panic, call_twice,
}
use code_agent_router.Prelude.{
  refl, some, none, true, false, [], ◌∷◌, ℕ, Option, Bool, List, ◌≡◌, ◌+◌,
}
use code_agent_router.Store.State.{Store}
use code_agent_router.Result.{Result, Error, ok, err}
use code_agent_router.Report.Service.{Reporting}

module _ (I : Store → Type 0) where
  abbrev pub OnGoes : {A : Type 0} → (A → Type 0) → Flow A → Type 0
  OnGoes Q (goes a) = Q a
  OnGoes Q (answers status m) = Unit
  OnGoes Q panics = Unit

  -- An action that keeps `I` and gives only what `Q` holds of.
  pub record Does {A : Type 0} (act : Action A) (Q : A → Type 0) : Type 0 where
    pub runs : (w : World) → I w.store → I (act w).1.store × OnGoes Q (act w).0

  abbrev pub Any : {A : Type 0} → A → Type 0
  Any a = Unit

  pub pure-Does : {A : Type 0} {Q : A → Type 0} (a : A) → Q a → Does (pure a) Q
  unfolding pure
  pure-Does a q = record { runs = λ w h. (h, q) }

  pub reject-Does :
      {A : Type 0} {Q : A → Type 0} (status : ℕ) (m : Message) → Does (reject {A = A} status m) Q
  unfolding reject
  reject-Does status m = record { runs = λ w h. (h, tt) }

  pub panic-Does : {A : Type 0} {Q : A → Type 0} → Does (panic {A = A}) Q
  unfolding panic
  panic-Does = record { runs = λ w h. (h, tt) }

  -- What the rest of a handler does after what the first action comes to.
  bind-flow :
      {A B : Type 0} (Q : A → Type 0) (R : B → Type 0) (f : A → Action B)
      → ((a : A) → Q a → Does (f a) R)
      → (flow : Flow A) (w : World) → I w.store
      → OnGoes Q flow
      → I (bound flow f w).1.store × OnGoes R (bound flow f w).0
  bind-flow Q R f e (goes a) w h q = (e a q).runs w h
  bind-flow Q R f e (answers status m) w h q = (h, tt)
  bind-flow Q R f e panics w h q = (h, tt)

  pub bind-Does :
      {A B : Type 0} {Q : A → Type 0} {R : B → Type 0} (act : Action A) (f : A → Action B)
      → Does act Q
      → ((a : A) → Q a → Does (f a) R)
      → Does (act >>= f) R
  unfolding ◌>>=◌
  bind-Does {A} {B} {Q} {R} act f d e = record {
    runs = λ w h. let r = d.runs w h in bind-flow Q R f e (act w).0 (act w).1 r.0 r.1;
  }

  pub then-Does :
      {B : Type 0} {Q : Unit {0} → Type 0} {R : B → Type 0} (act : Action (Unit {0}))
      (rest : Action B)
      → Does act Q
      → Does rest R
      → Does (act >> rest) R
  unfolding ◌>>◌
  then-Does act rest d e = bind-Does act (λ _. rest) d (λ u _. e)

  pub found_or-Does :
      {A : Type 0} (o : Option A) (status : ℕ) (m : Message)
      → Does (found_or o status m) (λ a. o ≡ some a)
  unfolding found_or
  found_or-Does none status m = record { runs = λ w h. (h, tt) }
  found_or-Does (some a) status m = record { runs = λ w h. (h, refl) }

  pub or_reject-Does :
      {A : Type 0} (x : Result A) (f : Error → ℕ × Message) → Does (or_reject x f) (λ a. x ≡ ok a)
  unfolding or_reject
  or_reject-Does (ok a) f = record { runs = λ w h. (h, refl) }
  or_reject-Does (err e) f = record { runs = λ w h. (h, tt) }

  pub reject_if-Does : (b : Bool) (status : ℕ) (m : Message) → Does (reject_if b status m) Any
  unfolding reject_if
  reject_if-Does true status m = record { runs = λ w h. (h, tt) }
  reject_if-Does false status m = record { runs = λ w h. (h, tt) }

  pub deref-Does : {A : Type 0} (o : Option A) → Does (deref o) Any
  unfolding deref
  deref-Does none = record { runs = λ w h. (h, tt) }
  deref-Does (some a) = record { runs = λ w h. (h, tt) }

  pub draw-Does : {A : Type 0} (f : ℕ → A) → Does (draw f) Any
  unfolding draw
  draw-Does f = record { runs = λ w h. (h, tt) }

  pub each-Does :
      {A B : Type 0} (f : A → Action B) (xs : List A)
      → ((a : A) → Does (f a) Any)
      → Does (each f xs) Any
  unfolding each
  each-Does f [] d = pure-Does [] tt
  each-Does f (x ∷ xs) d =
      bind-Does (f x) _ (d x)
        (λ y _. bind-Does (each f xs) _ (each-Does f xs d) (λ ys _. pure-Does (y ∷ ys) tt))

  module _ (o : Others) (keep : (n : ℕ) (s : Store) → I s → I (o.others n s)) where
    pub call-Does :
        {A : Type 0} {Q : A → Type 0} (op : ℕ → Store → A × Store)
        → ((n : ℕ) (s : Store) → I s → I (op n s).1 × Q (op n s).0)
        → Does (call o op) Q
    unfolding call
    call-Does op d = record {
      runs = λ w h. d w.locks (o.others w.locks w.store) (keep w.locks w.store h);
    }

    pub call_twice-Does :
        {A : Type 0} {Q : A → Type 0} (op : ℕ → (Store → Store) → Store → A × Store)
        → ((n : ℕ) (between : Store → Store) (s : Store)
            → ((t : Store) → I t → I (between t))
            → I s
            → I (op n between s).1 × Q (op n between s).0)
        → Does (call_twice o op) Q
    unfolding call_twice
    call_twice-Does op d = record {
      runs = λ w h.
          d w.locks (o.others (w.locks + 1)) (o.others w.locks w.store) (keep (w.locks + 1))
            (keep w.locks w.store h);
    }

    pub read-Does :
        {A : Type 0} {Q : A → Type 0} (f : Store → A)
        → ((s : Store) → I s → Q (f s))
        → Does (read o f) Q
    unfolding read
    read-Does f d = call-Does (λ n s. (f s, s)) (λ n s h. (h, d s h))

    pub call_reports-Does :
        {A : Type 0} (op : ℕ → Reporting → A × Reporting) → Does (call_reports o op) Any
    unfolding call_reports
    call_reports-Does op = record { runs = λ w h. (h, tt) }
