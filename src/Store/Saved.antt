-- ===== src/Store/Saved.antt =====
-- What the state file of internal/store/state.go holds, over any history of the methods.
mod Dirty
pub use Dirty.{
  SameRecords, IsSaved, Marks, marked, Marks-IsSaved, create_user-Marks, edit_user-Marks,
  delete_user-Marks, add_access_key-Marks, remove_access_key-Marks, delete_session-Marks,
  create_upstream_key-Marks, replace_upstream_key-Marks, delete_upstream_key-Marks,
  reserve_user-Marks, reserve_key-Marks,
}
use code_agent_router.Prelude.{
  ◌≡◌, refl, sym, ◌∙◌, ap, subst, ◌⊎◌, inl, inr, Bool, true, false, Option, none, some, List, [],
  if◌then◌else◌, not, ◌&&◌, Bool-cases, Option-cases, get_or, arith,
}
use code_agent_router.Prelude.Int.{ℤ, pos, ltb_ℤ}
use code_agent_router.Prelude.Int64.{add64}
use code_agent_router.Text.{Bytes, str_eq}
use code_agent_router.Map.{lookup, values}
use code_agent_router.Clock.{Time}
use code_agent_router.Model.{User, UpstreamKey, UserCounters, WindowCounter}
use code_agent_router.Result.{ok, err}
use code_agent_router.Store.State.{
  State, Store, changed, schedule_save_locked, mark_dirty_locked, WriteOutcome, written,
  marshal_fails, mkdir_fails, write_fails, rename_fails, save, flush, or_fresh, persisted,
  ReadOutcome, missing, holds, new, load,
}
use code_agent_router.Store.Users.{
  create_user, edit_user, update_user_quota, update_user_password, set_user_enabled, delete_user,
  add_access_key, remove_access_key, put_session, delete_session, find_username,
}
use code_agent_router.Store.Keys.{
  Gcm, create_upstream_key, replace_upstream_key, delete_upstream_key, encrypt,
}
use code_agent_router.Store.Counters.{
  reserve_user, release_user, settle_user, reserve_key, release_key, settle_key, gate_user,
  gate_key, put_counters, key_hour_locked, put_key_hour, counters_locked, start_flight,
}
use code_agent_router.Store.Frame.{SameEntities}
use code_agent_router.Store.Changes.{
  Change, creates_user, sets_quota, sets_password, sets_enabled, deletes_user, adds_access_key,
  removes_access_key, puts_session, deletes_session, creates_key, replaces_key, deletes_key,
  reserves_user, releases_user, settles_user, reserves_key, releases_key, settles_key, flushes,
  Changes, unchanged, then_changed,
}

-- A save that succeeds writes the records; one that fails leaves the store waiting.
save-IsSaved : (w : WriteOutcome) (s : Store) → s.dirty ≡ true → IsSaved (save w s).1
unfolding save
save-IsSaved written s d =
    inr (record { users_same = refl; access_same = refl; keys_same = refl; sessions_same = refl })
save-IsSaved marshal_fails s d = inl d
save-IsSaved mkdir_fails s d = inl d
save-IsSaved write_fails s d = inl d
save-IsSaved rename_fails s d = inl d

flush-IsSaved : (w : WriteOutcome) (s : Store) → IsSaved s → IsSaved (flush w s).1
unfolding flush
flush-IsSaved w s h = elim (Bool-cases s.dirty) [
  | inl e ↦ rw (flush, e) (save-IsSaved w (record s { dirty = true; timer = false }) refl)
  | inr e ↦ elim h [ inl d ↦ absurd (ground (arith, d, e)) | inr q ↦ rw (flush, e) (inr q) ]
]

Change-IsSaved : {s t : Store} → Change s t → IsSaved s → IsSaved t
unfolding update_user_quota update_user_password set_user_enabled put_session release_user
    settle_user release_key settle_key
Change-IsSaved {s} (creates_user n d p e r now) h =
    Marks-IsSaved (create_user-Marks s n d p e r now) h
Change-IsSaved {s} (sets_quota id hourly daily) h = Marks-IsSaved (edit_user-Marks s id _) h
Change-IsSaved {s} (sets_password id hash) h = Marks-IsSaved (edit_user-Marks s id _) h
Change-IsSaved {s} (sets_enabled id enabled) h = Marks-IsSaved (edit_user-Marks s id _) h
Change-IsSaved {s} (deletes_user id) h = Marks-IsSaved (delete_user-Marks s id) h
Change-IsSaved {s} (adds_access_key id r) h = Marks-IsSaved (add_access_key-Marks s id r) h
Change-IsSaved {s} (removes_access_key id key) h =
    Marks-IsSaved (remove_access_key-Marks s id key) h
Change-IsSaved {s} (puts_session token sess) h = inl (marked s _)
Change-IsSaved {s} (deletes_session token) h = Marks-IsSaved (delete_session-Marks s token) h
Change-IsSaved {s} (creates_key g id n b a ms e l nonce r now) h =
    Marks-IsSaved (create_upstream_key-Marks s g id n b a ms e l nonce r now) h
Change-IsSaved {s} (replaces_key k) h = Marks-IsSaved (replace_upstream_key-Marks s k) h
Change-IsSaved {s} (deletes_key id) h = Marks-IsSaved (delete_upstream_key-Marks s id) h
Change-IsSaved {s} (reserves_user id est hourly daily w now) h =
    Marks-IsSaved (reserve_user-Marks s id est hourly daily w now) h
Change-IsSaved {s} (releases_user id est now) h = inl (marked _ _)
Change-IsSaved {s} (settles_user id est actual now) h = inl (marked _ _)
Change-IsSaved {s} (reserves_key id est limit w now) h =
    Marks-IsSaved (reserve_key-Marks s id est limit w now) h
Change-IsSaved {s} (releases_key id est now) h = inl (marked _ _)
Change-IsSaved {s} (settles_key id est actual now) h = inl (marked _ _)
Change-IsSaved {s} (flushes w) h = flush-IsSaved w s h

Changes-IsSaved : {s t : Store} → Changes s t → IsSaved s → IsSaved t
Changes-IsSaved unchanged h = h
Changes-IsSaved (then_changed cs c) h = Change-IsSaved c (Changes-IsSaved cs h)

-- What reading a file comes to that has not been touched.
abbrev pub reading : Option State → ReadOutcome
reading none = missing
reading (some st) = holds st

-- `New` on a file gives a store with the records of a state.
abbrev pub Recovers : Option State → State → Type 0
Recovers file st = (v : Store) × (new (reading file) ≡ ok v) × SameRecords v.state st

new-Recovers :
    (file : Option State) (st : State) → SameRecords (or_fresh file) st → Recovers file st
unfolding new load
new-Recovers none st q = (_, refl, q)
new-Recovers (some x) st q = (
  _,
  refl,
  record {
    users_same = q.users_same;
    access_same = q.access_same;
    keys_same = q.keys_same;
    sessions_same = q.sessions_same;
  },
)

recovers : (s : Store) → IsSaved s → s.dirty ≡ false → Recovers s.file s.state
recovers s (inl d) e = absurd (ground (arith, d, e))
recovers s (inr q) e = new-Recovers s.file s.state q

flushed : (s : Store) → ((flush written s).1.dirty ≡ false) × ((flush written s).1.state ≡ s.state)
unfolding flush save
flushed s = elim (Bool-cases s.dirty) [
  | inl e ↦ rw (flush, e) (refl, refl)
  | inr e ↦ rw (flush, e) (refl, refl)
]

-- Whatever methods have been called on a store whose records were saved or waiting to be, and however
-- many saves have failed, once `Flush` succeeds a restart finds the users, the access keys, the
-- upstream keys and the sessions as they were.
pub restart-Recovers :
    {s t : Store} → Changes s t → IsSaved s → Recovers (flush written t).1.file t.state
restart-Recovers {s} {t} cs h =
    let (clean, same) = flushed t in
    subst (Recovers (flush written t).1.file) same
      (recovers (flush written t).1 (flush-IsSaved written t (Changes-IsSaved cs h)) clean)
