-- ===== src/Store/Saved/Dirty.antt =====
-- Which methods of internal/store/state.go mark the store for the next save.
use code_agent_router.Prelude.{
  ◌≡◌, refl, ◌∙◌, ◌⊎◌, inl, inr, Bool, true, Option, none, some, List, [], not, ◌&&◌, Bool-cases,
  Option-cases, get_or,
}
use code_agent_router.Prelude.Int.{ℤ, pos, ltb_ℤ}
use code_agent_router.Prelude.Int64.{add64}
use code_agent_router.Text.{Bytes, str_eq}
use code_agent_router.Map.{lookup, values}
use code_agent_router.Clock.{Time}
use code_agent_router.Model.{User, UpstreamKey, UserCounters, WindowCounter}
use code_agent_router.Store.State.{
  State, Store, changed, schedule_save_locked, mark_dirty_locked, or_fresh,
}
use code_agent_router.Store.Users.{
  create_user, edit_user, delete_user, add_access_key, remove_access_key, delete_session,
  find_username,
}
use code_agent_router.Store.Keys.{
  Gcm, create_upstream_key, replace_upstream_key, delete_upstream_key, encrypt,
}
use code_agent_router.Store.Counters.{
  reserve_user, reserve_key, gate_user, gate_key, key_hour_locked, put_key_hour,
}

-- Users, access keys, upstream keys and sessions of two states.
pub record SameRecords (a b : State) : Type 0 where
  pub users_same : a.users ≡ b.users
  pub access_same : a.access_keys ≡ b.access_keys
  pub keys_same : a.upstream_keys ≡ b.upstream_keys
  pub sessions_same : a.sessions ≡ b.sessions

-- A change is waiting to be saved, or the file holds the records of the state; a missing file stands
-- for the fresh state.
abbrev pub IsSaved : Store → Type 0
IsSaved s = (s.dirty ≡ true) ⊎ SameRecords (or_fresh s.file) s.state

-- A method marks the store dirty, or it leaves the mark, the file and the records alone.
pub record Marks (s t : Store) : Type 0 where
  pub how :
      (t.dirty ≡ true) ⊎ ((t.dirty ≡ s.dirty) × (t.file ≡ s.file) × SameRecords s.state t.state)

now_dirty : {s t : Store} → t.dirty ≡ true → Marks s t
now_dirty d = record { how = inl d }

SameRecords-refl : (a : State) → SameRecords a a
SameRecords-refl a = record {
  users_same = refl;
  access_same = refl;
  keys_same = refl;
  sessions_same = refl;
}

untouched : (s : Store) → Marks s s
untouched s = record { how = inr (refl, refl, SameRecords-refl s.state) }

pub marked : (s : Store) (st : State) → (changed s st).dirty ≡ true
unfolding changed mark_dirty_locked schedule_save_locked
marked s st = refl

pub Marks-IsSaved : {s t : Store} → Marks s t → IsSaved s → IsSaved t
Marks-IsSaved m h = elim m.how [
  | inl d ↦ inl d
  | inr (d, f, r) ↦ elim h [
    | inl e ↦ inl (d ∙ e)
    | inr q ↦ inr (record {
      users_same = rw f (q.users_same ∙ r.users_same);
      access_same = rw f (q.access_same ∙ r.access_same);
      keys_same = rw f (q.keys_same ∙ r.keys_same);
      sessions_same = rw f (q.sessions_same ∙ r.sessions_same);
    })
  ]
]

module _ (s : Store) where
  pub create_user-Marks :
      (n d p : Bytes) (en : Bool) (r : Bytes) (now : Time)
      → Marks s (create_user n d p en r now s).1
  unfolding create_user
  create_user-Marks n d p en r now = elim (Option-cases (find_username n (values s.users))) [
    | inl e ↦ rw (create_user, e) (now_dirty (marked s _))
    | inr (u, e) ↦ rw (create_user, e) (untouched s)
  ]

  pub edit_user-Marks : (id : Bytes) (f : User → User) → Marks s (edit_user id f s).1
  unfolding edit_user
  edit_user-Marks id f = elim (Option-cases (lookup id s.users)) [
    | inl e ↦ rw (edit_user, e) (untouched s)
    | inr (u, e) ↦ rw (edit_user, e) (now_dirty (marked s _))
  ]

  pub delete_user-Marks : (id : Bytes) → Marks s (delete_user id s).1
  unfolding delete_user
  delete_user-Marks id = elim (Option-cases (lookup id s.users)) [
    | inl e ↦ rw (delete_user, e) (untouched s)
    | inr (u, e) ↦ rw (delete_user, e) (now_dirty (marked s _))
  ]

  pub add_access_key-Marks : (id entropy : Bytes) → Marks s (add_access_key id entropy s).1
  unfolding add_access_key
  add_access_key-Marks id entropy = elim (Option-cases (lookup id s.users)) [
    | inl e ↦ rw (add_access_key, e) (untouched s)
    | inr (u, e) ↦ rw (add_access_key, e) (now_dirty (marked s _))
  ]

  pub remove_access_key-Marks : (id key : Bytes) → Marks s (remove_access_key id key s).1
  unfolding remove_access_key
  remove_access_key-Marks id key =
      elim (Bool-cases (str_eq (get_or [] (lookup key s.access_keys)) id)) [
        | inl e ↦ rw (remove_access_key, e) (now_dirty (marked s _))
        | inr e ↦ rw (remove_access_key, e) (untouched s)
      ]

  pub delete_session-Marks : (token : Bytes) → Marks s (delete_session token s)
  unfolding delete_session
  delete_session-Marks token = elim (Option-cases (lookup token s.sessions)) [
    | inl e ↦ rw (delete_session, e) (untouched s)
    | inr (x, e) ↦ rw (delete_session, e) (now_dirty (marked s _))
  ]

  pub create_upstream_key-Marks :
      (gcm : Gcm) (id n b a : Bytes) (ms : List Bytes) (en : Bool) (l : ℤ) (nonce : Option Bytes)
      (r : Bytes) (now : Time)
      → Marks s (create_upstream_key gcm id n b a ms en l nonce r now s).1
  unfolding create_upstream_key encrypt
  create_upstream_key-Marks gcm id n b a ms en l none r now = untouched s
  create_upstream_key-Marks gcm id n b a ms en l (some nonce) r now =
      elim (Option-cases (lookup id s.users)) [
        | inl e ↦ rw (create_upstream_key, e) (untouched s)
        | inr (u, e) ↦ rw (create_upstream_key, e) (now_dirty (marked s _))
      ]

  pub replace_upstream_key-Marks : (k : UpstreamKey) → Marks s (replace_upstream_key k s).1
  unfolding replace_upstream_key
  replace_upstream_key-Marks k = elim (Option-cases (lookup k.id s.upstream_keys)) [
    | inl e ↦ rw (replace_upstream_key, e) (untouched s)
    | inr (u, e) ↦ rw (replace_upstream_key, e) (now_dirty (marked s _))
  ]

  pub delete_upstream_key-Marks : (id : Bytes) → Marks s (delete_upstream_key id s).1
  unfolding delete_upstream_key
  delete_upstream_key-Marks id = elim (Option-cases (lookup id s.upstream_keys)) [
    | inl e ↦ rw (delete_upstream_key, e) (untouched s)
    | inr (u, e) ↦ rw (delete_upstream_key, e) (now_dirty (marked s _))
  ]

  gate_user-Marks :
      (id : Bytes) (est hourly daily : ℤ) (w : Bool) (hc : UserCounters)
      → Marks s (gate_user id est hourly daily w hc s).1
  unfolding gate_user
  gate_user-Marks id est hourly daily w hc =
      elim (Bool-cases (ltb_ℤ (pos 0) daily && ltb_ℤ daily (add64 hc.day.value est))) [
        | inl e ↦ rw (gate_user, e) (untouched s)
        | inr e ↦
            elim (Bool-cases
              (w && ltb_ℤ (pos 0) hourly && ltb_ℤ hourly (add64 hc.hour.value est))) [
                | inl f ↦ rw (gate_user, e, f) (untouched s)
                | inr f ↦ rw (gate_user, e, f) (now_dirty (marked s _))
              ]
      ]

  pub reserve_user-Marks :
      (id : Bytes) (est hourly daily : ℤ) (w : Bool) (now : Time)
      → Marks s (reserve_user id est hourly daily w now s).1
  unfolding reserve_user
  reserve_user-Marks id est hourly daily w now = elim (Option-cases (lookup id s.users)) [
    | inl e ↦ rw (reserve_user, e) (untouched s)
    | inr (u, e) ↦ elim (Bool-cases (not u.enabled)) [
      | inl f ↦ rw (reserve_user, e, f) (untouched s)
      | inr f ↦ rw (reserve_user, e, f) (gate_user-Marks id est hourly daily w _)
    ]
  ]

  -- The key's window is written back, which does not count as a change.
  gate_key-Marks :
      (id : Bytes) (est limit : ℤ) (w : Bool) (c d : WindowCounter)
      → Marks s (gate_key id est limit w c (put_key_hour id d s)).1
  unfolding gate_key put_key_hour
  gate_key-Marks id est limit w c d =
      elim (Bool-cases (w && ltb_ℤ (pos 0) limit && ltb_ℤ limit (add64 c.value est))) [
        | inl e ↦
            rw (gate_key, e)
              (record {
                how = inr (
                  refl,
                  refl,
                  record {
                    users_same = refl;
                    access_same = refl;
                    keys_same = refl;
                    sessions_same = refl;
                  },
                );
              })
        | inr e ↦ rw (gate_key, e) (now_dirty (marked _ _))
      ]

  pub reserve_key-Marks :
      (id : Bytes) (est limit : ℤ) (w : Bool) (now : Time)
      → Marks s (reserve_key id est limit w now s).1
  unfolding reserve_key key_hour_locked
  reserve_key-Marks id est limit w now = elim (Option-cases (lookup id s.upstream_keys)) [
    | inl e ↦ rw (reserve_key, e) (untouched s)
    | inr (k, e) ↦ elim (Bool-cases (not k.enabled)) [
      | inl f ↦ rw (reserve_key, e, f) (untouched s)
      | inr f ↦ rw (reserve_key, e, f) (gate_key-Marks id est limit w _ _)
    ]
  ]
