-- ===== src/Store/Consistent.antt =====
-- The users, access keys and upstream keys of internal/store/state.go over any history of the methods.
use code_agent_router.Prelude.{
  ◌≡◌, refl, subst, sym, ◌∙◌, ap, Bool, true, false, Option, none, some, List, [], ◌∷◌, Bool-cases,
  Option-cases, In, ◌≢◌, get_or, arith, inl, inr,
}
use code_agent_router.Prelude.Int.{ℤ}
use code_agent_router.Text.{Bytes, str_eq, str_eq_iff, equal_fold, to_lower}
use code_agent_router.Map.{lookup, insert, values, lookup-In}
use code_agent_router.Clock.{Time}
use code_agent_router.Model.{User, UpstreamKey}
use code_agent_router.Store.State.{
  Store, changed, WriteOutcome, flush, save, written, marshal_fails, mkdir_fails, write_fails,
  rename_fails,
}
use code_agent_router.Store.Users.{
  find_username, create_user, edit_user, update_user_quota, update_user_password, set_user_enabled,
  delete_user, without_user, add_access_key, remove_access_key, put_session, delete_session,
}
use code_agent_router.Store.Keys.{
  Gcm, create_upstream_key, replace_upstream_key, delete_upstream_key, encrypt,
}
use code_agent_router.Store.Changes.{
  Change, creates_user, sets_quota, sets_password, sets_enabled, deletes_user, adds_access_key,
  removes_access_key, puts_session, deletes_session, creates_key, replaces_key, deletes_key,
  reserves_user, releases_user, settles_user, reserves_key, releases_key, settles_key, flushes,
  Changes, unchanged, then_changed,
}
use code_agent_router.Store.Frame
use code_agent_router.Store.Frame.{SameEntities}
use code_agent_router.Store.Links.{
  Links, user-Links, access-Links, erase_access-Links, key-Links, erase_key-Links, without-Links,
}

abbrev pub IsConsistent : Store → Type 0
IsConsistent s = Links s.users s.access_keys s.upstream_keys

-- A name that is not found is no user's, in whatever case.
find_username-none :
    (name : Bytes) (us : List User)
    → find_username name us ≡ none
    → (u : User) → In u us
    → to_lower u.username ≢ to_lower name
unfolding find_username equal_fold
find_username-none name [] h u i = absurd i
find_username-none name (v ∷ vs) h u i = elim (Bool-cases (equal_fold v.username name)) [
  | inl e ↦ absurd (cc)
  | inr e ↦ elim i [
    | inl p ↦ λ q.
        let t : equal_fold v.username name ≡ true =
          (str_eq_iff (to_lower v.username) (to_lower name)).1
            (ap (λ x. to_lower x.username) (sym p) ∙ q) in
        ground (arith, e, t)
    | inr j ↦ find_username-none name vs (rw e at h) u j
  ]
]

create_user-IsConsistent :
    (username display_name hash : Bytes) (enabled : Bool) (entropy : Bytes) (now : Time) (s : Store)
    → IsConsistent s
    → IsConsistent (create_user username display_name hash enabled entropy now s).1
unfolding create_user changed
create_user-IsConsistent username display_name hash enabled entropy now s h =
    elim (Option-cases (find_username username (values s.users))) [
      | inl e ↦
          rw (create_user, e)
            (user-Links s.users s.access_keys s.upstream_keys h _ λ j v i q.
              absurd (find_username-none username (values s.users) e v (lookup-In j v s.users i) q))
      | inr (u, e) ↦ rw (create_user, e) h
    ]

module _ (s : Store) (h : IsConsistent s) where
  edit_user-IsConsistent :
      (id : Bytes) (f : User → User)
      → ((u : User) → (f u).id ≡ u.id)
      → ((u : User) → (f u).username ≡ u.username)
      → IsConsistent (edit_user id f s).1
  unfolding edit_user changed
  edit_user-IsConsistent id f same_id same_name = elim (Option-cases (lookup id s.users)) [
    | inl e ↦ rw (edit_user, e) h
    | inr (u, e) ↦
        let p : (f u).id ≡ id = same_id u ∙ h.user_filed id u e in
        let q =
          user-Links s.users s.access_keys s.upstream_keys h (f u)
            λ j v i n. h.distinct j id v u i e (n ∙ ap to_lower (same_name u)) ∙ sym p in
        rw (edit_user, e)
          (subst (λ i. Links (insert i (f u) s.users) s.access_keys s.upstream_keys) p q)
  ]

  delete_user-IsConsistent : (id : Bytes) → IsConsistent (delete_user id s).1
  unfolding delete_user changed without_user
  delete_user-IsConsistent id = elim (Option-cases (lookup id s.users)) [
    | inl e ↦ rw (delete_user, e) h
    | inr (u, e) ↦ rw (delete_user, e) (without-Links s.users s.access_keys s.upstream_keys h id)
  ]

  add_access_key-IsConsistent : (id entropy : Bytes) → IsConsistent (add_access_key id entropy s).1
  unfolding add_access_key changed
  add_access_key-IsConsistent id entropy = elim (Option-cases (lookup id s.users)) [
    | inl e ↦ rw (add_access_key, e) h
    | inr (u, e) ↦
        rw (add_access_key, e) (access-Links s.users s.access_keys s.upstream_keys h _ id (u, e))
  ]

  remove_access_key-IsConsistent : (id key : Bytes) → IsConsistent (remove_access_key id key s).1
  unfolding remove_access_key changed
  remove_access_key-IsConsistent id key =
      elim (Bool-cases (str_eq (get_or [] (lookup key s.access_keys)) id)) [
        | inl e ↦
            rw (remove_access_key, e)
              (erase_access-Links s.users s.access_keys s.upstream_keys h key)
        | inr e ↦ rw (remove_access_key, e) h
      ]

  create_upstream_key-IsConsistent :
      (gcm : Gcm) (id name base_url api_key : Bytes) (models : List Bytes) (enabled : Bool)
      (hourly_limit : ℤ) (nonce : Option Bytes) (entropy : Bytes) (now : Time)
      → IsConsistent
          (create_upstream_key gcm id name base_url api_key models enabled hourly_limit nonce
            entropy now s).1
  unfolding create_upstream_key encrypt changed
  create_upstream_key-IsConsistent gcm id name base_url api_key models enabled hourly_limit none
        entropy now =
      h
  create_upstream_key-IsConsistent gcm id name base_url api_key models enabled hourly_limit
        (some nonce) entropy now =
      elim (Option-cases (lookup id s.users)) [
        | inl e ↦ rw (create_upstream_key, e) h
        | inr (u, e) ↦
            rw (create_upstream_key, e) (key-Links s.users s.access_keys s.upstream_keys h _ (u, e))
      ]

  replace_upstream_key-IsConsistent : (k : UpstreamKey) → IsConsistent (replace_upstream_key k s).1
  unfolding replace_upstream_key changed
  replace_upstream_key-IsConsistent k = elim (Option-cases (lookup k.id s.upstream_keys)) [
    | inl e ↦ rw (replace_upstream_key, e) h
    | inr (old, e) ↦
        rw (replace_upstream_key, e)
          (key-Links s.users s.access_keys s.upstream_keys h _ (h.key_owned k.id old e))
  ]

  delete_upstream_key-IsConsistent : (id : Bytes) → IsConsistent (delete_upstream_key id s).1
  unfolding delete_upstream_key changed
  delete_upstream_key-IsConsistent id = elim (Option-cases (lookup id s.upstream_keys)) [
    | inl e ↦ rw (delete_upstream_key, e) h
    | inr (k, e) ↦
        rw (delete_upstream_key, e) (erase_key-Links s.users s.access_keys s.upstream_keys h id)
  ]

  delete_session-IsConsistent : (token : Bytes) → IsConsistent (delete_session token s)
  unfolding delete_session changed
  delete_session-IsConsistent token = elim (Option-cases (lookup token s.sessions)) [
    | inl e ↦ rw (delete_session, e) h
    | inr (x, e) ↦ rw (delete_session, e) h
  ]

  save-IsConsistent : (w : WriteOutcome) → IsConsistent (save w s).1
  unfolding save
  save-IsConsistent written = h
  save-IsConsistent marshal_fails = h
  save-IsConsistent mkdir_fails = h
  save-IsConsistent write_fails = h
  save-IsConsistent rename_fails = h

  counters-IsConsistent : (t : Store) → SameEntities s t → IsConsistent t
  counters-IsConsistent t f = rw (f.same_users, f.same_access_keys, f.same_upstream_keys) h

flush-IsConsistent : (w : WriteOutcome) (s : Store) → IsConsistent s → IsConsistent (flush w s).1
unfolding flush
flush-IsConsistent w s h = elim (Bool-cases s.dirty) [
  | inl e ↦ rw (flush, e) (save-IsConsistent (record s { dirty = true; timer = false }) h w)
  | inr e ↦ rw (flush, e) h
]

Change-IsConsistent : {s t : Store} → Change s t → IsConsistent s → IsConsistent t
unfolding update_user_quota update_user_password set_user_enabled put_session changed
Change-IsConsistent {s} (creates_user n d p e r now) h = create_user-IsConsistent n d p e r now s h
Change-IsConsistent {s} (sets_quota id hourly daily) h =
    edit_user-IsConsistent s h id _ (λ u. refl) (λ u. refl)
Change-IsConsistent {s} (sets_password id hash) h =
    edit_user-IsConsistent s h id _ (λ u. refl) (λ u. refl)
Change-IsConsistent {s} (sets_enabled id enabled) h =
    edit_user-IsConsistent s h id _ (λ u. refl) (λ u. refl)
Change-IsConsistent {s} (deletes_user id) h = delete_user-IsConsistent s h id
Change-IsConsistent {s} (adds_access_key id r) h = add_access_key-IsConsistent s h id r
Change-IsConsistent {s} (removes_access_key id key) h = remove_access_key-IsConsistent s h id key
Change-IsConsistent {s} (puts_session token sess) h = h
Change-IsConsistent {s} (deletes_session token) h = delete_session-IsConsistent s h token
Change-IsConsistent {s} (creates_key g id n b a ms e l nonce r now) h =
    create_upstream_key-IsConsistent s h g id n b a ms e l nonce r now
Change-IsConsistent {s} (replaces_key k) h = replace_upstream_key-IsConsistent s h k
Change-IsConsistent {s} (deletes_key id) h = delete_upstream_key-IsConsistent s h id
Change-IsConsistent {s} (reserves_user id est hourly daily w now) h =
    counters-IsConsistent s h _ (Frame.reserve_user-SameEntities id est hourly daily w now s)
Change-IsConsistent {s} (releases_user id est now) h =
    counters-IsConsistent s h _ (Frame.release_user-SameEntities id est now s)
Change-IsConsistent {s} (settles_user id est actual now) h =
    counters-IsConsistent s h _ (Frame.settle_user-SameEntities id est actual now s)
Change-IsConsistent {s} (reserves_key id est limit w now) h =
    counters-IsConsistent s h _ (Frame.reserve_key-SameEntities id est limit w now s)
Change-IsConsistent {s} (releases_key id est now) h =
    counters-IsConsistent s h _ (Frame.release_key-SameEntities id est now s)
Change-IsConsistent {s} (settles_key id est actual now) h =
    counters-IsConsistent s h _ (Frame.settle_key-SameEntities id est actual now s)
Change-IsConsistent {s} (flushes w) h = flush-IsConsistent w s h

-- Whatever methods are called on a store, in whatever order and with whatever arguments, it stays
-- consistent if it was: no two users have names that differ in case only, users and upstream keys are
-- filed under their identifiers, and every access key and upstream key belongs to a user that is
-- there.
pub Changes-IsConsistent : {s t : Store} → Changes s t → IsConsistent s → IsConsistent t
Changes-IsConsistent unchanged h = h
Changes-IsConsistent (then_changed cs c) h = Change-IsConsistent c (Changes-IsConsistent cs h)
