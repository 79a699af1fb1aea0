-- ===== src/Relay/Serve.antt =====
-- The handlers of /v1/ in internal/api/relay.go up to the call of `proxy`, and the list of models.
use code_agent_router.Prelude.{
  refl, inl, inr, some, none, true, false, [], ◌∷◌, ℕ, Bool, Option, if◌then◌else◌, ltb, List, ◌-◌,
  not, ◌≡◌, Bool-cases, Option-cases, subst, ◌∙◌, arith,
}
use code_agent_router.Text.{Bytes, is_empty, trim_space, codes, str_eq}
use code_agent_router.Json.{Value, str, get, Fields}
use code_agent_router.Map.{Map, insert, IsMap, lookup, insert-IsMap, lookup-insert}
use code_agent_router.Model.{UpstreamKey}
use code_agent_router.Prelude.Int.{ℤ, pos}
use code_agent_router.Tokenize.{
  estimate_chat_payload, estimate_completion_payload, estimate_embedding_payload,
}
use code_agent_router.Clock.{minute}

-- A body that cannot be read, or what of it was read: at most `maxBodyBytes`.
pub data BodyRead : Type 0 where
  body_broken : BodyRead
  body_read : Bytes → BodyRead

-- The messages of the early returns.
pub data Rejection : Type 0 where
  unreadable_body invalid_json model_required : Rejection

-- What a handler comes to: an early return with status 400, or the arguments of its call of `proxy`.
pub data Entered : Type 0 where
  rejected : Rejection → Entered
  enters : (path body : Bytes) → (prompt : ℕ) → (completion : ℤ) → (inject_usage : Bool) → Entered

-- `s, _ := v.(string)`
unfoldable pub string_of : Value → Bytes
string_of (str s) = s
string_of v = []

-- `readBody`, `parsePayload` and `requireModel`: the payload, or an early return.
unfoldable pub payload_of :
    (unmarshal : Bytes → Option Fields) → BodyRead → (Bytes → Fields → Entered) → Entered
unfolding string_of is_empty trim_space get
payload_of unmarshal body_broken k = rejected unreadable_body
payload_of unmarshal (body_read body) k = elim (unmarshal body) [
  | none ↦ rejected invalid_json
  | some payload ↦
      if is_empty (trim_space (string_of (get (codes "model") payload)))
      then rejected model_required
      else k body payload
]

module _ (is_cjk : ℕ → Bool) (unmarshal : Bytes → Option Fields) where
  unfoldable pub serve_chat_completions : BodyRead → Entered
  unfolding payload_of estimate_chat_payload
  serve_chat_completions r = payload_of unmarshal r (λ body payload.
      let (prompt, completion) = estimate_chat_payload is_cjk payload in
      enters (codes "/v1/chat/completions") body prompt completion true)

  unfoldable pub serve_completions : BodyRead → Entered
  unfolding payload_of estimate_completion_payload
  serve_completions r = payload_of unmarshal r (λ body payload.
      let (prompt, completion) = estimate_completion_payload is_cjk payload in
      enters (codes "/v1/completions") body prompt completion true)

  unfoldable pub serve_embeddings : BodyRead → Entered
  unfolding payload_of estimate_embedding_payload
  serve_embeddings r = payload_of unmarshal r (λ body payload.
      enters (codes "/v1/embeddings") body (estimate_embedding_payload is_cjk payload) (pos 0)
        false)

-- The list of models, each with its owner, and when it was made.
pub record ModelCache : Type 0 where
  pub entries : Map Bytes
  pub made_at : ℕ

-- What `models` gives; `all_failed` is the error of the last upstream.
pub data Listing : Type 0 where
  listed : Map Bytes → Listing
  all_failed : Listing

-- The inner loop of `models`: the first upstream that names a model owns its entry.
unfoldable pub merge_items : (owner : Bytes) → List Fields → Map Bytes → Map Bytes
unfolding string_of is_empty insert lookup get
merge_items owner [] m = m
merge_items owner (item ∷ items) m =
    let id : Bytes = string_of (get (codes "id") item) in
    let skipped : Map Bytes = merge_items owner items m in
    let added : Map Bytes = merge_items owner items (insert id owner m) in
    if is_empty id then skipped else elim (lookup id m) [ some o ↦ skipped | none ↦ added ]

-- The outer loop, with whether an upstream has failed.
unfoldable pub merge_keys :
    (fetch : UpstreamKey → Option (List Fields))
    → List UpstreamKey
    → Bool × Map Bytes
    → Bool × Map Bytes
unfolding merge_items
merge_keys fetch [] acc = acc
merge_keys fetch (k ∷ ks) (failed, m) =
    let skipped : Bool × Map Bytes = merge_keys fetch ks (failed, m) in
    if not k.enabled then skipped else elim (fetch k) [
      | none ↦ merge_keys fetch ks (true, m)
      | some items ↦ merge_keys fetch ks (failed, merge_items k.user_id items m)
    ]

-- `if len(merged) == 0`: the kept list is given again, if there is one.
unfoldable pub kept_listing : (failed : Bool) → Map Bytes → Listing
kept_listing failed (e ∷ es) = listed (e ∷ es)
kept_listing true [] = all_failed
kept_listing false [] = listed []

-- The end of `models`.
unfoldable pub listing_of : Bool × Map Bytes → ModelCache → (now : ℕ) → Listing × ModelCache
unfolding kept_listing
listing_of (failed, m ∷ ms) cache now =
    (listed (m ∷ ms), record { entries = m ∷ ms; made_at = now })
listing_of (failed, []) cache now = (kept_listing failed cache.entries, cache)

unfoldable pub is_fresh : ModelCache → (now : ℕ) → Bool
is_fresh cache now = elim cache.entries [ [] ↦ false | e ∷ es ↦ ltb (now - cache.made_at) minute ]

-- `models`, under its mutex; the clock is read at its start and at its end.
unfoldable pub model_list :
    (fetch : UpstreamKey → Option (List Fields))
    → List UpstreamKey
    → (now now' : ℕ) → ModelCache
    → Listing × ModelCache
unfolding is_fresh merge_keys listing_of
model_list fetch keys now now' cache =
    if is_fresh cache now
    then (listed cache.entries, cache)
    else listing_of (merge_keys fetch keys (false, [])) cache now'

-- A list that names each model once, and none without a name.
pub record IsListing (m : Map Bytes) : Type 0 where
  pub once : IsMap m
  pub named : lookup [] m ≡ none

merge_items-IsListing :
    (owner : Bytes) (items : List Fields) (m : Map Bytes)
    → IsListing m
    → IsListing (merge_items owner items m)
unfolding merge_items str_eq
merge_items-IsListing owner [] m h = h
merge_items-IsListing owner (item ∷ items) m h =
    let id : Bytes = string_of (get (codes "id") item) in
    elim (Bool-cases (is_empty id)) [
      | inl e ↦ rw (merge_items, e) (merge_items-IsListing owner items m h)
      | inr e ↦ elim (Option-cases (lookup id m)) [
        | inr (o, q) ↦ rw (merge_items, e, q) (merge_items-IsListing owner items m h)
        | inl q ↦
            rw (merge_items, e, q)
              (merge_items-IsListing owner items (insert id owner m) (record {
                once = insert-IsMap id owner m h.once;
                named = lookup-insert [] id owner m ∙ rw (not_nameless id e) h.named;
              }))
      ]
    ]
  where
    not_nameless : (id : Bytes) → is_empty id ≡ false → str_eq id [] ≡ false
    not_nameless [] e = e
    not_nameless (c ∷ id) e = refl

merge_keys-IsListing :
    (fetch : UpstreamKey → Option (List Fields)) (ks : List UpstreamKey) (failed : Bool)
    (m : Map Bytes)
    → IsListing m
    → IsListing (merge_keys fetch ks (failed, m)).1
unfolding merge_keys
merge_keys-IsListing fetch [] failed m h = h
merge_keys-IsListing fetch (k ∷ ks) failed m h = elim (Bool-cases k.enabled) [
  | inr e ↦ rw (merge_keys, e) (merge_keys-IsListing fetch ks failed m h)
  | inl e ↦ elim (Option-cases (fetch k)) [
    | inl q ↦ rw (merge_keys, q, e) (merge_keys-IsListing fetch ks true m h)
    | inr (items, q) ↦
        rw (merge_keys, q, e)
          (merge_keys-IsListing fetch ks failed _ (merge_items-IsListing k.user_id items m h))
  ]
]

-- The list of models that is served, and the one that is kept for the next minute, name each model
-- once and none without a name, whatever the upstreams answer, if the kept list did so before.
pub model_list-IsListing :
    (fetch : UpstreamKey → Option (List Fields)) (keys : List UpstreamKey) (now now' : ℕ)
    (cache : ModelCache)
    → IsListing cache.entries
    → IsListing (model_list fetch keys now now' cache).1.entries
      × ((m : Map Bytes) → (model_list fetch keys now now' cache).0 ≡ listed m → IsListing m)
unfolding model_list listing_of kept_listing
model_list-IsListing fetch keys now now' cache h = elim (Bool-cases (is_fresh cache now)) [
  | inl e ↦ rw (model_list, e) (h, λ m q. subst IsListing (listed_inj q) h)
  | inr e ↦
      rw (model_list, e)
        (go (merge_keys fetch keys (false, []))
          (merge_keys-IsListing fetch keys false [] (record { once = tt; named = refl })))
]
  where
    listed_inj : {a b : Map Bytes} → listed a ≡ listed b → a ≡ b
    listed_inj q = cc

    kept :
        (failed : Bool) (es m : Map Bytes)
        → IsListing es
        → kept_listing failed es ≡ listed m
        → IsListing m
    kept failed (e ∷ es) m k q = subst IsListing (listed_inj q) k
    kept true [] m k q = absurd (ground arith)
    kept false [] m k q = subst IsListing (listed_inj q) k

    go :
        (acc : Bool × Map Bytes)
        → IsListing acc.1
        → IsListing (listing_of acc cache now').1.entries
          × ((m : Map Bytes) → (listing_of acc cache now').0 ≡ listed m → IsListing m)
    go (failed, x ∷ ms) k = (k, λ m q. subst IsListing (listed_inj q) k)
    go (failed, []) k = (h, λ m q. kept failed cache.entries m h q)
