-- ===== src/Store/Secrets.antt =====
-- The secrets of upstream keys in internal/store/state.go: what was encrypted is decrypted again.
use code_agent_router.Prelude.{
  ◌≡◌, refl, ap, subst, inl, inr, Bool, false, some, List, ◌++◌, ltb, length, take, drop,
  take-append, drop-append, length-append, Option-cases, arith,
}
use code_agent_router.Prelude.Int.{ℤ}
use code_agent_router.Text.{Bytes}
use code_agent_router.Map.{lookup}
use code_agent_router.Clock.{Time}
use code_agent_router.Model.{UpstreamKey}
use code_agent_router.Result.{Result, ok, err}
use code_agent_router.Store.State.{Store}
use code_agent_router.Store.Keys.{
  Gcm, nonce_size, encrypt, decrypt, opened, decrypt_api_key, create_upstream_key,
}

module _ (gcm : Gcm) where
  decrypt-encrypt :
      (nonce plain : Bytes)
      → length nonce ≡ nonce_size
      → decrypt gcm (nonce ++ gcm.seal nonce plain) ≡ ok plain
  unfolding decrypt opened
  decrypt-encrypt nonce plain h =
      let c : Bytes = gcm.seal nonce plain in
      let t : take nonce_size (nonce ++ c) ≡ nonce =
        subst (λ n. take n (nonce ++ c) ≡ nonce) h (take-append nonce c) in
      let d : drop nonce_size (nonce ++ c) ≡ c =
        subst (λ n. drop n (nonce ++ c) ≡ c) h (drop-append nonce c) in
      let l : ltb (length (nonce ++ c)) nonce_size ≡ false =
        ground (arith, length-append nonce c, h) in
      rw (decrypt, l, t, d, gcm.open-seal nonce plain) refl

  -- The key of a result carries a text.
  abbrev Carries : Bytes → Result UpstreamKey → Type 0
  Carries plain (ok k) = decrypt_api_key gcm k ≡ ok plain
  Carries plain (err x) = Unit

  create-Carries :
      (id name base_url api_key : Bytes) (models : List Bytes) (enabled : Bool) (hourly_limit : ℤ)
      (nonce entropy : Bytes) (now : Time) (s : Store)
      → length nonce ≡ nonce_size
      → Carries api_key
          (create_upstream_key gcm id name base_url api_key models enabled hourly_limit
            (some nonce)
            entropy
            now
            s).0
  unfolding create_upstream_key encrypt decrypt_api_key
  create-Carries id name base_url api_key models enabled hourly_limit nonce entropy now s h =
      elim (Option-cases (lookup id s.users)) [
        | inl e ↦ rw (create_upstream_key, e) tt
        | inr (u, e) ↦ rw (create_upstream_key, e) (decrypt-encrypt nonce api_key h)
      ]

  -- A key that `CreateUpstreamKey` has made carries the API key that it was given, as
  -- `DecryptAPIKey` reads it, whatever the models, the limits and the store; the nonce must have the
  -- 12 bytes that the random source is asked for.
  pub create-decrypt_api_key :
      (id name base_url api_key : Bytes) (models : List Bytes) (enabled : Bool) (hourly_limit : ℤ)
      (nonce entropy : Bytes) (now : Time) (s : Store) {k : UpstreamKey} {s' : Store}
      → length nonce ≡ nonce_size
      → create_upstream_key gcm id name base_url api_key models enabled hourly_limit
          (some nonce)
          entropy
          now
          s
        ≡ (ok k, s')
      → decrypt_api_key gcm k ≡ ok api_key
  create-decrypt_api_key id name base_url api_key models enabled hourly_limit nonce entropy now s h
        e =
      subst (Carries api_key) (ap (λ x. x.0) e)
        (create-Carries id name base_url api_key models enabled hourly_limit nonce entropy now s h)
