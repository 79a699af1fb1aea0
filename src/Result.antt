-- ===== src/Result.antt =====
-- Go's pair of a value and an error. The errors are the sentinel values of internal/store/state.go
-- and internal/router/router.go, and the failures that internal/store/state.go passes on.
pub data Error : Type 0 where
  daily_quota hourly_quota user_not_found username_taken : Error
  access_key_not_found upstream_key_missing : Error
  no_key hourly_exhausted : Error
  io_failure invalid_ciphertext decrypt_failure : Error

pub data Result {ℓ} (A : Type ℓ) : Type ℓ where
  ok : A → Result A
  err : Error → Result A
