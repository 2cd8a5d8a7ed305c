-- ===== src/Wire/Auth.antt =====
-- internal/auth/auth.go: the proof of the shared token. `hmac token nonce` stands for HMAC-SHA256, and
-- a nonce is an argument of the code that draws it.
use sofmat.Base.{
  ℕ, List, Bool, false, not, ◌==◌, length, Result, ok, err, ◌>>◌, guard, ◌≡◌, ◌≢◌, true, arith,
}
use sofmat.Wire.Bytes.{bytes_eq, bytes_eq_refl, eq_of_bytes_eq}

pub data AuthError : Type 0 where
  empty_token bad_nonce : AuthError

abbrev pub nonce_len : ℕ
nonce_len = 32

module _ (hmac : List ℕ → List ℕ → List ℕ) where
  -- `Sign`.
  unfoldable pub sign : List ℕ → List ℕ → Result AuthError (List ℕ)
  sign token nonce = do
    guard (not (length token == 0)) empty_token
    guard (length nonce == nonce_len) bad_nonce
    ok (hmac token nonce)

  -- `Verify`: a token or a nonce that cannot sign proves nothing.
  unfoldable pub verify : List ℕ → List ℕ → List ℕ → Bool
  verify token nonce response = elim (sign token nonce) [
    | ok expected ↦ bytes_eq expected response
    | err _ ↦ false
  ]

  -- A response is accepted exactly when it is the signature under a token that is not empty.
  pub verify_sound :
      (token nonce response : List ℕ)
      → verify token nonce response ≡ true
      → sign token nonce ≡ ok response
  unfolding verify sign
  verify_sound token nonce response h = ground (arith, eq_of_bytes_eq (hmac token nonce) response)

  pub verify-sign :
      (token nonce response : List ℕ)
      → sign token nonce ≡ ok response
      → verify token nonce response ≡ true
  unfolding verify
  verify-sign token nonce response h = rw (h, verify) (bytes_eq_refl response)

  pub sign_lem :
      (token nonce : List ℕ)
      → length token ≢ 0
      → length nonce ≡ nonce_len
      → sign token nonce ≡ ok (hmac token nonce)
  unfolding sign
  sign_lem token nonce named sized = ground arith
