-- ===== src/Secrets/Types.antt =====
-- internal/core/domain/secret.go, and what pkg/crypto takes from the standard library and
-- golang.org/x/crypto.
use thecloud.Prelude.{ℕ, Bool, true, Option, some, List, Text, length, ◌≡◌}

-- The field `encrypted_value` holds the value itself in the answers of GetSecret.
pub record Secret : Type 0 where
  pub id : ℕ
  pub user_id : ℕ
  pub name : Text
  pub encrypted_value : Text
  pub description : Text
  pub last_accessed_at : Option ℕ

abbrev pub Tables : Type 0
Tables = List Secret

-- HKDF with SHA-256, AES (which refuses a key of a wrong length) in the mode GCM, base64, the random
-- source, and the bytes of a UUID.
pub record Primitives : Type 0 where
  pub hkdf : Text → Text → Option Text
  pub is_key : Text → Bool
  pub nonce_size : ℕ
  pub seal : Text → Text → Text → Text
  pub unseal : Text → Text → Text → Option Text
  pub encode : Text → Text
  pub decode : Text → Option Text
  pub random : ℕ → Text
  pub bytes : ℕ → Text
  pub master_key : Text

-- What the standard library documents: decoding and opening invert encoding and sealing, a nonce has
-- the size of a nonce, and a derived key is one for AES.
pub record IsSound (c : Primitives) : Type 0 where
  pub decode_encode : (t : Text) → c.decode (c.encode t) ≡ some t
  pub unseal_seal : (key nonce t : Text) → c.unseal key nonce (c.seal key nonce t) ≡ some t
  pub random_size : (n : ℕ) → length (c.random n) ≡ c.nonce_size
  pub hkdf_key : (salt key : Text) → c.hkdf c.master_key salt ≡ some key → c.is_key key ≡ true
