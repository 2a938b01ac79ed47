-- ===== src/Auth/State.antt =====
-- The data of src/web/authentication.c and src/settings_topics.h, and what the file takes from
-- outside: mbedtls, the base64 decoder.
use cedar_switch_3i3o_power.Common.{ℕ, ◌^◌, Bool, List, Option, ℤ}
use cedar_switch_3i3o_power.Common.CString.{Bytes, codes}

abbrev pub max_users : ℕ
max_users = 2

abbrev pub max_username_len : ℕ
max_username_len = 32

abbrev pub max_pass_hash_len : ℕ
max_pass_hash_len = 32

abbrev pub max_sessions : ℕ
max_sessions = 10

abbrev pub session_lifetime_sec : ℕ
session_lifetime_sec = 3600

abbrev pub session_token_size : ℕ
session_token_size = 128

abbrev pub default_username : Bytes
default_username = codes "admin"

abbrev pub default_password : Bytes
default_password = codes "pass"

abbrev pub uint32_mod : ℕ
uint32_mod = 2 ^ 32

-- web_user_t: `user` is a C string in 32 bytes, `pass_hash` a block of 32 bytes.
pub record WebUser : Type 0 where
  pub user : Bytes
  pub pass_hash : Bytes

-- web_users_list_t; the array has `max_users` elements.
pub record UsersList : Type 0 where
  pub changed : Bool
  pub user : List WebUser

-- web_session_t; a slot with an empty token is free.
pub record Session : Type 0 where
  pub expires : ℕ
  pub token : Bytes

-- The file's two static variables.
pub record Auth : Type 0 where
  pub users : UsersList
  pub sessions : List Session

-- `sha256 input buffer` is the return code of `mbedtls_sha256` and what it leaves in the buffer.
-- `base64_decode input size` is what the decoder writes into a buffer of that size, or nothing.
pub record Crypto : Type 0 where
  pub sha256 : Bytes → Bytes → ℤ × Bytes
  pub base64_decode : Bytes → ℕ → Option Bytes
