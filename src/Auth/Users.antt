-- ===== src/Auth/Users.antt =====
-- src/web/authentication.c: the list of users, in memory and in the settings.
pub mod Access
pub mod Scan
pub mod Changes
use cedar_switch_3i3o_power.Common.{
  ℕ, zero, suc, ◌+◌, Bool, true, false, ◌&&◌, Option, none, some, List, [], ◌∷◌, map, ltb, ◌==◌,
  if◌then◌else◌, take, replicate, length, ℤ, pos, is_neg, is_zero, is_pos, e_inval, e_io, e_exist,
  e_no_spc, e_perm, e_no_ent,
}
use cedar_switch_3i3o_power.Common.CString.{Bytes, bytes_eq, is_empty}
use cedar_switch_3i3o_power.Settings.{Settings}
use cedar_switch_3i3o_power.Auth.State.{
  WebUser, UsersList, Session, Auth, Crypto, max_users, max_username_len, max_pass_hash_len,
  max_sessions, default_username, default_password,
}

-- The settings hold one value of this type, under `web_users_settings`.
abbrev pub UserSettings : Type 1
UserSettings = Settings (Unit {0}) (λ k. UsersList)

-- The return code, and the buffer, which the caller passes with its contents.
unfoldable pub calc_password_hash : Crypto → Bytes → Bytes → ℤ × Bytes
calc_password_hash c password hash_hex =
    if ltb (length hash_hex) 32
    then (e_inval, hash_hex)
    else c.sha256 password (replicate (length hash_hex) 0)

-- The hash that the callers compute, in a buffer of 32 bytes.
abbrev pub hash_of : Crypto → Bytes → ℤ × Bytes
hash_of c password = calc_password_hash c password (replicate 32 0)

-- The loop of `check_user_credentials`; the hash's return code is not read.
unfoldable pub check_user_credentials : Crypto → Bytes → Bytes → List WebUser → Bool
check_user_credentials c username password [] = false
check_user_credentials c username password (u ∷ us) =
    if bytes_eq u.user username && bytes_eq u.pass_hash (hash_of c password).1
    then true
    else check_user_credentials c username password us

-- users_list->user[0].user
abbrev pub first_name : List WebUser → Bytes
first_name [] = []
first_name (u ∷ us) = u.user

abbrev pub free_user : WebUser
free_user = record { user = []; pass_hash = replicate max_pass_hash_len 0 }

-- The loop of `add_web_user` ends on one of four ways.
pub data AddScan : Type 0 where
  already : AddScan
  hash_failed : AddScan
  added : List WebUser → AddScan
  no_slot : AddScan

abbrev pub after_user : WebUser → AddScan → AddScan
after_user u (added us) = added (u ∷ us)
after_user u r = r

unfoldable pub add_scan : Crypto → Bytes → Bytes → List WebUser → AddScan
add_scan c username password [] = no_slot
add_scan c username password (u ∷ us) =
    let hash = hash_of c password in
    let rest = add_scan c username password us in
    if bytes_eq u.user username
    then already
    else if is_empty u.user
    then (if is_neg hash.0
        then hash_failed
        else added (record { user = take 31 username; pass_hash = hash.1 } ∷ us))
    else after_user u rest

-- The loop of `delete_web_user`.
pub data DeleteScan : Type 0 where
  last_user : DeleteScan
  deleted : List WebUser → DeleteScan
  not_found : DeleteScan

abbrev pub after_kept : WebUser → DeleteScan → DeleteScan
after_kept u (deleted us) = deleted (u ∷ us)
after_kept u r = r

unfoldable pub num_users : List WebUser → ℕ
num_users [] = 0
num_users (u ∷ us) = (if is_empty u.user then 0 else 1) + num_users us

unfoldable pub delete_scan : Bytes → ℕ → List WebUser → DeleteScan
delete_scan username n [] = not_found
delete_scan username n (u ∷ us) =
    let rest = delete_scan username n us in
    if bytes_eq u.user username
    then (if n == 1 then last_user else deleted (free_user ∷ us))
    else after_kept u rest

abbrev pub clear_first : Bytes → Bytes
clear_first [] = []
clear_first (b ∷ bs) = 0 ∷ bs

-- A write to element 0.
abbrev pub put_first : WebUser → List WebUser → List WebUser
put_first v [] = []
put_first v (u ∷ us) = v ∷ us

-- memset of `sizeof(*users_list->user->pass_hash)` bytes, which is one byte
abbrev pub clear_hash : WebUser → WebUser
clear_hash u = record u { pass_hash = clear_first u.pass_hash }

-- The call's return code, the two static variables and the settings after it.
module _ (st : UserSettings) where
  -- The list that is written is always the static one, so the pointer is never NULL.
  unfoldable pub update_users : UsersList → st.Store → ℤ × st.Store
  update_users l s =
      let saved = st.save tt l s in
      if is_empty (first_name l.user)
      then (e_inval, s)
      else if is_zero saved.0
      then (pos 0, saved.1)
      else (e_io, saved.1)

  -- `none` is a NULL pointer.
  unfoldable pub get_web_users : Option UsersList → st.Store → ℤ × Option UsersList
  get_web_users none s = (e_inval, none)
  get_web_users (some l) s =
      let loaded = st.load tt l s in
      if is_pos loaded.0
      then (pos 0, some (record loaded.1 { user = map clear_hash loaded.1.user }))
      else (e_io, some loaded.1)

  abbrev pub finish_update : Auth → st.Store → ℤ × Auth × st.Store
  finish_update a s =
      let saved = update_users a.users s in
      if is_zero saved.0 then (pos 0, a, saved.1) else (e_io, a, saved.1)

  unfoldable pub add_web_user :
      Crypto → Option Bytes → Option Bytes → Auth → st.Store → ℤ × Auth × st.Store
  unfolding add_scan update_users
  add_web_user c none password a s = (e_inval, a, s)
  add_web_user c (some username) none a s = (e_inval, a, s)
  add_web_user c (some username) (some password) a s =
      elim (add_scan c username password a.users.user) [
        | already ↦ (e_exist, a, s)
        | hash_failed ↦ (e_io, a, s)
        | added us ↦ finish_update (record a { users = record a.users { user = us } }) s
        | no_slot ↦ (e_no_spc, a, s)
      ]

  unfoldable pub delete_web_user : Option Bytes → Auth → st.Store → ℤ × Auth × st.Store
  unfolding delete_scan update_users num_users
  delete_web_user none a s = (e_inval, record a { users = record a.users { changed = false } }, s)
  delete_web_user (some username) a s =
      let a' : Auth = record a { users = record a.users { changed = false } } in
      elim (delete_scan username (num_users a.users.user) a.users.user) [
        | last_user ↦ (e_perm, a', s)
        | deleted us ↦ finish_update (record a { users = record { changed = true; user = us } }) s
        | not_found ↦ (e_no_ent, a', s)
      ]

  -- strncpy and memcpy into slot 0
  unfoldable pub default_users : Crypto → UsersList → UsersList
  default_users c l = record {
    changed = false;
    user =
        put_first (record { user = default_username; pass_hash = (hash_of c default_password).1 })
          l.user;
  }

  -- `users` is the static list before the call, at boot zeroed memory.
  unfoldable pub authentication_init : Crypto → UsersList → st.Store → Auth × st.Store
  unfolding default_users
  authentication_init c users s =
      let loaded = st.load tt users s in
      let cleared : List Session = replicate max_sessions (record { expires = 0; token = [] }) in
      if is_pos loaded.0 then (record { users = loaded.1; sessions = cleared }, s) else (
        record { users = default_users c loaded.1; sessions = cleared },
        (st.save tt (default_users c loaded.1) s).1,
      )
