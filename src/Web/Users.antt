-- ===== src/Web/Users.antt =====
-- src/web/REST_endpoints/web_user_mgmt.c: the endpoint /api/auth/users.
pub mod Answers
pub mod Added
use cedar_switch_3i3o_power.Common.{
  ℕ, ◌+◌, ◌-◌, Bool, true, false, Option, none, some, List, [], ◌∷◌, ◌++◌, ltb, leb, ◌==◌,
  if◌then◌else◌, length, take, drop, replicate, ℤ, pos, negsuc, is_zero, e_no_mem,
}
use cedar_switch_3i3o_power.Common.CString.{Bytes, codes, is_empty, strchr, strstr}
use cedar_switch_3i3o_power.Auth.State.{
  WebUser, UsersList, Auth, Crypto, max_users, max_username_len, max_pass_hash_len,
}
use cedar_switch_3i3o_power.Auth.Users.{
  UserSettings, free_user, get_web_users, add_web_user, delete_web_user,
}
use cedar_switch_3i3o_power.Web.Http.{
  Method, http_get, http_post, http_delete, http_put, DataStatus, Request, Response, Handled,
  respond, is_final,
}
use cedar_switch_3i3o_power.Web.Buffer.{
  PostBuffer, Received, aborted, too_large, stored, receive, reset, body,
}
use cedar_switch_3i3o_power.Web.Relays.{invalid_json}

-- JSON_BUF_SIZE
abbrev pub json_buf_size : ℕ
json_buf_size = 256

-- web_user_credentials_t
pub record Credentials : Type 0 where
  pub username : Bytes
  pub password : Bytes

-- snprintf to `buff + offset` with the room that is left: the text in the buffer, and the offset,
-- which grows by the whole length.
abbrev pub print_at : Bytes × ℕ → Bytes → Bytes × ℕ
print_at (text, offset) more =
    (take (json_buf_size - 1) (take offset text ++ more), offset + length more)

-- The loop over the users: a comma stands before a name where `offset > 10`.
unfoldable pub print_users : List WebUser → Bytes × ℕ → Bytes × ℕ
print_users [] out = out
print_users (u ∷ us) out =
    let comma = if ltb 10 out.1 then codes "," else [] in
    let out' = print_at out (comma ++ (codes "{\"name\": \"" ++ (u.user ++ codes "\"}"))) in
    let rest = print_users us (if is_empty u.user then out else out') in
    if is_empty u.user then rest else if leb (json_buf_size - 1) out'.1 then out' else rest

unfoldable pub users_text : List WebUser → Bytes
unfolding print_users
users_text us =
    let opened = print_at ([], 0) (codes "{ \"users\": [") in
    (print_at (print_users us opened) (codes "] }")).0

abbrev pub server_error : Bytes
server_error = codes "Internal server error"

-- The list on the stack, `{0}`.
abbrev pub zero_list : UsersList
zero_list = record { changed = false; user = replicate max_users free_user }

-- The username after "username=", up to the next `&`, cut to the local buffer.
unfoldable pub username_of : Bytes → Bytes
unfolding strchr
username_of value = elim (strchr value b'&') [
  | none ↦ take (max_username_len - 1) value
  | some (before, after) ↦ take (max_username_len - 1) before
]

-- The two `switch` statements on the result of the call.
unfoldable pub add_answer : ℤ → Response → Response
add_answer (pos n) r =
    if n == 0
    then respond 200 (codes "{\"success\":\"user added\"}") r
    else respond 500 (codes "{\"error\":\"unknown error\"}") r
add_answer (negsuc n) r =
    if n == 16
    then respond 400 (codes "{\"error\":\"user already exists\"}") r
    else if n == 27
    then respond 500 (codes "{\"error\":\"no space left, max number of users.\"}") r
    else respond 500 (codes "{\"error\":\"unknown error\"}") r

unfoldable pub delete_answer : ℤ → Response → Response
delete_answer (pos n) r =
    if n == 0
    then respond 200 (codes "{\"success\":\"user deleted\"}") r
    else respond 500 (codes "{\"error\":\"internal error\"}") r
delete_answer (negsuc n) r =
    if n == 1
    then respond 404 (codes "{\"error\":\"user not found\"}") r
    else if n == 0
    then respond 403 (codes "{\"error\":\"can't delete last user\"}") r
    else respond 500 (codes "{\"error\":\"internal error\"}") r

module _ (st : UserSettings) where
  -- The handler's static variables, and those of authentication.c with the settings.
  pub record UsersRest : Type 0 where
    pub post : PostBuffer
    pub auth : Auth
    pub store : st.Store

  unfoldable pub get_users : Response → UsersRest → Handled UsersRest
  unfolding users_text
  get_users r s =
      let got = get_web_users st (some zero_list) s.store in
      elim got.1 [
        | none ↦ record { rc = pos 0; response = respond 500 server_error r; state = s }
        | some l ↦
            if is_zero got.0
            then record { rc = pos 0; response = respond 200 (users_text l.user) r; state = s }
            else record { rc = pos 0; response = respond 500 server_error r; state = s }
      ]

  unfoldable pub delete_user : Request → Response → UsersRest → Handled UsersRest
  unfolding username_of delete_answer strchr strstr
  delete_user req r s = elim (strchr req.url b'?') [
    | none ↦ record {
      rc = pos 0;
      response = respond 400 (codes "{\"error\":\"missing parameters\"}") r;
      state = s;
    }
    | some (path, param) ↦ elim (strstr param (codes "username=")) [
      | none ↦ record {
        rc = pos 0;
        response = respond 400 (codes "{\"error\":\"username parameter required\"}") r;
        state = s;
      }
      | some value ↦
          let res = delete_web_user st (some (username_of (drop 9 value))) s.auth s.store in
          record {
            rc = pos 0;
            response = delete_answer res.0 r;
            state = record s { auth = res.1; store = res.2 };
          }
    ]
  ]

  -- `parse` is `json_obj_parse` with the descriptor of the two strings.
  module _ (c : Crypto) (parse : Bytes → ℤ × Credentials) where
    -- `ret == expected`, with BIT_MASK(2)
    abbrev pub has_both : ℤ → Bool
    has_both (pos n) = n == 3
    has_both (negsuc n) = false

    unfoldable pub finish_user : Response → UsersRest → Handled UsersRest
    unfolding add_answer
    finish_user r s =
        let parsed = parse (body s.post) in
        let s' : UsersRest = record s { post = reset s.post } in
        let result =
          add_web_user st c (some parsed.1.username) (some parsed.1.password) s.auth s.store in
        if has_both parsed.0
        then record {
          rc = pos 0;
          response = add_answer result.0 r;
          state = record s' { auth = result.1; store = result.2 };
        }
        else record { rc = pos 0; response = respond 400 invalid_json r; state = s' }

    unfoldable pub post_user : Request → Response → UsersRest → Handled UsersRest
    unfolding finish_user
    post_user req r s = elim (receive req.status req.chunk s.post) [
      | aborted post ↦ record { rc = pos 0; response = r; state = record s { post = post } }
      | too_large post ↦ record {
        rc = e_no_mem;
        response = respond 413 (codes "{\"error\":\"payload too large\"}") r;
        state = record s { post = post };
      }
      | stored post ↦
          let s' : UsersRest = record s { post = post } in
          if is_final req.status
          then finish_user r s'
          else record { rc = pos 0; response = r; state = s' }
    ]

    unfoldable pub web_user_mgmt_handler : Request → Response → UsersRest → Handled UsersRest
    unfolding get_users delete_user post_user
    web_user_mgmt_handler req r s = elim req.method [
      | http_get ↦ get_users r s
      | http_post ↦ post_user req r s
      | http_delete ↦ delete_user req r s
      | http_put ↦ record { rc = negsuc 0; response = r; state = s }
    ]
