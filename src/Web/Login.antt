-- ===== src/Web/Login.antt =====
-- src/web/REST_endpoints/login.c: the endpoint that checks a request's credentials and logs a user
-- in.
pub mod Cookie
use cedar_switch_3i3o_power.Common.{
  Bool, true, false, not, Option, none, some, List, [], ◌∷◌, ◌++◌, if◌then◌else◌, take, pos, is_neg,
}
use cedar_switch_3i3o_power.Common.CString.{Bytes, codes}
use cedar_switch_3i3o_power.Auth.State.{Auth, Crypto, session_token_size}
use cedar_switch_3i3o_power.Auth.Login.{Header, Moment, Answer, authentication}
use cedar_switch_3i3o_power.Web.Http.{
  http_get, http_post, http_delete, http_put, Request, Response, Handled, respond,
}

abbrev pub valid_message : Bytes
valid_message = codes "Session token or username password valid"

abbrev pub invalid_message : Bytes
invalid_message = codes "Session token or username password invalid"

-- The text of the header, in a buffer of 256 bytes.
unfoldable pub cookie_header : Bytes → Bytes
cookie_header token =
    take 255 (codes "session_token=" ++ (token ++ codes "; Path=/; HttpOnly; Max-Age=86400"))

-- The array `session_token` after the call: what the call has written, or what was on the stack.
abbrev pub token_or : Bytes → Option Bytes → Bytes
token_or stack none = stack
token_or stack (some token) = token

-- `authentication` changes the table of sessions, and `c` and `m` are what it takes from outside.
module _ (c : Crypto) (m : Moment) where
  unfoldable pub get_login : Request → Response → Auth → Handled Auth
  get_login req r a =
      let answer = authentication c m req.headers 0 a in
      let a' : Auth = record a { sessions = answer.sessions } in
      if not (is_neg answer.rc)
      then record { rc = pos 0; response = respond 200 valid_message r; state = a' }
      else record { rc = pos 0; response = respond 401 invalid_message r; state = a' }

  -- `stack` is the text that the uninitialised array holds.
  unfoldable pub post_login : Bytes → Request → Response → Auth → Handled Auth
  post_login stack req r a =
      let answer = authentication c m req.headers session_token_size a in
      let a' : Auth = record a { sessions = answer.sessions } in
      let cookie : Header = record {
        name = codes "Set-Cookie";
        value = cookie_header (token_or stack answer.issued);
      } in
      if not (is_neg answer.rc)
      then record {
        rc = pos 0;
        response = respond 200 valid_message (record r { headers = cookie ∷ [] });
        state = a';
      }
      else record { rc = pos 0; response = respond 401 invalid_message r; state = a' }

  unfoldable pub login_handler : Bytes → Request → Response → Auth → Handled Auth
  unfolding get_login post_login
  login_handler stack req r a = elim req.method [
    | http_get ↦ get_login req r a
    | http_post ↦ post_login stack req r a
    | http_delete ↦ record { rc = pos 0; response = r; state = a }
    | http_put ↦ record { rc = pos 0; response = r; state = a }
  ]
