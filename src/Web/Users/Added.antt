-- ===== src/Web/Users/Added.antt =====
-- A user that a POST to /api/auth/users (src/web/REST_endpoints/web_user_mgmt.c) adds, at the login
-- (src/web/REST_endpoints/login.c).
use cedar_switch_3i3o_power.Common.{
  ◌+◌, ◌-◌, ◌≤◌, ◌≡◌, refl, true, false, some, [], ◌∷◌, ◌++◌, length, take, ℤ, pos, negsuc, arith,
}
use cedar_switch_3i3o_power.Common.CString.{Bytes, codes, case_eq, case_eq_n}
use cedar_switch_3i3o_power.Auth.State.{Auth, Crypto, session_token_size}
use cedar_switch_3i3o_power.Auth.Users.{UserSettings, add_web_user, check_user_credentials}
use cedar_switch_3i3o_power.Auth.Users.Access.{add_web_user-Grants}
use cedar_switch_3i3o_power.Auth.Users.Scan.{check_user_credentials_iff}
use cedar_switch_3i3o_power.Auth.Login.{
  Header, Moment, basic_credentials, generate_token, try_basic, header_round, headers_loop,
  authentication,
}
use cedar_switch_3i3o_power.Web.Http.{http_post, data_final, Request, Response}
use cedar_switch_3i3o_power.Web.Buffer.{stored, receive, body}
use cedar_switch_3i3o_power.Web.Buffer.Collect.{receive_final}
use cedar_switch_3i3o_power.Web.Login.{login_handler}
use cedar_switch_3i3o_power.Web.Login.Cookie.{set_cookie, post_login_lem}
use cedar_switch_3i3o_power.Web.Users.{
  Credentials, UsersRest, add_answer, finish_user, post_user, web_user_mgmt_handler,
}

-- Only a return code of 0 is answered with 200.
add_answer_ok : (rc : ℤ) (r : Response) → (add_answer rc r).status ≡ 200 → rc ≡ pos 0
unfolding add_answer
add_answer_ok (pos n) r h = ground arith
add_answer_ok (negsuc n) r h = ground arith

-- An Authorization header with a user's name and password.
pub record IsBasic (c : Crypto) (username password : Bytes) (h : Header) : Type 0 where
  pub no_cookie : case_eq h.name (codes "Cookie") ≡ false
  pub authorization : case_eq h.name (codes "Authorization") ≡ true
  pub basic : case_eq_n h.value (codes "Basic ") 6 ≡ true
  pub decoded : basic_credentials c h.value ≡ some (username, password)

-- The token that a login of this user issues.
abbrev pub issued_token : Crypto → Moment → Bytes → Bytes
issued_token c m username =
    take (session_token_size - 1) (generate_token c m username session_token_size)

issued-IsBasic :
    (c : Crypto) (m : Moment) (username password : Bytes) (h : Header) (a : Auth)
    → IsBasic c username password h
    → check_user_credentials c username password a.users.user ≡ true
    → (authentication c m (h ∷ []) session_token_size a).issued ≡ some (issued_token c m username)
unfolding authentication
issued-IsBasic c m username password h a b known =
    rw (b.no_cookie, header_round, headers_loop)
      (rw (b.authorization) (rw (b.basic) (rw (b.decoded, try_basic) (rw (known) refl))))

module _ (st : UserSettings) (c : Crypto) (parse : Bytes → ℤ × Credentials) where
  -- A final chunk that completes a body with both strings. The headers are not looked at.
  pub record CompletesUser (req : Request) (s : UsersRest st) (user : Credentials) : Type 0 where
    pub is_post : req.method ≡ http_post
    pub is_last : req.status ≡ data_final
    pub fits : s.post.cursor + length req.chunk ≤ length s.post.buff
    pub parsed : parse (body s.post ++ req.chunk) ≡ (pos 3, user)

  post-CompletesUser :
      (req : Request) (r : Response) (s : UsersRest st) (user : Credentials)
      → CompletesUser req s user
      → let result = add_web_user st c (some user.username) (some user.password) s.auth s.store in
        ((web_user_mgmt_handler st c parse req r s).response ≡ add_answer result.0 r)
        × ((web_user_mgmt_handler st c parse req r s).state.auth ≡ result.1)
  unfolding web_user_mgmt_handler
  post-CompletesUser req r s user p =
      let (b', e, read, _, _) = receive_final req.chunk s.post p.fits in
      let received : receive req.status req.chunk s.post ≡ stored b' = rw (p.is_last) e in
      let answer : parse (body b') ≡ (pos 3, user) = rw (read) p.parsed in
      rw (p.is_post, web_user_mgmt_handler)
        (rw (received, post_user) (rw (p.is_last) (rw (answer, finish_user) (refl, refl))))

  -- A user whom a POST to /api/auth/users adds with the answer 200, whatever headers it has, can log
  -- in: a POST to the login endpoint with the user's name and password answers 200 and sets a cookie
  -- with a new token; for a name of at most 31 bytes.
  pub post_user_then_login :
      (req login : Request) (r r' : Response) (s : UsersRest st) (user : Credentials) (h : Header)
      (m : Moment) (stack : Bytes)
      → CompletesUser req s user
      → length user.username ≤ 31
      → (web_user_mgmt_handler st c parse req r s).response.status ≡ 200
      → login.method ≡ http_post
      → login.headers ≡ h ∷ []
      → IsBasic c user.username user.password h
      → let answer =
          login_handler c m stack login r' (web_user_mgmt_handler st c parse req r s).state.auth in
        (answer.response.status ≡ 200)
        × (answer.response.headers ≡ set_cookie (issued_token c m user.username) ∷ [])
  post_user_then_login req login r r' s user h m stack p short ok post headers basic =
      let result = add_web_user st c (some user.username) (some user.password) s.auth s.store in
      let (response, auth) = post-CompletesUser req r s user p in
      let added : result.0 ≡ pos 0 = add_answer_ok result.0 r (rw (response) at ok) in
      let grants =
        add_web_user-Grants st c s.auth s.store user.username user.password short added in
      let known =
        (check_user_credentials_iff c user.username user.password result.1.users.user).1
          grants.new in
      let issued = issued-IsBasic c m user.username user.password h result.1 basic known in
      let (status, cookie, _) =
        post_login_lem c m stack login r' result.1 (issued_token c m user.username) post
          (rw (headers) issued) in
      rw (auth) (status, cookie)
