-- ===== src/Web/Login/Cookie.antt =====
-- The cookie that a POST to the login endpoint (src/web/REST_endpoints/login.c) sets.
use cedar_switch_3i3o_power.Common.{
  ℕ, ◌+◌, ◌%◌, ◌<◌, ◌≡◌, refl, ◌∙◌, ◌≢◌, Option, none, some, List, [], ◌∷◌, arith, length, pos, inl,
  inr, sym, Bool-cases, Option-cases,
}
use cedar_switch_3i3o_power.Common.CString.{Bytes, codes}
use cedar_switch_3i3o_power.Auth.State.{
  Session, Auth, Crypto, session_lifetime_sec, session_token_size, uint32_mod,
}
use cedar_switch_3i3o_power.Auth.Session.{check_token_valid}
use cedar_switch_3i3o_power.Auth.Session.Lookup.{IsFresh, IsDistinct, IsLive, check_token_valid_iff}
use cedar_switch_3i3o_power.Auth.Login.{
  Header, Moment, Answer, finish, cookie_token, bearer_token, basic_credentials, try_token,
  try_basic, header_round, headers_loop, authentication,
}
use cedar_switch_3i3o_power.Auth.Login.Soundness.{Round-cases, header_round-Kind}
use cedar_switch_3i3o_power.Auth.Login.RoundTrip.{check_cookie, login_then_check}
use cedar_switch_3i3o_power.Auth.Login.Issued.{NoSemicolon, cookie}
use cedar_switch_3i3o_power.Web.Http.{http_get, http_post, Request, Response}
use cedar_switch_3i3o_power.Web.Login.{cookie_header, login_handler}

try_token_issued :
    (now : ℕ) (token : Option Bytes) (ss : List Session) (answer : Answer) (t : Bytes)
    → try_token now token ss ≡ finish answer
    → answer.issued ≡ some t
    → answer.rc ≡ pos 0
unfolding try_token
try_token_issued now none ss answer t e i = cc
try_token_issued now (some token) ss answer t e i =
    elim (Bool-cases (check_token_valid now token ss).0) [
      | inl b ↦ ground arith
      | inr b ↦ ground arith
    ]

try_basic_issued :
    (c : Crypto) (m : Moment) (size : ℕ) (value : Bytes) (a : Auth) (ss : List Session)
    (answer : Answer) (t : Bytes)
    → try_basic c m size value a ss ≡ finish answer
    → answer.issued ≡ some t
    → answer.rc ≡ pos 0
unfolding try_basic
try_basic_issued c m size value a ss answer t e i =
    elim (Option-cases (basic_credentials c value)) [
      | inl n ↦ ground arith
      | inr ((username, password), k) ↦ ground arith
    ]

abbrev pub set_cookie : Bytes → Header
set_cookie token = record { name = codes "Set-Cookie"; value = cookie_header token }

module _ (c : Crypto) (m : Moment) (size : ℕ) (a : Auth) where
  header_round_issued :
      (h : Header) (ss : List Session) (answer : Answer) (t : Bytes)
      → header_round c m size h a ss ≡ finish answer
      → answer.issued ≡ some t
      → answer.rc ≡ pos 0
  header_round_issued h ss answer t e i = elim (header_round-Kind c m size a h ss) [
    | inl (_, k) ↦ try_token_issued m.now (cookie_token h.value) ss answer t (sym k ∙ e) i
    | inr (inl (_, _, k)) ↦
        try_token_issued m.now (some (bearer_token h.value)) ss answer t (sym k ∙ e) i
    | inr (inr (inl (_, _, _, k))) ↦ try_basic_issued c m size h.value a ss answer t (sym k ∙ e) i
    | inr (inr (inr k)) ↦ ground arith
  ]

  headers_loop_issued :
      (hs : List Header) (ss : List Session) (t : Bytes)
      → (headers_loop c m size hs a ss).issued ≡ some t
      → (headers_loop c m size hs a ss).rc ≡ pos 0
  unfolding headers_loop
  headers_loop_issued [] ss t i = cc
  headers_loop_issued (h ∷ hs) ss t i = elim (Round-cases (header_round c m size h a ss)) [
    | inl (answer, e) ↦
        rw (e, headers_loop) (header_round_issued h ss answer t e (rw (e, headers_loop) at i))
    | inr (ss', e) ↦ rw (e, headers_loop) (headers_loop_issued hs ss' t (rw (e, headers_loop) at i))
  ]

  authentication_issued :
      (hs : List Header) (t : Bytes)
      → (authentication c m hs size a).issued ≡ some t
      → (authentication c m hs size a).rc ≡ pos 0
  unfolding authentication
  authentication_issued hs t i = headers_loop_issued hs a.sessions t i

pub post_login_lem :
    (c : Crypto) (m : Moment) (stack : Bytes) (req : Request) (r : Response) (a : Auth) (t : Bytes)
    → req.method ≡ http_post
    → (authentication c m req.headers session_token_size a).issued ≡ some t
    → ((login_handler c m stack req r a).response.status ≡ 200)
      × ((login_handler c m stack req r a).response.headers ≡ set_cookie t ∷ [])
      × ((login_handler c m stack req r a).state
          ≡ record a { sessions = (authentication c m req.headers session_token_size a).sessions })
unfolding login_handler
post_login_lem c m stack req r a t p i =
    let ok = authentication_issued c m session_token_size a req.headers t i in
    rw (p, login_handler) (rw (ok) (rw (i) (refl, refl, refl)))

get_login_lem :
    (c : Crypto) (m : Moment) (stack : Bytes) (req : Request) (r : Response) (a : Auth)
    → req.method ≡ http_get
    → (authentication c m req.headers 0 a).rc ≡ pos 0
    → (login_handler c m stack req r a).response.status ≡ 200
unfolding login_handler
get_login_lem c m stack req r a g ok = rw (g, login_handler) (rw (ok) refl)

module _ (c : Crypto) (m m' : Moment) (stack : Bytes) (req get : Request) (r r' : Response) where
  -- A POST that issues a token answers 200 and sets a cookie with that token, and a GET with that
  -- cookie as its only header answers 200 until the session expires, where the tokens in use are
  -- distinct and the new one is not among them.
  pub login_cookie_accepted :
      (a : Auth) (t : Bytes)
      → IsDistinct a.sessions
      → 0 < length a.sessions
      → IsFresh t a.sessions
      → t ≢ []
      → req.method ≡ http_post
      → (authentication c m req.headers session_token_size a).issued ≡ some t
      → get.method ≡ http_get
      → get.headers ≡ cookie t ∷ []
      → m'.now < (m.now + session_lifetime_sec) % uint32_mod
      → ((login_handler c m stack req r a).response.status ≡ 200)
        × ((login_handler c m stack req r a).response.headers ≡ set_cookie t ∷ [])
        × ((login_handler c m' stack get r' (login_handler c m stack req r a).state).response.status
            ≡ 200)
  login_cookie_accepted a t d room f used p i g h later =
      let (status, headers, state) = post_login_lem c m stack req r a t p i in
      let accepted = login_then_check c m m' a req.headers t d room f used i later in
      (status, headers, get_login_lem c m' stack get r' _ g (rw (state, h) accepted))

-- A POST whose only header is the cookie of a live session answers 200, but no token is issued: the
-- cookie that it sets holds what the uninitialised array on the stack held.
pub login_stack_cookie :
    (c : Crypto) (m : Moment) (stack : Bytes) (req : Request) (r : Response) (a : Auth) (u : Bytes)
    → req.method ≡ http_post
    → req.headers ≡ cookie u ∷ []
    → NoSemicolon u
    → length u < 128
    → IsDistinct a.sessions
    → IsLive m.now u a.sessions
    → ((login_handler c m stack req r a).response.status ≡ 200)
      × ((login_handler c m stack req r a).response.headers ≡ set_cookie stack ∷ [])
unfolding login_handler
login_stack_cookie c m stack req r a u p h plain short d live =
    let valid = (check_token_valid_iff m.now u a.sessions d).1 live in
    let (ok, silent) = check_cookie c m session_token_size a u plain short valid in
    rw (p, h, login_handler) (rw (ok) (rw (silent) (refl, refl)))
