-- ===== src/Auth/Login.antt =====
-- src/web/authentication.c: `generate_token` and `authentication`, the check of a request's
-- headers.
pub mod Soundness
pub mod CheckOnly
pub mod RoundTrip
pub mod Issued
use cedar_switch_3i3o_power.Common.{
  ℕ, zero, suc, ◌+◌, ◌-◌, ◌*◌, Bool, true, false, ◌||◌, Option, none, some, List, [], ◌∷◌, ◌++◌,
  ltb, ◌==◌, if◌then◌else◌, length, take, drop, replicate, ℤ, pos, e_acces,
}
use cedar_switch_3i3o_power.Common.CString.{
  Bytes, codes, strchr, strstr, case_eq, case_eq_n, until_nul,
}
use cedar_switch_3i3o_power.Common.Format.{dec, hex2}
use cedar_switch_3i3o_power.Auth.State.{Session, Auth, Crypto, session_token_size}
use cedar_switch_3i3o_power.Auth.Session.{store_session_token, check_token_valid}
use cedar_switch_3i3o_power.Auth.Users.{check_user_credentials}

-- struct http_header
pub record Header : Type 0 where
  pub name : Bytes
  pub value : Bytes

-- The clock, `(uint32_t)time(NULL)`, read once for a request, and the bytes of `sys_csrand_get`.
pub record Moment : Type 0 where
  pub now : ℕ
  pub random : Bytes

-- The loop of `generate_token`, with the rounds left, the index and the bytes not yet written.
unfoldable pub hex_loop : ℕ → ℕ → ℕ → Bytes → Bytes
unfolding hex2
hex_loop zero i size bytes = []
hex_loop (suc k) i size [] = []
hex_loop (suc k) i size (b ∷ bytes) =
    let rest = hex2 b ++ hex_loop k (suc i) size bytes in if ltb (i * 2 + 1) size then rest else []

unfoldable pub token_input : Moment → Bytes → Bytes
unfolding hex_loop dec
token_input m username =
    take 127 (username ++ codes "_" ++ dec m.now ++ codes "_" ++ hex_loop 4 0 128 m.random)

unfoldable pub generate_token : Crypto → Moment → Bytes → ℕ → Bytes
unfolding hex_loop token_input
generate_token c m username token_size =
    hex_loop 16 0 token_size (c.sha256 (token_input m username) (replicate 32 0)).1

-- What `authentication` returns, with the token that it writes to the caller's buffer.
pub record Answer : Type 0 where
  pub rc : ℤ
  pub issued : Option Bytes
  pub sessions : List Session

-- One round of the loop over the headers returns, or goes on.
pub data Round : Type 0 where
  finish : Answer → Round
  next : List Session → Round

abbrev pub granted : List Session → Answer
granted ss = record { rc = pos 0; issued = none; sessions = ss }

abbrev pub denied : List Session → Answer
denied ss = record { rc = e_acces; issued = none; sessions = ss }

-- The part of the value before the `;`, or all of it.
abbrev pub before_or_all : Bytes → Option (Bytes × Bytes) → Bytes
before_or_all s none = s
before_or_all s (some (before, after)) = before

-- The token of a `Cookie` header, if there is one and it fits the local buffer.
unfoldable pub cookie_token : Bytes → Option Bytes
unfolding strstr strchr
cookie_token value = elim (strstr value (codes "session_token=")) [
  | none ↦ none
  | some found ↦
      let pos = drop 14 found in
      let token = before_or_all pos (strchr pos b';') in
      if ltb (length token) session_token_size then some token else none
]

-- The token of a value that begins with "Bearer ", cut to the local buffer.
unfoldable pub bearer_token : Bytes → Bytes
bearer_token value = take 127 (drop 7 value)

-- The name and password of a value that begins with "Basic ", if it decodes and has a colon.
unfoldable pub basic_credentials : Crypto → Bytes → Option (Bytes × Bytes)
unfolding strchr until_nul
basic_credentials c value = elim (c.base64_decode (drop 6 value) 256) [
  | none ↦ none
  | some decoded ↦ strchr (until_nul (take 255 decoded)) b':'
]

unfoldable pub try_token : ℕ → Option Bytes → List Session → Round
unfolding check_token_valid
try_token now none ss = next ss
try_token now (some token) ss =
    let checked = check_token_valid now token ss in
    if checked.0 then finish (granted checked.1) else next checked.1

-- The branch for Basic credentials; `size` is that of the caller's buffer.
unfoldable pub try_basic : Crypto → Moment → ℕ → Bytes → Auth → List Session → Round
unfolding basic_credentials check_user_credentials generate_token store_session_token
try_basic c m size value a ss = elim (basic_credentials c value) [
  | none ↦ next ss
  | some (username, password) ↦
      let new_token = generate_token c m username session_token_size in
      if check_user_credentials c username password a.users.user
      then finish (record {
        rc = pos 0;
        issued = some (take (size - 1) new_token);
        sessions = store_session_token m.now new_token ss;
      })
      else finish (denied ss)
]

-- The buffer is NULL where `size` is 0, so that this is the test for `check_only` too.
unfoldable pub header_round : Crypto → Moment → ℕ → Header → Auth → List Session → Round
unfolding case_eq case_eq_n cookie_token bearer_token try_token try_basic
header_round c m size h a ss =
    if case_eq h.name (codes "Cookie")
    then try_token m.now (cookie_token h.value) ss
    else if case_eq h.name (codes "Authorization")
    then (if case_eq_n h.value (codes "Basic ") 6
        then (if size == 0 then next ss else try_basic c m size h.value a ss)
        else if case_eq_n h.value (codes "Bearer ") 7
        then try_token m.now (some (bearer_token h.value)) ss
        else next ss)
    else next ss

-- The loop over the headers, with the sessions as the rounds before have left them.
unfoldable pub headers_loop : Crypto → Moment → ℕ → List Header → Auth → List Session → Answer
unfolding header_round
headers_loop c m size [] a ss = denied ss
headers_loop c m size (h ∷ hs) a ss = elim (header_round c m size h a ss) [
  | finish answer ↦ answer
  | next ss' ↦ headers_loop c m size hs a ss'
]

unfoldable pub authentication : Crypto → Moment → List Header → ℕ → Auth → Answer
unfolding headers_loop
authentication c m headers size a = headers_loop c m size headers a a.sessions
