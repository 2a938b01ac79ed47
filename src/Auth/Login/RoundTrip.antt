-- ===== src/Auth/Login/RoundTrip.antt =====
-- src/web/authentication.c: the token that a login issues opens the session afterwards.
use cedar_switch_3i3o_power.Common.{
  ℕ, ◌+◌, ◌%◌, ◌≤◌, ◌<◌, ◌≡◌, refl, sym, ◌∙◌, ◌≢◌, true, none, some, List, [], ◌∷◌, arith, length,
  take, take_of_length-le, pos,
}
use cedar_switch_3i3o_power.Common.CString.{Bytes}
use cedar_switch_3i3o_power.Auth.State.{
  Session, Auth, Crypto, session_lifetime_sec, session_token_size, uint32_mod,
}
use cedar_switch_3i3o_power.Auth.Session.{store_session_token, check_token_valid}
use cedar_switch_3i3o_power.Auth.Session.Lookup.{IsFresh, IsDistinct, check_token_valid_iff}
use cedar_switch_3i3o_power.Auth.Session.Live.{
  IsLive-store_session_token, store_session_token-IsDistinct,
}
use cedar_switch_3i3o_power.Auth.Login.{
  Header, Moment, generate_token, try_token, header_round, headers_loop, authentication,
}
use cedar_switch_3i3o_power.Auth.Login.Issued.{
  NoSemicolon, hex_loop-NoSemicolon, cookie, cookie_token-cookie, headers_loop-Issues, Issues,
}

generate_token_short :
    (c : Crypto) (m : Moment) (username : Bytes)
    → NoSemicolon (generate_token c m username session_token_size)
      × (length (generate_token c m username session_token_size) ≤ 32)
unfolding generate_token
generate_token_short c m username = hex_loop-NoSemicolon 16 0 session_token_size _

pub check_cookie :
    (c : Crypto) (m : Moment) (size : ℕ) (a : Auth) (token : Bytes)
    → NoSemicolon token
    → length token < 128
    → (check_token_valid m.now token a.sessions).0 ≡ true
    → ((authentication c m (cookie token ∷ []) size a).rc ≡ pos 0)
      × ((authentication c m (cookie token ∷ []) size a).issued ≡ none)
unfolding authentication
check_cookie c m size a token h l ok =
    rw (cookie_token-cookie token h l, header_round, try_token, headers_loop) (rw (ok) (refl, refl))

authentication-Issues :
    (c : Crypto) (m : Moment) (size : ℕ) (a : Auth) (headers : List Header) (t : Bytes)
    → (authentication c m headers size a).issued ≡ some t
    → Issues c m size a a.sessions (authentication c m headers size a) t
unfolding authentication
authentication-Issues c m size a headers t e = headers_loop-Issues c m size a headers a.sessions t e

-- A token just stored is found until its session expires.
check_stored :
    (now later : ℕ) (token : Bytes) (ss : List Session)
    → IsDistinct ss
    → 0 < length ss
    → IsFresh token ss
    → token ≢ []
    → length token ≤ session_token_size
    → later < (now + session_lifetime_sec) % uint32_mod
    → (check_token_valid later token (store_session_token now token ss)).0 ≡ true
check_stored now later token ss d room f used fits h =
    let same : take session_token_size token ≡ token = take_of_length-le _ token fits in
    (check_token_valid_iff later token _
        (store_session_token-IsDistinct now token ss room fits f d)).1
      ((IsLive-store_session_token now later token token ss room).0
        ((λ e. used (sym same ∙ e)), same, h))

module _ (c : Crypto) (m m' : Moment) (a : Auth) (headers : List Header) (t : Bytes) where
  -- A request whose only header is a cookie with the token that a login has issued passes until
  -- the session expires, where the tokens in use are distinct and the new one is not among them.
  pub login_then_check :
      IsDistinct a.sessions
      → 0 < length a.sessions
      → IsFresh t a.sessions
      → t ≢ []
      → (authentication c m headers session_token_size a).issued ≡ some t
      → m'.now < (m.now + session_lifetime_sec) % uint32_mod
      → (authentication c m'
          (cookie t ∷ [])
          0
          (record a { sessions = (authentication c m headers session_token_size a).sessions })).rc
        ≡ pos 0
  login_then_check d room f used e later =
      let i = authentication-Issues c m session_token_size a headers t e in
      let (plain, short) = generate_token_short c m i.username in
      let token = generate_token c m i.username session_token_size in
      let same : t ≡ token = i.short ∙ take_of_length-le 127 token (omega arith) in
      (check_cookie c m' 0 _ t (rw (same) plain) (rw (same) (omega arith)) (
        rw (i.stored, ← same)
          (check_stored m.now m'.now t i.table (i.distinct d) (omega (arith, i.same))
            (i.fresh t used f) used (rw (same) (omega arith)) later))).0
