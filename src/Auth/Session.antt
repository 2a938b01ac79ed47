-- ===== src/Auth/Session.antt =====
-- src/web/authentication.c: the table of sessions, `store_session_token` and `check_token_valid`.
-- The clock, `(uint32_t)time(NULL)`, is the argument `now`.
pub mod Lookup
pub mod Store
pub mod Live
use cedar_switch_3i3o_power.Common.{
  ℕ, zero, suc, ◌+◌, ◌%◌, Bool, true, false, Option, none, some, List, [], ◌∷◌, ltb, if◌then◌else◌,
  set, take,
}
use cedar_switch_3i3o_power.Common.CString.{Bytes, bytes_eq, is_empty}
use cedar_switch_3i3o_power.Auth.State.{
  Session, session_lifetime_sec, session_token_size, uint32_mod,
}

-- What both branches of `store_session_token` write into a slot.
abbrev pub new_session : ℕ → Bytes → Session
new_session now token = record {
  expires = (now + session_lifetime_sec) % uint32_mod;
  token = take session_token_size token;
}

abbrev keep_first : Session → Option (List Session) → Option (List Session)
keep_first s none = none
keep_first s (some ss) = some (s ∷ ss)

-- The first loop of `store_session_token`: the table with the first free slot filled.
pub store_free : ℕ → Bytes → List Session → Option (List Session)
store_free now token [] = none
store_free now token (s ∷ ss) =
    let rest = store_free now token ss in
    if is_empty s.token then some (new_session now token ∷ ss) else keep_first s rest

-- The second loop, from slot `i` on, with the oldest slot so far and its expiry.
pub oldest_from : ℕ → ℕ → ℕ → List Session → ℕ
oldest_from i oldest_idx oldest_time [] = oldest_idx
oldest_from i oldest_idx oldest_time (s ∷ ss) =
    oldest_from (suc i) (if ltb s.expires oldest_time then i else oldest_idx)
      (if ltb s.expires oldest_time then s.expires else oldest_time) ss

pub oldest_index : List Session → ℕ
unfolding oldest_from
oldest_index [] = 0
oldest_index (s ∷ ss) = oldest_from 1 0 s.expires ss

unfoldable pub store_session_token : ℕ → Bytes → List Session → List Session
unfolding store_free oldest_index
store_session_token now token ss = elim (store_free now token ss) [
  | some ss' ↦ ss'
  | none ↦ set ss (oldest_index ss) (new_session now token)
]

-- The answer, and the table: a session that matches and has expired is freed.
unfoldable pub check_token_valid : ℕ → Bytes → List Session → Bool × List Session
check_token_valid now token [] = (false, [])
check_token_valid now token (s ∷ ss) =
    let rest = check_token_valid now token ss in
    if is_empty s.token
    then (rest.0, s ∷ rest.1)
    else if bytes_eq s.token token
    then (if ltb now s.expires then (true, s ∷ ss) else (false, record s { token = [] } ∷ ss))
    else (rest.0, s ∷ rest.1)
