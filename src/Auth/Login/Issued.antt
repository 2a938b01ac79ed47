-- ===== src/Auth/Login/Issued.antt =====
-- How `authentication` of src/web/authentication.c issues a token, and the cookie that carries it.
use cedar_switch_3i3o_power.Common.{
  ℕ, zero, suc, ◌-◌, ◌*◌, ◌≤◌, ◌<◌, ◌≡◌, refl, sym, ◌∙◌, ◌≢◌, inl, inr, Option, none, some, List,
  [], ◌∷◌, ◌++◌, lt→ltb, All, arith, length, take, Bool-cases, Option-cases,
}
use cedar_switch_3i3o_power.Common.CString.{Bytes, codes, strchr-none}
use cedar_switch_3i3o_power.Auth.State.{Session, Auth, Crypto, session_token_size}
use cedar_switch_3i3o_power.Auth.Session.{store_session_token, check_token_valid}
use cedar_switch_3i3o_power.Auth.Session.Lookup.{
  IsFresh, IsDistinct, check_token_valid-IsFresh, check_token_valid-IsDistinct,
  length-check_token_valid,
}
use cedar_switch_3i3o_power.Auth.Users.{check_user_credentials}
use cedar_switch_3i3o_power.Auth.Login.{
  Header, Moment, Answer, finish, next, cookie_token, bearer_token, basic_credentials, hex_loop,
  generate_token, try_token, try_basic, header_round, headers_loop,
}
use cedar_switch_3i3o_power.Auth.Login.Soundness.{header_round-Kind, Round-cases}

abbrev pub NoSemicolon : Bytes → Type 0
NoSemicolon = All (λ x. x ≢ b';')

pub hex_loop-NoSemicolon :
    (k i size : ℕ) (bytes : Bytes)
    → NoSemicolon (hex_loop k i size bytes) × (length (hex_loop k i size bytes) ≤ 2 * k)
unfolding hex_loop
hex_loop-NoSemicolon zero i size bytes = (tt, omega arith)
hex_loop-NoSemicolon (suc k) i size [] = (tt, omega arith)
hex_loop-NoSemicolon (suc k) i size (b ∷ bytes) =
    ground (arith, hex_loop-NoSemicolon k (suc i) size bytes)

-- The cookie that a browser sends back for a token.
abbrev pub cookie : Bytes → Header
cookie token = record { name = codes "Cookie"; value = codes "session_token=" ++ token }

pub cookie_token-cookie :
    (token : Bytes)
    → NoSemicolon token
    → length token < 128
    → cookie_token (cookie token).value ≡ some token
unfolding cookie_token
cookie_token-cookie token h l = rw (strchr-none token b';' h) (rw (lt→ltb _ _ l))

module _ (c : Crypto) (m : Moment) (size : ℕ) (a : Auth) where
  -- What is known of the call once it has issued a token: the table that it stored it in.
  pub record Issues (ss : List Session) (answer : Answer) (t : Bytes) : Type 0 where
    pub username : Bytes
    pub table : List Session
    pub short : t ≡ take (size - 1) (generate_token c m username session_token_size)
    pub stored :
        answer.sessions
        ≡ store_session_token m.now (generate_token c m username session_token_size) table
    pub distinct : IsDistinct ss → IsDistinct table
    pub fresh : (u : Bytes) → u ≢ [] → IsFresh u ss → IsFresh u table
    pub same : length table ≡ length ss

  try_token_none :
      (o : Option Bytes) (ss : List Session) (answer : Answer) (t : Bytes)
      → try_token m.now o ss ≡ finish answer
      → ¬ (answer.issued ≡ some t)
  unfolding try_token
  try_token_none none ss answer t h = cc
  try_token_none (some token) ss answer t h = ground arith

  record Keeps (ss ss' : List Session) : Type 0 where
    distinct : IsDistinct ss → IsDistinct ss'
    fresh : (u : Bytes) → u ≢ [] → IsFresh u ss → IsFresh u ss'
    same : length ss' ≡ length ss

  Keeps-refl : (ss : List Session) → Keeps ss ss
  Keeps-refl ss = record { distinct = λ d. d; fresh = λ u h f. f; same = refl }

  try_token-Keeps :
      (o : Option Bytes) (ss ss' : List Session) → try_token m.now o ss ≡ next ss' → Keeps ss ss'
  unfolding try_token
  try_token-Keeps none ss ss' h = let e : ss' ≡ ss = ground arith in rw (e) (Keeps-refl ss)
  try_token-Keeps (some token) ss ss' h =
      let e : ss' ≡ (check_token_valid m.now token ss).1 = ground arith in
      rw (e) (record {
        distinct = check_token_valid-IsDistinct m.now token ss;
        fresh = λ u h f. check_token_valid-IsFresh m.now token u ss h f;
        same = length-check_token_valid m.now token ss;
      })

  try_basic_same :
      (value : Bytes) (ss ss' : List Session) → try_basic c m size value a ss ≡ next ss' → ss' ≡ ss
  unfolding try_basic
  try_basic_same value ss ss' h = elim (Option-cases (basic_credentials c value)) [
    | inl e ↦ ground arith
    | inr ((username, password), e) ↦ absurd (ground arith)
  ]

  try_basic-Issues :
      (value : Bytes) (ss : List Session) (answer : Answer) (t : Bytes)
      → try_basic c m size value a ss ≡ finish answer
      → answer.issued ≡ some t
      → Issues ss answer t
  unfolding try_basic
  try_basic-Issues value ss answer t h e = elim (Option-cases (basic_credentials c value)) [
    | inl n ↦ absurd (ground arith)
    | inr ((username, password), p) ↦
        elim (Bool-cases (check_user_credentials c username password a.users.user)) [
          | inr bad ↦ absurd (ground arith)
          | inl good ↦ record {
            username = username;
            table = ss;
            short = ground arith;
            stored = ground arith;
            distinct = λ d. d;
            fresh = λ u h f. f;
            same = refl;
          }
        ]
  ]

  header_round-Keeps :
      (h : Header) (ss ss' : List Session) → header_round c m size h a ss ≡ next ss' → Keeps ss ss'
  header_round-Keeps h ss ss' e = elim (header_round-Kind c m size a h ss) [
    | inl (_, r) ↦ try_token-Keeps (cookie_token h.value) ss ss' (sym r ∙ e)
    | inr (inl (_, _, r)) ↦ try_token-Keeps (some (bearer_token h.value)) ss ss' (sym r ∙ e)
    | inr (inr (inl (_, _, _, r))) ↦ rw (try_basic_same h.value ss ss' (sym r ∙ e)) (Keeps-refl ss)
    | inr (inr (inr r)) ↦ let p : ss' ≡ ss = cc in rw (p) (Keeps-refl ss)
  ]

  header_round-Issues :
      (h : Header) (ss : List Session) (answer : Answer) (t : Bytes)
      → header_round c m size h a ss ≡ finish answer
      → answer.issued ≡ some t
      → Issues ss answer t
  header_round-Issues h ss answer t e i = elim (header_round-Kind c m size a h ss) [
    | inl (_, r) ↦ absurd (try_token_none (cookie_token h.value) ss answer t (sym r ∙ e) i)
    | inr (inl (_, _, r)) ↦
        absurd (try_token_none (some (bearer_token h.value)) ss answer t (sym r ∙ e) i)
    | inr (inr (inl (_, _, _, r))) ↦ try_basic-Issues h.value ss answer t (sym r ∙ e) i
    | inr (inr (inr r)) ↦ cc
  ]

  pub headers_loop-Issues :
      (hs : List Header) (ss : List Session) (t : Bytes)
      → (headers_loop c m size hs a ss).issued ≡ some t
      → Issues ss (headers_loop c m size hs a ss) t
  unfolding headers_loop
  headers_loop-Issues [] ss t i = cc
  headers_loop-Issues (h ∷ hs) ss t i = elim (Round-cases (header_round c m size h a ss)) [
    | inl (answer, e) ↦
        rw (e, headers_loop) (header_round-Issues h ss answer t e (rw (e, headers_loop) at i))
    | inr (ss', e) ↦
        let rest = headers_loop-Issues hs ss' t (rw (e, headers_loop) at i) in
        let k = header_round-Keeps h ss ss' e in
        rw (e, headers_loop)
          (record {
            username = rest.username;
            table = rest.table;
            short = rest.short;
            stored = rest.stored;
            distinct = λ d. rest.distinct (k.distinct d);
            fresh = λ u used f. rest.fresh u used (k.fresh u used f);
            same = rest.same ∙ k.same;
          })
  ]
