-- ===== src/Auth/Login/Soundness.antt =====
-- When `authentication` of src/web/authentication.c lets a request through, and what it leaves
-- behind.
use cedar_switch_3i3o_power.Common.{
  ℕ, ◌≡◌, refl, sym, ◌∙◌, ◌≢◌, ◌↔◌, ◌⊎◌, inl, inr, true, Option, none, some, List, [], ◌∷◌, ◌==◌,
  Any, Any-map, arith, pos, Bool-cases, Option-cases,
}
use cedar_switch_3i3o_power.Common.CString.{Bytes, codes, case_eq, case_eq_n}
use cedar_switch_3i3o_power.Auth.State.{Session, Auth, Crypto}
use cedar_switch_3i3o_power.Auth.Session.{check_token_valid}
use cedar_switch_3i3o_power.Auth.Session.Lookup.{
  IsLive, check_token_valid_sound, check_token_valid_keeps,
}
use cedar_switch_3i3o_power.Auth.Users.Scan.{IsUser, check_user_credentials_iff}
use cedar_switch_3i3o_power.Auth.Login.{
  Header, Moment, Answer, Round, finish, next, cookie_token, bearer_token, basic_credentials,
  try_token, try_basic, header_round, headers_loop, authentication,
}

-- A header that carries a session token.
abbrev pub Carries : Header → Bytes → Type 0
Carries h token =
    ((case_eq h.name (codes "Cookie") ≡ true) × (cookie_token h.value ≡ some token))
    ⊎ ((case_eq h.name (codes "Authorization") ≡ true)
        × (case_eq_n h.value (codes "Bearer ") 7 ≡ true)
        × (bearer_token h.value ≡ token))

-- A header that carries a user name and a password.
abbrev pub Names : Crypto → Header → Bytes → Bytes → Type 0
Names c h username password =
    (case_eq h.name (codes "Authorization") ≡ true)
    × (case_eq_n h.value (codes "Basic ") 6 ≡ true)
    × (basic_credentials c h.value ≡ some (username, password))

-- What entitles a request to pass: the token of a live session, or, where the caller has a buffer
-- for a new token, the name and password of a stored user.
abbrev pub Entitles : Crypto → Moment → ℕ → Auth → List Session → Header → Type 0
Entitles c m size a ss h =
    ((token : Bytes) × Carries h token × IsLive m.now token ss)
    ⊎ ((size ≢ 0)
        × ((username : Bytes) × (password : Bytes) × Names c h username password
            × Any (IsUser c username password) a.users.user))

pub Round-cases :
    (r : Round) → ((a : Answer) × (r ≡ finish a)) ⊎ ((ss : List Session) × (r ≡ next ss))
Round-cases (finish a) = inl (a, refl)
Round-cases (next ss) = inr (ss, refl)

module _ (c : Crypto) (m : Moment) (size : ℕ) (a : Auth) where
  try_token_sound :
      (o : Option Bytes) (ss : List Session) (answer : Answer)
      → try_token m.now o ss ≡ finish answer
      → (token : Bytes) × (o ≡ some token) × IsLive m.now token ss
  unfolding try_token
  try_token_sound none ss answer h = cc
  try_token_sound (some token) ss answer h =
      (token, refl, check_token_valid_sound m.now token ss (ground arith))

  try_token_next :
      (o : Option Bytes) (ss ss' : List Session)
      → try_token m.now o ss ≡ next ss'
      → (u : Bytes) → IsLive m.now u ss' ↔ IsLive m.now u ss
  unfolding try_token
  try_token_next none ss ss' h u = let e : ss ≡ ss' = ground arith in rw (e) (λ l. l, λ l. l)
  try_token_next (some token) ss ss' h u =
      let e : ss' ≡ (check_token_valid m.now token ss).1 = ground arith in
      rw (e) (check_token_valid_keeps m.now token u ss)

  pub try_token_finish :
      (o : Option Bytes) (ss : List Session) (answer : Answer)
      → try_token m.now o ss ≡ finish answer
      → (answer.issued ≡ none) × ((u : Bytes) → IsLive m.now u answer.sessions ↔ IsLive m.now u ss)
  unfolding try_token
  try_token_finish none ss answer h = cc
  try_token_finish (some token) ss answer h =
      let e : answer.sessions ≡ (check_token_valid m.now token ss).1 = ground arith in
      (ground arith, λ u. rw (e) (check_token_valid_keeps m.now token u ss))

  try_basic_sound :
      (value : Bytes) (ss : List Session) (answer : Answer)
      → try_basic c m size value a ss ≡ finish answer
      → answer.rc ≡ pos 0
      → (username : Bytes) × (password : Bytes) × (basic_credentials c value
          ≡ some (username, password))
        × Any (IsUser c username password) a.users.user
  unfolding try_basic
  try_basic_sound value ss answer h ok = elim (Option-cases (basic_credentials c value)) [
    | inl e ↦ absurd (ground arith)
    | inr ((username, password), e) ↦ (
      username,
      password,
      e,
      (check_user_credentials_iff c username password a.users.user).0 (ground arith),
    )
  ]

  try_basic_next :
      (value : Bytes) (ss ss' : List Session) → try_basic c m size value a ss ≡ next ss' → ss' ≡ ss
  unfolding try_basic
  try_basic_next value ss ss' h = elim (Option-cases (basic_credentials c value)) [
    | inl e ↦ ground arith
    | inr ((username, password), e) ↦ absurd (ground arith)
  ]

  -- The four things that a round does, with the tests that lead to it.
  abbrev pub Kind : Header → List Session → Type 0
  Kind h ss =
      ((case_eq h.name (codes "Cookie") ≡ true)
        × (header_round c m size h a ss ≡ try_token m.now (cookie_token h.value) ss))
      ⊎ (((case_eq h.name (codes "Authorization") ≡ true)
            × (case_eq_n h.value (codes "Bearer ") 7 ≡ true)
            × (header_round c m size h a ss ≡ try_token m.now (some (bearer_token h.value)) ss))
          ⊎ (((case_eq h.name (codes "Authorization") ≡ true)
                × (case_eq_n h.value (codes "Basic ") 6 ≡ true)
                × (size ≢ 0)
                × (header_round c m size h a ss ≡ try_basic c m size h.value a ss))
              ⊎ (header_round c m size h a ss ≡ next ss)))

  pub header_round-Kind : (h : Header) (ss : List Session) → Kind h ss
  unfolding header_round
  header_round-Kind h ss = elim (Bool-cases (case_eq h.name (codes "Cookie"))) [
    | inl cookie ↦ inl (cookie, rw (cookie, header_round))
    | inr other ↦ elim (Bool-cases (case_eq h.name (codes "Authorization"))) [
      | inr neither ↦ inr (inr (inr (rw (other, neither, header_round))))
      | inl auth ↦ elim (Bool-cases (case_eq_n h.value (codes "Basic ") 6)) [
        | inl basic ↦ elim (Bool-cases (size == 0)) [
          | inl check ↦ inr (inr (inr (rw (other, auth, basic, check, header_round))))
          | inr issue ↦
              inr (
                inr (inl (auth, basic, ground arith, rw (other, auth, basic, issue, header_round))))
        ]
        | inr not_basic ↦ elim (Bool-cases (case_eq_n h.value (codes "Bearer ") 7)) [
          | inr nothing ↦ inr (inr (inr (rw (other, auth, not_basic, nothing, header_round))))
          | inl bearer ↦ inr (inl (auth, bearer, rw (other, auth, not_basic, bearer, header_round)))
        ]
      ]
    ]
  ]

  header_round_sound :
      (h : Header) (ss : List Session) (answer : Answer)
      → header_round c m size h a ss ≡ finish answer
      → answer.rc ≡ pos 0
      → Entitles c m size a ss h
  header_round_sound h ss answer e ok = elim (header_round-Kind h ss) [
    | inl (cookie, r) ↦
        let (token, o, l) = try_token_sound (cookie_token h.value) ss answer (sym r ∙ e) in
        inl (token, inl (cookie, o), l)
    | inr (inl (auth, bearer, r)) ↦
        let (token, o, l) = try_token_sound (some (bearer_token h.value)) ss answer (sym r ∙ e) in
        inl (token, inr (auth, bearer, cc), l)
    | inr (inr (inl (auth, basic, issue, r))) ↦
        let (username, password, found, user) = try_basic_sound h.value ss answer (sym r ∙ e) ok in
        inr (issue, (username, password, (auth, basic, found), user))
    | inr (inr (inr r)) ↦ cc
  ]

  pub header_round_next :
      (h : Header) (ss ss' : List Session)
      → header_round c m size h a ss ≡ next ss'
      → (u : Bytes) → IsLive m.now u ss' ↔ IsLive m.now u ss
  header_round_next h ss ss' e u = elim (header_round-Kind h ss) [
    | inl (_, r) ↦ try_token_next (cookie_token h.value) ss ss' (sym r ∙ e) u
    | inr (inl (_, _, r)) ↦ try_token_next (some (bearer_token h.value)) ss ss' (sym r ∙ e) u
    | inr (inr (inl (_, _, _, r))) ↦ same (try_basic_next h.value ss ss' (sym r ∙ e))
    | inr (inr (inr r)) ↦ same cc
  ]
    where
      same : ss' ≡ ss → IsLive m.now u ss' ↔ IsLive m.now u ss
      same p = rw (p) (λ l. l, λ l. l)

  Entitles-carry :
      (ss ss' : List Session)
      → ((u : Bytes) → IsLive m.now u ss' ↔ IsLive m.now u ss)
      → (h : Header) → Entitles c m size a ss' h
      → Entitles c m size a ss h
  Entitles-carry ss ss' keep h (inl (token, carries, l)) = inl (token, carries, (keep token).0 l)
  Entitles-carry ss ss' keep h (inr user) = inr user

  headers_loop_sound :
      (hs : List Header) (ss : List Session)
      → (headers_loop c m size hs a ss).rc ≡ pos 0
      → Any (Entitles c m size a ss) hs
  unfolding headers_loop
  headers_loop_sound [] ss ok = cc
  headers_loop_sound (h ∷ hs) ss ok = elim (Round-cases (header_round c m size h a ss)) [
    | inl (answer, e) ↦ inl (header_round_sound h ss answer e (ground arith))
    | inr (ss', e) ↦ inr (
        Any-map (Entitles c m size a ss') (Entitles c m size a ss)
          (Entitles-carry ss ss' (header_round_next h ss ss' e)) hs
          (headers_loop_sound hs ss' (rw (e, headers_loop) at ok)))
  ]

  -- A request passes only if one of its headers entitles it to: it carries the token of a session
  -- that has not expired or, where a token may be issued, the name and password of a stored user.
  pub authentication_sound :
      (headers : List Header)
      → (authentication c m headers size a).rc ≡ pos 0
      → Any (Entitles c m size a a.sessions) headers
  unfolding authentication
  authentication_sound headers ok = headers_loop_sound headers a.sessions ok
