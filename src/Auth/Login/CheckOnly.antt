-- ===== src/Auth/Login/CheckOnly.antt =====
-- `authentication` of src/web/authentication.c where the caller has no buffer for a new token.
use cedar_switch_3i3o_power.Common.{◌≡◌, refl, sym, ◌∙◌, ◌↔◌, inl, inr, none, some, List, [], ◌∷◌}
use cedar_switch_3i3o_power.Common.CString.{Bytes}
use cedar_switch_3i3o_power.Auth.State.{Session, Auth, Crypto}
use cedar_switch_3i3o_power.Auth.Session.Lookup.{IsLive}
use cedar_switch_3i3o_power.Auth.Login.{
  Header, Moment, Answer, finish, cookie_token, bearer_token, header_round, headers_loop,
  authentication,
}
use cedar_switch_3i3o_power.Auth.Login.Soundness.{
  Round-cases, try_token_finish, header_round-Kind, header_round_next,
}

module _ (c : Crypto) (m : Moment) (a : Auth) where
  abbrev Checks : List Session → Answer → Type 0
  Checks ss answer =
      (answer.issued ≡ none) × ((u : Bytes) → IsLive m.now u answer.sessions ↔ IsLive m.now u ss)

  header_round-Checks :
      (h : Header) (ss : List Session) (answer : Answer)
      → header_round c m 0 h a ss ≡ finish answer
      → Checks ss answer
  header_round-Checks h ss answer e = elim (header_round-Kind c m 0 a h ss) [
    | inl (_, r) ↦ try_token_finish c m 0 a (cookie_token h.value) ss answer (sym r ∙ e)
    | inr (inl (_, _, r)) ↦
        try_token_finish c m 0 a (some (bearer_token h.value)) ss answer (sym r ∙ e)
    | inr (inr (inl (_, _, issue, _))) ↦ absurd (issue refl)
    | inr (inr (inr r)) ↦ cc
  ]

  headers_loop-Checks :
      (hs : List Header) (ss : List Session) → Checks ss (headers_loop c m 0 hs a ss)
  unfolding headers_loop
  headers_loop-Checks [] ss = (refl, λ u. (λ l. l, λ l. l))
  headers_loop-Checks (h ∷ hs) ss = elim (Round-cases (header_round c m 0 h a ss)) [
    | inl (answer, e) ↦ rw (e, headers_loop) (header_round-Checks h ss answer e)
    | inr (ss', e) ↦
        let (none_issued, later) = headers_loop-Checks hs ss' in
        let here = header_round_next c m 0 a h ss ss' e in
        rw (e, headers_loop)
          (none_issued, λ u. (λ l. (here u).0 ((later u).0 l), λ l. (later u).1 ((here u).1 l)))
  ]

  -- Without a buffer for a new token the call issues none, and the live sessions are the same
  -- afterwards, whatever the headers and the answer.
  authentication_check_only :
      (headers : List Header)
      → ((authentication c m headers 0 a).issued ≡ none)
        × ((u : Bytes)
            → IsLive m.now u (authentication c m headers 0 a).sessions ↔ IsLive m.now u a.sessions)
  unfolding authentication
  authentication_check_only headers = headers_loop-Checks headers a.sessions
