-- ===== src/Auth/Session/Live.antt =====
-- Which sessions are live after `store_session_token` of src/web/authentication.c.
use cedar_switch_3i3o_power.Common.{
  ℕ, zero, suc, ◌+◌, ◌%◌, ◌≤◌, ◌<◌, ◌≡◌, ◌≢◌, ◌⊎◌, ◌↔◌, inl, inr, some, List, [], ◌∷◌, All, Any,
  arith, length, get_elem?, set, take_of_length-le, subst, sym, ◌∙◌,
}
use cedar_switch_3i3o_power.Common.CString.{Bytes}
use cedar_switch_3i3o_power.Auth.State.{
  Session, session_token_size, session_lifetime_sec, uint32_mod,
}
use cedar_switch_3i3o_power.Auth.Session.{new_session, store_session_token}
use cedar_switch_3i3o_power.Auth.Session.Lookup.{IsFor, IsLive, IsFresh, IsDistinct}
use cedar_switch_3i3o_power.Auth.Session.Store.{IsUsed, store_session_token_slot}

module _ (t : ℕ) (u : Bytes) where
  IsLive-set_new :
      (ss : List Session) (i : ℕ) (x v : Session)
      → get_elem? ss i ≡ some v
      → IsFor t u x
      → IsLive t u (set ss i x)
  IsLive-set_new [] i x v g h = cc
  IsLive-set_new (s ∷ ss) zero x v g h = inl h
  IsLive-set_new (s ∷ ss) (suc i) x v g h = inr (IsLive-set_new ss i x v g h)

  IsLive-set_sound :
      (ss : List Session) (i : ℕ) (x : Session)
      → IsLive t u (set ss i x)
      → IsLive t u ss ⊎ IsFor t u x
  IsLive-set_sound [] i x l = elim l [ ]
  IsLive-set_sound (s ∷ ss) zero x (inl l) = inr l
  IsLive-set_sound (s ∷ ss) zero x (inr l) = inl (inr l)
  IsLive-set_sound (s ∷ ss) (suc i) x (inl l) = inl (inl l)
  IsLive-set_sound (s ∷ ss) (suc i) x (inr l) = elim (IsLive-set_sound ss i x l) [
    | inl k ↦ inl (inr k)
    | inr k ↦ inr k
  ]

  IsLive-set_old :
      (ss : List Session) (i : ℕ) (x v : Session)
      → get_elem? ss i ≡ some v
      → IsLive t u ss
      → IsLive t u (set ss i x) ⊎ IsFor t u v
  IsLive-set_old [] i x v g l = elim l [ ]
  IsLive-set_old (s ∷ ss) zero x v g (inl l) = inr (subst (IsFor t u) (ground arith) l)
  IsLive-set_old (s ∷ ss) zero x v g (inr l) = inl (inr l)
  IsLive-set_old (s ∷ ss) (suc i) x v g (inl l) = inl (inl l)
  IsLive-set_old (s ∷ ss) (suc i) x v g (inr l) = elim (IsLive-set_old ss i x v g l) [
    | inl k ↦ inl (inr k)
    | inr k ↦ inr k
  ]

-- The new session is live until it expires, and nothing else becomes live.
pub IsLive-store_session_token :
    (now t : ℕ) (token u : Bytes) (ss : List Session)
    → 0 < length ss
    → (IsFor t u (new_session now token) → IsLive t u (store_session_token now token ss))
      × (IsLive t u (store_session_token now token ss)
          → IsLive t u ss ⊎ IsFor t u (new_session now token))
IsLive-store_session_token now t token u ss h =
    let (i, v, w, _) = store_session_token_slot now token ss h in
    rw (w.written) (
      IsLive-set_new t u ss i (new_session now token) v w.found,
      IsLive-set_sound t u ss i (new_session now token),
    )

not-IsUsed_of_free : (ss : List Session) → Any (λ s. s.token ≡ []) ss → ¬ All IsUsed ss
not-IsUsed_of_free [] f a = f
not-IsUsed_of_free (s ∷ ss) (inl e) a = a.0 e
not-IsUsed_of_free (s ∷ ss) (inr f) a = not-IsUsed_of_free ss f a.1

-- While a slot is free, a store logs nobody out.
IsLive-store_session_token_free :
    (now t : ℕ) (token u : Bytes) (ss : List Session)
    → Any (λ s. s.token ≡ []) ss
    → IsLive t u ss
    → IsLive t u (store_session_token now token ss)
IsLive-store_session_token_free now t token u [] f l = elim f [ ]
IsLive-store_session_token_free now t token u (s ∷ ss) f l =
    let (i, v, w, case) = store_session_token_slot now token (s ∷ ss) (omega arith) in
    rw (w.written) (elim (IsLive-set_old t u (s ∷ ss) i (new_session now token) v w.found l) [
      | inl k ↦ k
      | inr k ↦ elim case [
        | inl free ↦ absurd (k.0 free)
        | inr full ↦ absurd (not-IsUsed_of_free (s ∷ ss) f full.0)
      ]
    ])

IsFresh-set :
    (u : Bytes) (ss : List Session) (i : ℕ) (x : Session)
    → x.token ≢ u
    → IsFresh u ss
    → IsFresh u (set ss i x)
IsFresh-set u [] i x h f = tt
IsFresh-set u (s ∷ ss) zero x h f = (h, f.1)
IsFresh-set u (s ∷ ss) (suc i) x h f = (f.0, IsFresh-set u ss i x h f.1)

IsDistinct-set :
    (ss : List Session) (i : ℕ) (x : Session)
    → IsFresh x.token ss
    → IsDistinct ss
    → IsDistinct (set ss i x)
IsDistinct-set [] i x f d = tt
IsDistinct-set (s ∷ ss) zero x f d = (inr f.1, d.1)
IsDistinct-set (s ∷ ss) (suc i) x f (inl e, d) = (inl e, IsDistinct-set ss i x f.1 d)
IsDistinct-set (s ∷ ss) (suc i) x f (inr g, d) =
    (inr (IsFresh-set s.token ss i x (λ e. f.0 (sym e)) g), IsDistinct-set ss i x f.1 d)

-- A token that no session has keeps the tokens in use distinct.
pub store_session_token-IsDistinct :
    (now : ℕ) (token : Bytes) (ss : List Session)
    → 0 < length ss
    → length token ≤ session_token_size
    → IsFresh token ss
    → IsDistinct ss
    → IsDistinct (store_session_token now token ss)
store_session_token-IsDistinct now token ss h fits f d =
    let (i, v, w, _) = store_session_token_slot now token ss h in
    rw (w.written) (
      IsDistinct-set ss i (new_session now token)
        (rw (take_of_length-le session_token_size token fits) f) d)

not-IsLive_of_fresh : (t : ℕ) (u : Bytes) (ss : List Session) → IsFresh u ss → ¬ IsLive t u ss
not-IsLive_of_fresh t u [] f l = l
not-IsLive_of_fresh t u (s ∷ ss) f (inl (_, e, _)) = f.0 e
not-IsLive_of_fresh t u (s ∷ ss) f (inr l) = not-IsLive_of_fresh t u ss f.1 l

-- A token that no session has and that fits its slot is live, once stored, exactly until the
-- lifetime has passed.
IsLive-store_session_token_new :
    (now t : ℕ) (token : Bytes) (ss : List Session)
    → 0 < length ss
    → token ≢ []
    → length token ≤ session_token_size
    → IsFresh token ss
    → IsLive t token (store_session_token now token ss)
      ↔ (t < (now + session_lifetime_sec) % uint32_mod)
IsLive-store_session_token_new now t token ss room used fits fresh =
    let (new, sound) = IsLive-store_session_token now t token token ss room in
    let whole = take_of_length-le session_token_size token fits in
    (
      λ l. elim (sound l) [
        | inl old ↦ absurd (not-IsLive_of_fresh t token ss fresh old)
        | inr (_, _, lt) ↦ lt
      ],
      λ lt. new ((λ e. used (sym whole ∙ e)), whole, lt),
    )
