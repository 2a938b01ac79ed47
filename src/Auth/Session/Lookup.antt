-- ===== src/Auth/Session/Lookup.antt =====
-- What `check_token_valid` of src/web/authentication.c answers, and what it does to the table.
use cedar_switch_3i3o_power.Common.{
  ℕ, ◌<◌, ◌≡◌, refl, ◌≢◌, ◌↔◌, ◌⊎◌, inl, inr, true, List, [], ◌∷◌, All, Any, arith, length,
}
use cedar_switch_3i3o_power.Common.CString.{Bytes, bytes_eq_iff, is_empty-cases}
use cedar_switch_3i3o_power.Auth.State.{Session}
use cedar_switch_3i3o_power.Auth.Session.{check_token_valid}

-- A session in use that has the token and has not expired.
abbrev pub IsFor : ℕ → Bytes → Session → Type 0
IsFor now token s = (s.token ≢ []) × (s.token ≡ token) × (now < s.expires)

abbrev pub IsLive : ℕ → Bytes → List Session → Type 0
IsLive now token = Any (IsFor now token)

abbrev pub IsFresh : Bytes → List Session → Type 0
IsFresh token = All (λ s. s.token ≢ token)

-- No two sessions in use share a token.
abbrev pub IsDistinct : List Session → Type 0
IsDistinct [] = Unit
IsDistinct (s ∷ ss) = ((s.token ≡ []) ⊎ IsFresh s.token ss) × IsDistinct ss

pub check_token_valid_sound :
    (now : ℕ) (token : Bytes) (ss : List Session)
    → (check_token_valid now token ss).0 ≡ true
    → IsLive now token ss
unfolding check_token_valid
check_token_valid_sound now token [] h = cc
check_token_valid_sound now token (s ∷ ss) h =
    ground (arith, bytes_eq_iff s.token token, check_token_valid_sound now token ss)

not-IsLive_of_IsFresh :
    (now : ℕ) (token : Bytes) (ss : List Session) → IsFresh token ss → ¬ IsLive now token ss
not-IsLive_of_IsFresh now token [] h l = l
not-IsLive_of_IsFresh now token (s ∷ ss) (h, hs) (inl l) = h l.1
not-IsLive_of_IsFresh now token (s ∷ ss) (h, hs) (inr l) = not-IsLive_of_IsFresh now token ss hs l

check_token_valid_complete :
    (now : ℕ) (token : Bytes) (ss : List Session)
    → IsDistinct ss
    → IsLive now token ss
    → (check_token_valid now token ss).0 ≡ true
unfolding check_token_valid
check_token_valid_complete now token [] d l = elim l [ ]
check_token_valid_complete now token (s ∷ ss) d (inl l) = ground (arith, bytes_eq_iff s.token token)
check_token_valid_complete now token (s ∷ ss) (inl free, d) (inr l) =
    ground (arith, check_token_valid_complete now token ss d l)
check_token_valid_complete now token (s ∷ ss) (inr fresh, d) (inr l) = ground (
  arith,
  bytes_eq_iff s.token token,
  check_token_valid_complete now token ss d l,
  λ (e : s.token ≡ token). not-IsLive_of_IsFresh now token ss (rw (← e) fresh) l,
)

-- In a table without duplicates a token is valid exactly when it belongs to a session that has
-- not expired.
pub check_token_valid_iff :
    (now : ℕ) (token : Bytes) (ss : List Session)
    → IsDistinct ss
    → ((check_token_valid now token ss).0 ≡ true) ↔ IsLive now token ss
check_token_valid_iff now token ss d =
    (check_token_valid_sound now token ss, check_token_valid_complete now token ss d)

-- A check frees at most an expired session: the live sessions are the same after it, whatever the
-- token and the answer.
pub check_token_valid_keeps :
    (now : ℕ) (token u : Bytes) (ss : List Session)
    → IsLive now u (check_token_valid now token ss).1 ↔ IsLive now u ss
unfolding check_token_valid
check_token_valid_keeps now token u [] = (λ l. l, λ l. l)
check_token_valid_keeps now token u (s ∷ ss) = ground (
  arith,
  bytes_eq_iff s.token token,
  (check_token_valid_keeps now token u ss).0,
  (check_token_valid_keeps now token u ss).1,
)

-- A check frees slots and does nothing else to the table.
pub check_token_valid-IsFresh :
    (now : ℕ) (token u : Bytes) (ss : List Session)
    → u ≢ []
    → IsFresh u ss
    → IsFresh u (check_token_valid now token ss).1
unfolding check_token_valid
check_token_valid-IsFresh now token u [] h f = tt
check_token_valid-IsFresh now token u (s ∷ ss) h (f, fs) =
    ground (arith, check_token_valid-IsFresh now token u ss h fs)

pub check_token_valid-IsDistinct :
    (now : ℕ) (token : Bytes) (ss : List Session)
    → IsDistinct ss
    → IsDistinct (check_token_valid now token ss).1
unfolding check_token_valid
check_token_valid-IsDistinct now token [] d = tt
check_token_valid-IsDistinct now token (s ∷ ss) (inl free, d) =
    ground (arith, check_token_valid-IsDistinct now token ss d)
check_token_valid-IsDistinct now token (s ∷ ss) (inr fresh, d) = elim (is_empty-cases s.token) [
  | inl (_, free) ↦ ground (arith, check_token_valid-IsDistinct now token ss d)
  | inr (_, used) ↦ ground (
    arith,
    check_token_valid-IsDistinct now token ss d,
    check_token_valid-IsFresh now token s.token ss used fresh,
  )
]

pub length-check_token_valid :
    (now : ℕ) (token : Bytes) (ss : List Session)
    → length (check_token_valid now token ss).1 ≡ length ss
unfolding check_token_valid
length-check_token_valid now token [] = refl
length-check_token_valid now token (s ∷ ss) = ground (arith, length-check_token_valid now token ss)
