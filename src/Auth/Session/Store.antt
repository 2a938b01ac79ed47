-- ===== src/Auth/Session/Store.antt =====
-- What `store_session_token` of src/web/authentication.c writes.
use cedar_switch_3i3o_power.Common.{
  ℕ, zero, suc, ◌+◌, ◌≤◌, ◌<◌, ◌≡◌, refl, ◌≢◌, ◌⊎◌, inl, inr, none, some, List, [], ◌∷◌, All, arith,
  length, get_elem?, set, Option-cases, Bool-cases, ltb, ltb→lt, ap, subst,
}
use cedar_switch_3i3o_power.Common.CString.{Bytes, is_empty-cases}
use cedar_switch_3i3o_power.Auth.State.{Session}
use cedar_switch_3i3o_power.Auth.Session.{
  new_session, store_free, oldest_from, oldest_index, store_session_token,
}

abbrev pub IsUsed : Session → Type 0
IsUsed s = s.token ≢ []

-- `v` stands at `i`, and the table is the old one with the new session in its place.
pub record Writes (now : ℕ) (token : Bytes) (before after : List Session) (i : ℕ) (v : Session)
    : Type 0 where
  pub found : get_elem? before i ≡ some v
  pub written : after ≡ set before i (new_session now token)

store_free-some :
    (now : ℕ) (token : Bytes) (ss ss' : List Session)
    → store_free now token ss ≡ some ss'
    → (i : ℕ) × (v : Session) × Writes now token ss ss' i v × (v.token ≡ [])
unfolding store_free
store_free-some now token [] ss' h = cc
store_free-some now token (s ∷ ss) ss' h = elim (is_empty-cases s.token) [
  | inl (e, free) ↦ (0, s, record { found = refl; written = ground arith }, free)
  | inr (e, used) ↦ elim (Option-cases (store_free now token ss)) [
    | inl n ↦ absurd (ground arith)
    | inr (tail, m) ↦
        let (i, v, w, free) = store_free-some now token ss tail m in
        let written : ss' ≡ s ∷ tail = ground arith in
        (suc i, v, record { found = w.found; written = rw (written, w.written) }, free)
  ]
]

store_free-none :
    (now : ℕ) (token : Bytes) (ss : List Session) → store_free now token ss ≡ none → All IsUsed ss
unfolding store_free
store_free-none now token [] h = tt
store_free-none now token (s ∷ ss) h = elim (is_empty-cases s.token) [
  | inl (e, free) ↦ absurd (ground arith)
  | inr (e, used) ↦ elim (Option-cases (store_free now token ss)) [
    | inl n ↦ (used, store_free-none now token ss n)
    | inr (tail, m) ↦ absurd (ground arith)
  ]
]

All-le_trans :
    (a b : ℕ) (ss : List Session)
    → a ≤ b
    → All (λ s. b ≤ s.expires) ss
    → All (λ s. a ≤ s.expires) ss
All-le_trans a b [] h hs = tt
All-le_trans a b (s ∷ ss) h (k, ks) = (omega arith, All-le_trans a b ss h ks)

-- Either the candidate stays and nothing is older, or an older slot takes its place.
abbrev Older : ℕ → ℕ → ℕ → List Session → ℕ → Type 0
Older i b t ss r =
    ((r ≡ b) × All (λ s. t ≤ s.expires) ss)
    ⊎ ((k : ℕ) × (v : Session) × (r ≡ i + k)
        × (get_elem? ss k ≡ some v)
        × (v.expires < t)
        × All (λ s. v.expires ≤ s.expires) ss)

Older-skip :
    (i b t r : ℕ) (s : Session) (ss : List Session)
    → t ≤ s.expires
    → Older (suc i) b t ss r
    → Older i b t (s ∷ ss) r
Older-skip i b t r s ss h (inl (e, a)) = inl (e, (h, a))
Older-skip i b t r s ss h (inr (k, v, e, g, lt, a)) =
    inr (suc k, v, omega arith, g, lt, (omega arith, a))

Older-take :
    (i b t r : ℕ) (s : Session) (ss : List Session)
    → s.expires < t
    → Older (suc i) i s.expires ss r
    → Older i b t (s ∷ ss) r
Older-take i b t r s ss h (inl (e, a)) = inr (0, s, omega arith, refl, h, (omega arith, a))
Older-take i b t r s ss h (inr (k, v, e, g, lt, a)) =
    inr (suc k, v, omega arith, g, omega arith, (omega arith, a))

oldest_from_lem : (i b t : ℕ) (ss : List Session) → Older i b t ss (oldest_from i b t ss)
unfolding oldest_from
oldest_from_lem i b t [] = inl (refl, tt)
oldest_from_lem i b t (s ∷ ss) = elim (Bool-cases (ltb s.expires t)) [
  | inl e ↦ rw (e) (Older-take i b t _ s ss (ltb→lt _ _ e) (oldest_from_lem (suc i) i s.expires ss))
  | inr e ↦ rw (e) (Older-skip i b t _ s ss (ground arith) (oldest_from_lem (suc i) b t ss))
]

-- The slot that the second loop chooses exists, and no session expires before it.
oldest_index_lem :
    (ss : List Session)
    → 0 < length ss
    → (v : Session) × (get_elem? ss (oldest_index ss) ≡ some v)
      × All (λ s. v.expires ≤ s.expires) ss
unfolding oldest_index
oldest_index_lem [] h = absurd (omega arith)
oldest_index_lem (s ∷ ss) h = elim (oldest_from_lem 1 0 s.expires ss) [
  | inl (e, a) ↦ (s, rw e, (omega arith, a))
  | inr (k, v, e, g, lt, a) ↦
      let g' : get_elem? (s ∷ ss) (suc k) ≡ some v = g in
      (v, subst (λ j. get_elem? (s ∷ ss) j ≡ some v) {x = suc k} (omega arith) g', (omega arith, a))
]

-- A store overwrites exactly one slot: a free one if there is one, and otherwise a session that
-- expires no later than any other.
pub store_session_token_slot :
    (now : ℕ) (token : Bytes) (ss : List Session)
    → 0 < length ss
    → (i : ℕ) × (v : Session) × Writes now token ss (store_session_token now token ss) i v
      × ((v.token ≡ []) ⊎ (All IsUsed ss × All (λ s. v.expires ≤ s.expires) ss))
unfolding store_session_token
store_session_token_slot now token ss h = elim (Option-cases (store_free now token ss)) [
  | inl n ↦
      let (v, g, a) = oldest_index_lem ss h in
      (
        oldest_index ss,
        v,
        record { found = g; written = rw (n, store_session_token) },
        inr (store_free-none now token ss n, a),
      )
  | inr (ss', e) ↦
      let (i, v, w, free) = store_free-some now token ss ss' e in
      (i, v, record { found = w.found; written = rw (e, store_session_token) w.written }, inl free)
]

length-set {ℓ} : {A : Type ℓ} (xs : List A) (i : ℕ) (v : A) → length (set xs i v) ≡ length xs
length-set [] i v = refl
length-set (x ∷ xs) zero v = refl
length-set (x ∷ xs) (suc i) v = ap suc (length-set xs i v)

-- The table keeps its size.
length-store_session_token :
    (now : ℕ) (token : Bytes) (ss : List Session)
    → 0 < length ss
    → length (store_session_token now token ss) ≡ length ss
length-store_session_token now token ss h =
    let (i, v, w, _) = store_session_token_slot now token ss h in
    rw (w.written) (length-set ss i (new_session now token))
