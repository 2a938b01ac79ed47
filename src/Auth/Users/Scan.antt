-- ===== src/Auth/Users/Scan.antt =====
-- Whom the scan of `add_web_user` (src/web/authentication.c) lets in.
use cedar_switch_3i3o_power.Common.{
  ℕ, ◌≤◌, ◌≡◌, refl, ◌≢◌, ◌↔◌, ◌⊎◌, inl, inr, true, List, [], ◌∷◌, Any, arith, length, take,
  take_of_length-le, Bool-cases,
}
use cedar_switch_3i3o_power.Common.CString.{Bytes, bytes_eq, bytes_eq_iff, is_empty-cases}
use cedar_switch_3i3o_power.Auth.State.{WebUser, Crypto}
use cedar_switch_3i3o_power.Auth.Users.{
  hash_of, check_user_credentials, AddScan, already, hash_failed, added, no_slot, add_scan,
  DeleteScan, last_user, deleted, not_found, delete_scan, after_user, after_kept, free_user,
}

-- A stored user with that name and the hash of that password.
abbrev pub IsUser : Crypto → Bytes → Bytes → WebUser → Type 0
IsUser c username password u = (u.user ≡ username) × (u.pass_hash ≡ (hash_of c password).1)

-- Credentials are accepted exactly when some slot holds the name and the password's hash.
pub check_user_credentials_iff :
    (c : Crypto) (username password : Bytes) (us : List WebUser)
    → (check_user_credentials c username password us ≡ true) ↔ Any (IsUser c username password) us
unfolding check_user_credentials
check_user_credentials_iff c username password [] = (λ h. cc, λ h. elim h [ ])
check_user_credentials_iff c username password (u ∷ us) = ground (
  arith,
  bytes_eq_iff u.user username,
  bytes_eq_iff u.pass_hash (hash_of c password).1,
  (check_user_credentials_iff c username password us).0,
  (check_user_credentials_iff c username password us).1,
)

after_user-added :
    (u : WebUser) (r : AddScan) (us' : List WebUser)
    → after_user u r ≡ added us'
    → (tail : List WebUser) × (r ≡ added tail) × (us' ≡ u ∷ tail)
after_user-added u (added tail) us' h = (tail, refl, ground arith)
after_user-added u already us' h = cc
after_user-added u hash_failed us' h = cc
after_user-added u no_slot us' h = cc

after_kept-deleted :
    (u : WebUser) (r : DeleteScan) (us' : List WebUser)
    → after_kept u r ≡ deleted us'
    → (tail : List WebUser) × (r ≡ deleted tail) × (us' ≡ u ∷ tail)
after_kept-deleted u (deleted tail) us' h = (tail, refl, ground arith)
after_kept-deleted u last_user us' h = cc
after_kept-deleted u not_found us' h = cc

module _ (c : Crypto) (username password : Bytes) where
  abbrev pub new_user : WebUser
  new_user = record { user = take 31 username; pass_hash = (hash_of c password).1 }

  -- The scan fills this slot, which is free, or goes on past it.
  add_scan_cons :
      (u : WebUser) (us us' : List WebUser)
      → add_scan c username password (u ∷ us) ≡ added us'
      → ((u.user ≡ []) × (us' ≡ new_user ∷ us))
        ⊎ ((u.user ≢ [])
            × (u.user ≢ username)
            × ((tail : List WebUser) × (add_scan c username password us ≡ added tail)
                × (us' ≡ u ∷ tail)))
  unfolding add_scan
  add_scan_cons u us us' h = elim (is_empty-cases u.user) [
    | inl (e, free) ↦ inl (free, ground arith)
    | inr (e, used) ↦ inr (
      used,
      ground (arith, bytes_eq_iff u.user username),
      after_user-added u (add_scan c username password us) us' (ground arith),
    )
  ]

module _ (username : Bytes) where
  -- The scan frees this slot, or goes on past it.
  pub delete_scan_cons :
      (n : ℕ) (u : WebUser) (us us' : List WebUser)
      → delete_scan username n (u ∷ us) ≡ deleted us'
      → ((u.user ≡ username) × (n ≢ 1) × (us' ≡ free_user ∷ us))
        ⊎ ((u.user ≢ username)
            × ((tail : List WebUser) × (delete_scan username n us ≡ deleted tail)
                × (us' ≡ u ∷ tail)))
  unfolding delete_scan
  delete_scan_cons n u us us' h = elim (Bool-cases (bytes_eq u.user username)) [
    | inl e ↦ inl ((bytes_eq_iff u.user username).0 e, ground arith, ground arith)
    | inr e ↦ inr (
      ground (arith, bytes_eq_iff u.user username),
      after_kept-deleted u (delete_scan username n us) us' (ground arith),
    )
  ]

-- What a filled slot means for the credentials of every user.
pub record Grants (c : Crypto) (username password : Bytes) (us us' : List WebUser) : Type 0 where
  pub new : Any (IsUser c username password) us'
  pub keeps : (n p : Bytes) → n ≢ [] → Any (IsUser c n p) us → Any (IsUser c n p) us'
  pub only : (n p : Bytes) → Any (IsUser c n p) us' → Any (IsUser c n p) us ⊎ (n ≡ username)

module _ (c : Crypto) (username password : Bytes) (fits : length username ≤ 31) where
  Grants-here :
      (u : WebUser) (us us' : List WebUser)
      → u.user ≡ []
      → us' ≡ new_user c username password ∷ us
      → Grants c username password (u ∷ us) us'
  Grants-here u us us' free e =
      let name : take 31 username ≡ username = take_of_length-le 31 username fits in
      rw (e) (record {
        new = inl (name, refl);
        keeps =
            λ n p used a. elim a [ inl (same, _) ↦ absurd (used (ground arith)) | inr b ↦ inr b ];
        only = λ n p a. elim a [ inl (same, _) ↦ inr (ground arith) | inr b ↦ inl (inr b) ];
      })

  Grants-there :
      (u : WebUser) (us tail us' : List WebUser)
      → us' ≡ u ∷ tail
      → Grants c username password us tail
      → Grants c username password (u ∷ us) us'
  Grants-there u us tail us' e g = rw (e) (record {
    new = inr g.new;
    keeps = λ n p used a. elim a [ inl b ↦ inl b | inr b ↦ inr (g.keeps n p used b) ];
    only = λ n p a. elim a [
      | inl b ↦ inl (inl b)
      | inr b ↦ elim (g.only n p b) [ inl d ↦ inl (inr d) | inr d ↦ inr d ]
    ];
  })

  pub Grants-add_scan :
      (us us' : List WebUser)
      → add_scan c username password us ≡ added us'
      → Grants c username password us us'
  unfolding add_scan
  Grants-add_scan [] us' h = cc
  Grants-add_scan (u ∷ us) us' h = elim (add_scan_cons c username password u us us' h) [
    | inl (free, e) ↦ Grants-here u us us' free e
    | inr (_, _, (tail, r, e)) ↦ Grants-there u us tail us' e (Grants-add_scan us tail r)
  ]
