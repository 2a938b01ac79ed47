-- ===== src/Auth/Users/Access.antt =====
-- Who may log in before and after the calls of src/web/authentication.c that change the users.
use cedar_switch_3i3o_power.Common.{
  ℕ, ◌≤◌, ◌≡◌, sym, ◌≢◌, ◌⊎◌, inl, inr, some, List, [], ◌∷◌, All, Any, arith, length, pos,
}
use cedar_switch_3i3o_power.Common.CString.{Bytes}
use cedar_switch_3i3o_power.Auth.State.{WebUser, Auth, Crypto}
use cedar_switch_3i3o_power.Auth.Users.{
  UserSettings, added, add_scan, deleted, delete_scan, num_users, free_user, add_web_user,
  delete_web_user,
}
use cedar_switch_3i3o_power.Auth.Users.Scan.{IsUser, delete_scan_cons, Grants-add_scan, Grants}

-- No two used slots hold one name.
abbrev pub IsDistinctNames : List WebUser → Type 0
IsDistinctNames [] = Unit
IsDistinctNames (u ∷ us) = ((u.user ≡ []) ⊎ All (λ v. v.user ≢ u.user) us) × IsDistinctNames us

-- What a freed slot means for the credentials of every user.
pub record Revokes (username : Bytes) (us us' : List WebUser) : Type 0 where
  pub gone : All (λ u. u.user ≢ username) us'
  pub keeps :
      (c : Crypto) (n p : Bytes) → n ≢ username → Any (IsUser c n p) us → Any (IsUser c n p) us'
  pub only : (c : Crypto) (n p : Bytes) → n ≢ [] → Any (IsUser c n p) us' → Any (IsUser c n p) us

module _ (username : Bytes) (used : username ≢ []) where
  Revokes-here :
      (u : WebUser) (us us' : List WebUser)
      → u.user ≡ username
      → All (λ v. v.user ≢ u.user) us
      → us' ≡ free_user ∷ us
      → Revokes username (u ∷ us) us'
  Revokes-here u us us' name others e = rw (e) (record {
    gone = (λ h. used (sym h), rw (name) at others);
    keeps = λ c n p ne a. elim a [ inl (same, _) ↦ absurd (ne (ground arith)) | inr b ↦ inr b ];
    only = λ c n p ne a. elim a [ inl (same, _) ↦ absurd (ne (sym same)) | inr b ↦ inr b ];
  })

  Revokes-there :
      (u : WebUser) (us tail us' : List WebUser)
      → u.user ≢ username
      → us' ≡ u ∷ tail
      → Revokes username us tail
      → Revokes username (u ∷ us) us'
  Revokes-there u us tail us' ne e g = rw (e) (record {
    gone = (ne, g.gone);
    keeps = λ c n p other a. elim a [ inl b ↦ inl b | inr b ↦ inr (g.keeps c n p other b) ];
    only = λ c n p other a. elim a [ inl b ↦ inl b | inr b ↦ inr (g.only c n p other b) ];
  })

  Revokes-delete_scan :
      (n : ℕ) (us us' : List WebUser)
      → IsDistinctNames us
      → delete_scan username n us ≡ deleted us'
      → Revokes username us us'
  unfolding delete_scan
  Revokes-delete_scan n [] us' d h = cc
  Revokes-delete_scan n (u ∷ us) us' (d, ds) h = elim (delete_scan_cons username n u us us' h) [
    | inl (name, _, e) ↦ elim d [
      | inl free ↦ absurd (used (ground arith))
      | inr others ↦ Revokes-here u us us' name others e
    ]
    | inr (ne, (tail, r, e)) ↦ Revokes-there u us tail us' ne e (Revokes-delete_scan n us tail ds r)
  ]

pub not-Any-IsUser :
    (c : Crypto) (n p : Bytes) (us : List WebUser)
    → All (λ u. u.user ≢ n) us
    → ¬ Any (IsUser c n p) us
not-Any-IsUser c n p [] g a = a
not-Any-IsUser c n p (u ∷ us) g (inl (e, _)) = g.0 e
not-Any-IsUser c n p (u ∷ us) g (inr a) = not-Any-IsUser c n p us g.1 a

module _ (st : UserSettings) (c : Crypto) (a : Auth) (s : st.Store) (username : Bytes) where
  add_web_user-added :
      (password : Bytes)
      → (add_web_user st c (some username) (some password) a s).0 ≡ pos 0
      → add_scan c username password a.users.user
        ≡ added (add_web_user st c (some username) (some password) a s).1.users.user
  unfolding add_web_user
  add_web_user-added password h = ground arith

  delete_web_user-deleted :
      (delete_web_user st (some username) a s).0 ≡ pos 0
      → delete_scan username (num_users a.users.user) a.users.user
        ≡ deleted (delete_web_user st (some username) a s).1.users.user
  unfolding delete_web_user
  delete_web_user-deleted h = ground arith

  -- After a successful call the new user may log in, every user who could still can, and nobody
  -- else, for a name of at most 31 bytes.
  pub add_web_user-Grants :
      (password : Bytes)
      → length username ≤ 31
      → (add_web_user st c (some username) (some password) a s).0 ≡ pos 0
      → Grants c username password a.users.user
          (add_web_user st c (some username) (some password) a s).1.users.user
  add_web_user-Grants password fits h =
      Grants-add_scan c username password fits a.users.user _ (add_web_user-added password h)

  -- After a successful call no password opens the deleted account, and the accounts of the other
  -- users are as before, where names are distinct.
  pub delete_web_user-Revokes :
      username ≢ []
      → IsDistinctNames a.users.user
      → (delete_web_user st (some username) a s).0 ≡ pos 0
      → Revokes username a.users.user (delete_web_user st (some username) a s).1.users.user
  delete_web_user-Revokes used d h =
      Revokes-delete_scan username used (num_users a.users.user) a.users.user _ d
        (delete_web_user-deleted h)
