-- ===== src/Auth/Users/Changes.antt =====
-- What the calls of src/web/authentication.c that change the users leave in memory and in the
-- settings.
use cedar_switch_3i3o_power.Common.{
  ℕ, ◌+◌, ◌≤◌, ◌<◌, ◌≡◌, refl, sym, ◌≢◌, ◌⊎◌, inl, inr, true, false, Option, none, some, List, [],
  ◌∷◌, arith, take, pos, is_neg, is_pos, e_io, e_exist, ◌∙◌, Bool-cases,
}
use cedar_switch_3i3o_power.Common.CString.{Bytes, bytes_eq, bytes_eq_iff, is_empty-cases}
use cedar_switch_3i3o_power.Auth.State.{WebUser, UsersList, Auth, Crypto}
use cedar_switch_3i3o_power.Auth.Users.{
  UserSettings, hash_of, check_user_credentials, AddScan, already, hash_failed, added, no_slot,
  add_scan, DeleteScan, last_user, deleted, not_found, delete_scan, num_users, free_user,
  update_users, finish_update, add_web_user, delete_web_user,
}
use cedar_switch_3i3o_power.Auth.Users.Access.{
  IsDistinctNames, delete_web_user-Revokes, not-Any-IsUser,
}
use cedar_switch_3i3o_power.Auth.Users.Scan.{delete_scan_cons, check_user_credentials_iff}

num_users-delete_scan :
    (username : Bytes) (us us' : List WebUser) (n : ℕ)
    → delete_scan username n us ≡ deleted us'
    → num_users us ≤ num_users us' + 1
unfolding num_users delete_scan
num_users-delete_scan username [] us' n h = cc
num_users-delete_scan username (u ∷ us) us' n h = elim (delete_scan_cons username n u us us' h) [
  | inl (name, _, e) ↦ rw (e) (ground arith)
  | inr (ne, (tail, r, e)) ↦ rw (e) (ground (arith, num_users-delete_scan username us tail n r))
]

deleted-ne-one :
    (username : Bytes) (us us' : List WebUser) (n : ℕ)
    → delete_scan username n us ≡ deleted us'
    → n ≢ 1
unfolding delete_scan
deleted-ne-one username [] us' n h = cc
deleted-ne-one username (u ∷ us) us' n h = elim (delete_scan_cons username n u us us' h) [
  | inl (name, ne, e) ↦ ne
  | inr (ne, (tail, r, e)) ↦ deleted-ne-one username us tail n r
]

DeleteScan-cases :
    (r : DeleteScan)
    → ((r ≡ last_user) ⊎ (r ≡ not_found)) ⊎ ((us : List WebUser) × (r ≡ deleted us))
DeleteScan-cases last_user = inl (inl refl)
DeleteScan-cases not_found = inl (inr refl)
DeleteScan-cases (deleted us) = inr (us, refl)

AddScan-cases :
    (r : AddScan)
    → (((r ≡ already) ⊎ (r ≡ hash_failed)) ⊎ (r ≡ no_slot)) ⊎ ((us : List WebUser) × (r ≡ added us))
AddScan-cases already = inl (inl (inl refl))
AddScan-cases hash_failed = inl (inl (inr refl))
AddScan-cases no_slot = inl (inr refl)
AddScan-cases (added us) = inr (us, refl)

module _ (st : UserSettings) (buffer : UsersList) where
  -- The list in the settings is this one: loading it, into the buffer, gives it.
  abbrev pub IsStored : UsersList → st.Store → Type 0
  IsStored l s = (is_pos (st.load tt buffer s).0 ≡ true) × ((st.load tt buffer s).1 ≡ l)

  finish_update-IsStored :
      (a : Auth) (s : st.Store)
      → (finish_update st a s).0 ≡ pos 0
      → IsStored (finish_update st a s).1.users (finish_update st a s).2
  unfolding update_users
  finish_update-IsStored a s h = ground (arith, st.load-save tt a.users buffer s)

  -- A call that adds a user and returns 0 has saved the list that it leaves in memory.
  add_web_user_persists :
      (a : Auth) (s : st.Store) (c : Crypto) (username password : Option Bytes)
      → (add_web_user st c username password a s).0 ≡ pos 0
      → IsStored
          (add_web_user st c username password a s).1.users
          (add_web_user st c username password a s).2
  unfolding add_web_user
  add_web_user_persists a s c none password h = cc
  add_web_user_persists a s c (some username) none h = cc
  add_web_user_persists a s c (some username) (some password) h =
      elim (AddScan-cases (add_scan c username password a.users.user)) [
        | inl e ↦ ground arith
        | inr (us, e) ↦
            rw (e, add_web_user)
              (finish_update-IsStored (record a { users = record a.users { user = us } }) s
                (rw (e, add_web_user) at h))
      ]

  -- So has a call that deletes a user and returns 0.
  delete_web_user_persists :
      (a : Auth) (s : st.Store) (username : Option Bytes)
      → (delete_web_user st username a s).0 ≡ pos 0
      → IsStored (delete_web_user st username a s).1.users (delete_web_user st username a s).2
  unfolding delete_web_user
  delete_web_user_persists a s none h = cc
  delete_web_user_persists a s (some username) h =
      elim (DeleteScan-cases (delete_scan username (num_users a.users.user) a.users.user)) [
        | inl e ↦ ground arith
        | inr (us, e) ↦
            rw (e, delete_web_user)
              (finish_update-IsStored (record a { users = record { changed = true; user = us } }) s
                (rw (e, delete_web_user) at h))
      ]

module _ (st : UserSettings) (a : Auth) (s : st.Store) where
  -- Whatever the call answers, an account is left if there was one.
  pub delete_web_user_never_last :
      (username : Option Bytes)
      → 0 < num_users a.users.user
      → 0 < num_users (delete_web_user st username a s).1.users.user
  unfolding delete_web_user
  delete_web_user_never_last none h = h
  delete_web_user_never_last (some username) h =
      elim (DeleteScan-cases (delete_scan username (num_users a.users.user) a.users.user)) [
        | inl e ↦ ground arith
        | inr (us, e) ↦ ground (
          arith,
          num_users-delete_scan username a.users.user us _ e,
          deleted-ne-one username a.users.user us _ e,
        )
      ]

  -- An answer other than 0 and -EIO means that nothing has changed.
  add_web_user_refused :
      (c : Crypto) (username password : Option Bytes)
      → (add_web_user st c username password a s).0 ≢ pos 0
      → (add_web_user st c username password a s).0 ≢ e_io
      → ((add_web_user st c username password a s).1 ≡ a)
        × ((add_web_user st c username password a s).2 ≡ s)
  unfolding add_web_user
  add_web_user_refused c none password h k = (refl, refl)
  add_web_user_refused c (some username) none h k = (refl, refl)
  add_web_user_refused c (some username) (some password) h k = ground arith

  -- After a successful call the deleted user cannot log in, whatever the password, where names
  -- are distinct.
  pub delete_web_user_locks_out :
      (c : Crypto) (username password : Bytes)
      → username ≢ []
      → IsDistinctNames a.users.user
      → (delete_web_user st (some username) a s).0 ≡ pos 0
      → check_user_credentials c username password
          (delete_web_user st (some username) a s).1.users.user
        ≡ false
  delete_web_user_locks_out c username password used d h =
      let r = delete_web_user-Revokes st c a s username used d h in
      elim (Bool-cases (check_user_credentials c username password _)) [
        | inl e ↦ absurd (
            not-Any-IsUser c username password _ r.gone
              ((check_user_credentials_iff c username password _).0 e))
        | inr e ↦ e
      ]

  -- With two users, the call for the one in slot 0 fails with -EIO, because the list that it would
  -- save begins with a free slot: the settings keep the user, and memory has lost it.
  pub delete_web_user_first :
      (u v : WebUser)
      → u.user ≢ []
      → v.user ≢ []
      → a.users.user ≡ u ∷ v ∷ []
      → ((delete_web_user st (some u.user) a s).0 ≡ e_io)
        × ((delete_web_user st (some u.user) a s).1.users.user ≡ free_user ∷ v ∷ [])
        × ((delete_web_user st (some u.user) a s).2 ≡ s)
  unfolding delete_web_user
  delete_web_user_first u v hu hv e = elim (is_empty-cases u.user) [
    | inl (_, f) ↦ absurd (hu f)
    | inr (eu, _) ↦ elim (is_empty-cases v.user) [
      | inl (_, f) ↦ absurd (hv f)
      | inr (ev, _) ↦ ground (arith, bytes_eq_iff u.user u.user)
    ]
  ]

  -- With slot 0 free, the call adds a name that slot 1 already holds, instead of answering -EEXIST.
  pub add_web_user_duplicate :
      (c : Crypto) (u v : WebUser) (password : Bytes)
      → u.user ≡ []
      → v.user ≢ []
      → a.users.user ≡ u ∷ v ∷ []
      → is_neg (hash_of c password).0 ≡ false
      → ((add_web_user st c (some v.user) (some password) a s).0 ≢ e_exist)
        × ((add_web_user st c (some v.user) (some password) a s).1.users.user
            ≡ record { user = take 31 v.user; pass_hash = (hash_of c password).1 } ∷ v ∷ [])
  unfolding add_web_user
  add_web_user_duplicate c u v password hu hv e hh = elim (Bool-cases (bytes_eq u.user v.user)) [
    | inl k ↦ absurd (hv (sym ((bytes_eq_iff u.user v.user).0 k) ∙ hu))
    | inr k ↦ ground arith
  ]
