-- ===== src/Tests/Auth.antt =====
-- src/web/authentication.c at concrete inputs.
use cedar_switch_3i3o_power.Common.{
  ◌<◌, ◌≡◌, refl, ◌≢◌, inl, inr, true, false, Option, none, some, List, [], ◌∷◌, Any, arith, pos,
  is_neg, e_io, e_exist, take,
}
use cedar_switch_3i3o_power.Common.CString.{Bytes, codes, bytes_eq}
use cedar_switch_3i3o_power.Auth.State.{UsersList, Session, Auth}
use cedar_switch_3i3o_power.Auth.Session.Lookup.{IsFresh, IsDistinct}
use cedar_switch_3i3o_power.Auth.Users.{
  num_users, add_web_user, delete_web_user, hash_of, calc_password_hash, check_user_credentials,
  free_user,
}
use cedar_switch_3i3o_power.Auth.Users.Access.{IsDistinctNames, add_web_user-Grants}
use cedar_switch_3i3o_power.Auth.Users.Scan.{Grants}
use cedar_switch_3i3o_power.Auth.Users.Changes.{
  delete_web_user_never_last, delete_web_user_locks_out, delete_web_user_first,
  add_web_user_duplicate,
}
use cedar_switch_3i3o_power.Auth.Login.{Header, Moment, authentication}
use cedar_switch_3i3o_power.Auth.Login.Soundness.{Entitles, authentication_sound}
use cedar_switch_3i3o_power.Auth.Login.RoundTrip.{login_then_check}
use cedar_switch_3i3o_power.Auth.Login.Issued.{cookie}
use cedar_switch_3i3o_power.Tests.World.{memory, toy, alice, bob, old_session, one, two}

abbrev pub now : Moment
now = record { now = 1000; random = 1 ∷ 2 ∷ 3 ∷ 4 ∷ [] }

abbrev pub soon : Moment
soon = record { now = 1500; random = [] }

-- "Basic " and the credentials, which the toy decoder takes as they are.
abbrev pub basic : Header
basic = record { name = codes "authorization"; value = codes "basic alice:wonder" }

login_runs : (authentication toy now (basic ∷ []) 128 one).rc ≡ pos 0
unfolding authentication calc_password_hash
login_runs = refl

check_runs : (authentication toy now (cookie (codes "abc") ∷ []) 0 one).rc ≡ pos 0
unfolding authentication
check_runs = refl

pub one-IsDistinct : IsDistinct one.sessions
one-IsDistinct = (
  inr (
    (λ e. cc),
    (
      (λ e. cc),
      ((λ e. cc), ((λ e. cc), ((λ e. cc), ((λ e. cc), ((λ e. cc), ((λ e. cc), ((λ e. cc), tt))))))),
    ),
  ),
  (
    inl refl,
    (
      inl refl,
      (inl refl, (inl refl, (inl refl, (inl refl, (inl refl, (inl refl, (inl refl, tt))))))),
    ),
  ),
)

authentication_sound_example : Any (Entitles toy now 128 one one.sessions) (basic ∷ [])
authentication_sound_example = authentication_sound toy now 128 one (basic ∷ []) login_runs

abbrev pub token : Bytes
token = codes "616c6963655f313030305f3031303230"

pub login_issues : (authentication toy now (basic ∷ []) 128 one).issued ≡ some token
unfolding authentication calc_password_hash
login_issues = refl

pub token_fresh : IsFresh token one.sessions
token_fresh = (
  (λ e. cc),
  (
    (λ e. cc),
    (
      (λ e. cc),
      ((λ e. cc), ((λ e. cc), ((λ e. cc), ((λ e. cc), ((λ e. cc), ((λ e. cc), ((λ e. cc), tt))))))),
    ),
  ),
)

login_then_check_example :
    (authentication toy soon
      (cookie token ∷ [])
      0
      (record one { sessions = (authentication toy now (basic ∷ []) 128 one).sessions })).rc
    ≡ pos 0
login_then_check_example =
    login_then_check toy now soon one (basic ∷ []) token one-IsDistinct (omega arith) token_fresh
      (cc) login_issues (omega arith)

-- Two slots in use: the older one gives way.
abbrev crowded : List Session
crowded = record { expires = 9000; token = codes "late" } ∷ old_session ∷ []

abbrev store : Option UsersList
store = none

add_runs :
    (add_web_user (memory UsersList) toy (some (codes "bob")) (some (codes "builder")) one store).0
    ≡ pos 0
unfolding add_web_user calc_password_hash bytes_eq
add_runs = refl

add_again :
    (add_web_user (memory UsersList) toy (some (codes "alice")) (some (codes "x")) one store).0
    ≡ e_exist
unfolding add_web_user calc_password_hash bytes_eq
add_again = refl

delete_runs : (delete_web_user (memory UsersList) (some (codes "bob")) two store).0 ≡ pos 0
unfolding delete_web_user bytes_eq
delete_runs = refl

add_web_user-Grants_example :
    Grants toy
      (codes "bob")
      (codes "builder")
      one.users.user
      (add_web_user
        (memory UsersList)
        toy
        (some (codes "bob"))
        (some (codes "builder"))
        one
        store).1.users.user
add_web_user-Grants_example =
    add_web_user-Grants (memory UsersList) toy one store (codes "bob") (codes "builder")
      (omega arith) add_runs

one_user : 0 < num_users one.users.user
unfolding num_users
one_user = omega arith

delete_web_user_never_last_example :
    0 < num_users (delete_web_user (memory UsersList) (some (codes "alice")) one store).1.users.user
delete_web_user_never_last_example =
    delete_web_user_never_last (memory UsersList) one store (some (codes "alice")) one_user

two_IsDistinctNames : IsDistinctNames two.users.user
two_IsDistinctNames = (inr ((λ e. cc), tt), (inr tt, tt))

delete_web_user_locks_out_example :
    check_user_credentials toy
      (codes "bob")
      (codes "builder")
      (delete_web_user (memory UsersList) (some (codes "bob")) two store).1.users.user
    ≡ false
delete_web_user_locks_out_example =
    delete_web_user_locks_out (memory UsersList) two store toy (codes "bob") (codes "builder") (cc)
      two_IsDistinctNames delete_runs

delete_web_user_first_example :
    ((delete_web_user (memory UsersList) (some (codes "alice")) two store).0 ≡ e_io)
    × ((delete_web_user (memory UsersList) (some (codes "alice")) two store).1.users.user
        ≡ free_user ∷ bob ∷ [])
    × ((delete_web_user (memory UsersList) (some (codes "alice")) two store).2 ≡ store)
delete_web_user_first_example =
    delete_web_user_first (memory UsersList) two store alice bob (cc) (cc) refl

-- What the call above leaves in memory.
abbrev gap : Auth
gap = record one { users = record { changed = true; user = free_user ∷ bob ∷ [] } }

toy_hashes : is_neg (hash_of toy (codes "x")).0 ≡ false
unfolding calc_password_hash
toy_hashes = refl

add_web_user_duplicate_example :
    ((add_web_user (memory UsersList) toy (some (codes "bob")) (some (codes "x")) gap store).0
      ≢ e_exist)
    × ((add_web_user
          (memory UsersList)
          toy
          (some (codes "bob"))
          (some (codes "x"))
          gap
          store).1.users.user
        ≡ record { user = take 31 (codes "bob"); pass_hash = (hash_of toy (codes "x")).1 }
          ∷ bob
          ∷ [])
add_web_user_duplicate_example =
    add_web_user_duplicate (memory UsersList) gap store toy free_user bob (codes "x") refl (cc) refl
      toy_hashes
