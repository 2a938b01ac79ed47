-- ===== src/Tests/Users.antt =====
-- The endpoint of the users at concrete inputs.
use cedar_switch_3i3o_power.Common.{◌≡◌, refl, none, [], ◌∷◌, ℤ, pos, replicate, arith}
use cedar_switch_3i3o_power.Common.CString.{Bytes, codes, bytes_eq, case_eq, case_eq_n}
use cedar_switch_3i3o_power.Auth.State.{UsersList}
use cedar_switch_3i3o_power.Auth.Users.{calc_password_hash, add_web_user}
use cedar_switch_3i3o_power.Auth.Login.{Header, basic_credentials}
use cedar_switch_3i3o_power.Web.Http.{Request}
use cedar_switch_3i3o_power.Web.Buffer.{receive}
use cedar_switch_3i3o_power.Web.Login.{login_handler}
use cedar_switch_3i3o_power.Web.Login.Cookie.{set_cookie}
use cedar_switch_3i3o_power.Web.Users.{Credentials, UsersRest, web_user_mgmt_handler}
use cedar_switch_3i3o_power.Web.Users.Added.{
  IsBasic, CompletesUser, issued_token, post_user_then_login,
}
use cedar_switch_3i3o_power.Tests.World.{memory, toy, one}
use cedar_switch_3i3o_power.Tests.Auth.{now}
use cedar_switch_3i3o_power.Tests.Login.{fresh, login}

abbrev bob_text : Credentials
bob_text = record { username = codes "bob"; password = codes "builder" }

abbrev parse_bob : Bytes → ℤ × Credentials
parse_bob text = (pos 3, bob_text)

-- A request without any header.
abbrev add_bob : Request
add_bob = record login { headers = []; chunk = codes "{}" }

abbrev rest : UsersRest (memory UsersList)
rest = record { post = record { buff = replicate 8 0; cursor = 0 }; auth = one; store = none }

completes : CompletesUser (memory UsersList) toy parse_bob add_bob rest bob_text
completes = record { is_post = refl; is_last = refl; fits = omega arith; parsed = refl }

added :
    (web_user_mgmt_handler (memory UsersList) toy parse_bob add_bob fresh rest).response.status
    ≡ 200
unfolding web_user_mgmt_handler calc_password_hash bytes_eq receive add_web_user
added = refl

abbrev bob_header : Header
bob_header = record { name = codes "Authorization"; value = codes "Basic bob:builder" }

bob_header-IsBasic : IsBasic toy (codes "bob") (codes "builder") bob_header
unfolding basic_credentials case_eq case_eq_n
bob_header-IsBasic = record { no_cookie = refl; authorization = refl; basic = refl; decoded = refl }

abbrev login_bob : Request
login_bob = record login { headers = bob_header ∷ [] }

post_user_then_login_example :
    ((login_handler toy now [] login_bob fresh
        (web_user_mgmt_handler
          (memory UsersList)
          toy
          parse_bob
          add_bob
          fresh
          rest).state.auth).response.status
      ≡ 200)
    × ((login_handler toy now [] login_bob fresh
          (web_user_mgmt_handler
            (memory UsersList)
            toy
            parse_bob
            add_bob
            fresh
            rest).state.auth).response.headers
        ≡ set_cookie (issued_token toy now (codes "bob")) ∷ [])
post_user_then_login_example =
    post_user_then_login (memory UsersList) toy parse_bob add_bob login_bob fresh fresh rest
      bob_text bob_header now [] completes (omega arith) added refl refl bob_header-IsBasic
