-- ===== src/Tests/Login.antt =====
-- The login endpoint at concrete inputs.
use cedar_switch_3i3o_power.Common.{◌≡◌, refl, inl, false, [], ◌∷◌, arith}
use cedar_switch_3i3o_power.Common.CString.{codes}
use cedar_switch_3i3o_power.Auth.Login.Issued.{cookie}
use cedar_switch_3i3o_power.Web.Http.{http_get, http_post, data_final, Request, Response}
use cedar_switch_3i3o_power.Web.Login.{login_handler}
use cedar_switch_3i3o_power.Web.Login.Cookie.{set_cookie, login_cookie_accepted, login_stack_cookie}
use cedar_switch_3i3o_power.Tests.World.{toy, one}
use cedar_switch_3i3o_power.Tests.Auth.{
  now, soon, basic, token, login_issues, one-IsDistinct, token_fresh,
}

abbrev pub fresh : Response
fresh = record { status = 0; body = []; final_chunk = false; headers = [] }

abbrev pub login : Request
login = record {
  method = http_post;
  status = data_final;
  url = codes "/api/login";
  headers = basic ∷ [];
  chunk = [];
}

abbrev check : Request
check = record login { method = http_get; headers = cookie token ∷ [] }

login_cookie_accepted_example :
    ((login_handler toy now [] login fresh one).response.status ≡ 200)
    × ((login_handler toy now [] login fresh one).response.headers ≡ set_cookie token ∷ [])
    × ((login_handler toy soon [] check fresh
          (login_handler toy now [] login fresh one).state).response.status
        ≡ 200)
login_cookie_accepted_example =
    login_cookie_accepted toy now soon [] login check fresh fresh one token one-IsDistinct
      (omega arith) token_fresh (cc) refl login_issues refl refl (omega arith)

abbrev again : Request
again = record login { headers = cookie (codes "abc") ∷ [] }

login_stack_cookie_example :
    ((login_handler toy now (codes "junk") again fresh one).response.status ≡ 200)
    × ((login_handler toy now (codes "junk") again fresh one).response.headers
        ≡ set_cookie (codes "junk") ∷ [])
login_stack_cookie_example =
    login_stack_cookie toy now (codes "junk") again fresh one (codes "abc") refl refl
      ((λ e. cc), ((λ e. cc), ((λ e. cc), tt))) (omega arith) one-IsDistinct
      (inl (cc, refl, omega arith))
