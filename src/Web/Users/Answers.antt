-- ===== src/Web/Users/Answers.antt =====
-- What the endpoint /api/auth/users (src/web/REST_endpoints/web_user_mgmt.c) answers.
use cedar_switch_3i3o_power.Common.{
  ◌+◌, ◌≤◌, ◌≡◌, refl, ◌∙◌, ap, ◌≢◌, inl, inr, [], ◌∷◌, ◌++◌, arith, length, take_of_length-le,
  length-append,
}
use cedar_switch_3i3o_power.Common.CString.{Bytes, codes, is_empty-cases}
use cedar_switch_3i3o_power.Auth.State.{WebUser}
use cedar_switch_3i3o_power.Auth.Users.{free_user}
use cedar_switch_3i3o_power.Web.Users.{print_at, print_users, users_text}

print_at_fits :
    (text more : Bytes)
    → length text + length more ≤ 255
    → print_at (text, length text) more ≡ (text ++ more, length text + length more)
print_at_fits text more h =
    rw (take_of_length-le (length text) text (omega arith))
      (rw (take_of_length-le 255 (text ++ more) (omega (arith, length-append text more))) refl)

-- The entry that the loop prints for the first user.
abbrev first_entry : Bytes → Bytes
first_entry name = codes ",{\"name\": \"" ++ (name ++ codes "\"}")

abbrev opening : Bytes
opening = codes "{ \"users\": ["

length-first_entry : (name : Bytes) → length (first_entry name) ≡ length name + 13
length-first_entry name = omega (
  arith,
  length-append (codes ",{\"name\": \"") (name ++ codes "\"}"),
  length-append name (codes "\"}"),
)

-- Both branches after the first user end with its entry.
print_first :
    (u : WebUser)
    → u.user ≢ []
    → length u.user ≤ 31
    → print_users (u ∷ free_user ∷ []) (opening, length opening)
      ≡ (opening ++ first_entry u.user, length opening + length (first_entry u.user))
unfolding print_users
print_first u used fits = elim (is_empty-cases u.user) [
  | inl (e, p) ↦ absurd (used p)
  | inr (e, p) ↦
      let len = length-first_entry u.user in
      ground (arith, print_at_fits opening (first_entry u.user) (omega arith))
]

-- A list with one user, in the first slot, is answered with a comma before that user: the text is
-- not JSON.
users_text_comma :
    (u : WebUser)
    → u.user ≢ []
    → length u.user ≤ 31
    → users_text (u ∷ free_user ∷ [])
      ≡ (codes "{ \"users\": [" ++ first_entry u.user) ++ codes "] }"
unfolding users_text
users_text_comma u used fits =
    let len = length-first_entry u.user in
    let total = length-append opening (first_entry u.user) in
    let whole = opening ++ first_entry u.user in
    let count : length opening + length (first_entry u.user) ≡ length whole =
      omega (arith, total) in
    ap (λ out. (print_at out (codes "] }")).0) (print_first u used fits)
    ∙ ap (λ n. (print_at (whole, n) (codes "] }")).0) count
    ∙ ap (λ out. out.0) (print_at_fits whole (codes "] }") (omega (arith, total)))
