-- ===== src/Tests/World.antt =====
-- Concrete surroundings for the tests: a settings store in memory, and a toy hash and decoder.
use cedar_switch_3i3o_power.Common.{
  refl, false, Option, none, some, [], ◌∷◌, ◌++◌, take, replicate, ℤ, pos, negsuc,
}
use cedar_switch_3i3o_power.Common.CString.{Bytes, codes}
use cedar_switch_3i3o_power.Settings.{Settings}
use cedar_switch_3i3o_power.Auth.State.{WebUser, Session, Auth, Crypto}
use cedar_switch_3i3o_power.Auth.Users.{free_user}

-- One value, or none yet.
abbrev pub read_one {ℓ} : {V : Type ℓ} → V → Option V → ℤ × V
read_one buffer none = (negsuc 1, buffer)
read_one buffer (some v) = (pos 1, v)

abbrev pub memory : (V : Type 0) → Settings (Unit {0}) (λ k. V)
memory V = record {
  Store = Option V;
  load = λ k buffer s. read_one buffer s;
  save = λ k v s. (pos 0, some v);
  load-save = λ k v buffer s h. (refl, refl);
  load-save_ne = λ k j v buffer s h. absurd (h refl);
}

-- A hash that copies the input, and a decoder that changes nothing.
abbrev pub toy : Crypto
toy = record {
  sha256 = λ input buffer. (pos 0, take 32 (input ++ buffer));
  base64_decode = λ input size. some (take size input);
}

abbrev pub hashed : Bytes → Bytes
hashed password = take 32 (password ++ replicate 32 0)

abbrev pub alice : WebUser
alice = record { user = codes "alice"; pass_hash = hashed (codes "wonder") }

abbrev pub bob : WebUser
bob = record { user = codes "bob"; pass_hash = hashed (codes "builder") }

abbrev pub free_session : Session
free_session = record { expires = 0; token = [] }

abbrev pub old_session : Session
old_session = record { expires = 5000; token = codes "abc" }

-- One user and one session.
abbrev pub one : Auth
one = record {
  users = record { changed = false; user = alice ∷ free_user ∷ [] };
  sessions = old_session ∷ replicate 9 free_session;
}

-- Two users.
abbrev pub two : Auth
two = record one { users = record { changed = false; user = alice ∷ bob ∷ [] } }
