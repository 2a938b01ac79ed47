-- ===== src/Tests/SafeState.antt =====
-- The endpoint of the safe state at concrete inputs.
use cedar_switch_3i3o_power.Common.{◌≡◌, refl, ◌≢◌, Bool, true, false, [], arith, replicate, ℤ, pos}
use cedar_switch_3i3o_power.Common.CString.{Bytes, codes}
use cedar_switch_3i3o_power.Bus.{RelaysDefState}
use cedar_switch_3i3o_power.Io.Init.{
  RelayKey, key_enabled, key_relay1, key_relay2, key_relay3, RelaySettings,
}
use cedar_switch_3i3o_power.Web.Http.{http_get, Request}
use cedar_switch_3i3o_power.Web.SafeState.{SafeRest}
use cedar_switch_3i3o_power.Web.SafeState.RoundTrip.{Accepts, CompletesDef}
use cedar_switch_3i3o_power.Tests.Login.{login}

-- Four cells in memory, the first of them for `enabled`.
abbrev pub Cells : Type 0
Cells = Bool × Bool × Bool × Bool

abbrev pub read_cell : RelayKey → Cells → Bool
read_cell key_enabled s = s.0
read_cell key_relay1 s = s.1
read_cell key_relay2 s = s.2
read_cell key_relay3 s = s.3

abbrev pub write_cell : RelayKey → Bool → Cells → Cells
write_cell key_enabled v (e, a, b, c) = (v, a, b, c)
write_cell key_relay1 v (e, a, b, c) = (e, v, b, c)
write_cell key_relay2 v (e, a, b, c) = (e, a, v, c)
write_cell key_relay3 v (e, a, b, c) = (e, a, b, v)

pub read_written : (k : RelayKey) (v : Bool) (s : Cells) → read_cell k (write_cell k v s) ≡ v
read_written key_enabled v s = refl
read_written key_relay1 v s = refl
read_written key_relay2 v s = refl
read_written key_relay3 v s = refl

pub read_other :
    (k j : RelayKey) (v : Bool) (s : Cells) → j ≢ k → read_cell j (write_cell k v s) ≡ read_cell j s
read_other key_enabled key_enabled v s ne = absurd (ne refl)
read_other key_enabled key_relay1 v s ne = refl
read_other key_enabled key_relay2 v s ne = refl
read_other key_enabled key_relay3 v s ne = refl
read_other key_relay1 key_enabled v s ne = refl
read_other key_relay1 key_relay1 v s ne = absurd (ne refl)
read_other key_relay1 key_relay2 v s ne = refl
read_other key_relay1 key_relay3 v s ne = refl
read_other key_relay2 key_enabled v s ne = refl
read_other key_relay2 key_relay1 v s ne = refl
read_other key_relay2 key_relay2 v s ne = absurd (ne refl)
read_other key_relay2 key_relay3 v s ne = refl
read_other key_relay3 key_enabled v s ne = refl
read_other key_relay3 key_relay1 v s ne = refl
read_other key_relay3 key_relay2 v s ne = refl
read_other key_relay3 key_relay3 v s ne = absurd (ne refl)

abbrev pub cells : RelaySettings
cells = record {
  Store = Cells;
  load = λ k buffer s. (pos 1, read_cell k s);
  save = λ k v s. (pos 0, write_cell k v s);
  load-save = λ k v buffer s h. (refl, read_written k v s);
  load-save_ne = λ k j v buffer s h i. (pos 1, read_other k j v s h i);
}

pub cells_accept : Accepts cells
cells_accept k v s = refl

abbrev pub def : RelaysDefState
def = record { enabled = true; relay1 = false; relay2 = true; relay3 = false }

-- A parser that finds `def` in every text.
abbrev pub parse_def : Bytes → ℤ × RelaysDefState
parse_def text = (pos 15, def)

abbrev pub safe_rest : SafeRest cells
safe_rest = record {
  resp_buf = [];
  post = record { buff = replicate 8 0; cursor = 0 };
  updated = false;
  store = (false, false, false, false);
}

abbrev pub post : Request
post = record login { chunk = codes "{}" }

abbrev pub get : Request
get = record post { method = http_get }

pub completes : CompletesDef cells parse_def post safe_rest def
completes = record { is_post = refl; is_last = refl; fits = omega arith; parsed = refl }
