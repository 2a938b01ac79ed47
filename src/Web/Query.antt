-- ===== src/Web/Query.antt =====
-- src/web/http_common.c: `query_get`, the value of a key in the query part of a URL.
pub mod Params
pub mod Lookup
use cedar_switch_3i3o_power.Common.{
  ℕ, zero, suc, ◌+◌, ◌-◌, ◌%◌, ◌^◌, Bool, true, false, ◌&&◌, Option, none, some, List, [], ◌∷◌,
  ◌==◌, leb, if◌then◌else◌, length, take, drop,
}
use cedar_switch_3i3o_power.Common.CString.{Bytes, bytes_eq, strchr}

-- The offset of `amp` from `q`, and the text after it: the end of the text where there is none.
abbrev pub amp_or_end : Bytes → Option (Bytes × Bytes) → ℕ × Bytes
amp_or_end q none = (length q, [])
amp_or_end q (some (before, after)) = (length before, after)

-- (size_t)(amp - (eq + 1)), cut to the size of the buffer
unfoldable pub value_length : ℕ → ℕ → ℕ → ℕ
value_length amp eq out_sz =
    let vlen = (amp + 2 ^ 32 - (eq + 1)) % 2 ^ 32 in if leb out_sz vlen then out_sz - 1 else vlen

-- The loop from `q` on; every round but the last passes a byte, so the length is fuel enough.
unfoldable pub query_loop : ℕ → Bytes → Bytes → ℕ → Option Bytes
query_loop zero q key out_sz = none
query_loop (suc fuel) [] key out_sz = none
query_loop (suc fuel) (c ∷ cs) key out_sz =
    let q : Bytes = c ∷ cs in
    elim (strchr q b'=') [
      | none ↦ none
      | some (before, value) ↦
          let amp = amp_or_end q (strchr q b'&') in
          let next = query_loop fuel amp.1 key out_sz in
          if length before == length key && bytes_eq (take (length key) q) key
          then some (take (value_length amp.0 (length before) out_sz) value)
          else next
    ]

unfoldable pub query_get : Bytes → Bytes → ℕ → Option Bytes
query_get url key out_sz = elim (strchr url b'?') [
  | none ↦ none
  | some (path, q) ↦ query_loop (suc (length q)) q key out_sz
]
