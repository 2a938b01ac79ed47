-- ===== src/Web/Buffer.antt =====
-- The static `post_request_buff` and `cursor` of the handlers that collect a request body, and the
-- block that they all begin a POST with (webui_mkdir.c, relays_state.c, default_relay_state.c,
-- mqtt_settings.c, webui_upload.c and web_user_mgmt.c under src/web/REST_endpoints).
pub mod Collect
use cedar_switch_3i3o_power.Common.{
  ℕ, ◌+◌, Bool, true, false, List, [], ◌∷◌, ◌++◌, ltb, if◌then◌else◌, length, take, drop,
}
use cedar_switch_3i3o_power.Common.CString.{Bytes}
use cedar_switch_3i3o_power.Web.Http.{DataStatus, data_aborted, data_more, data_final}

-- `buff` is the whole array: its length is the array's size.
pub record PostBuffer : Type 0 where
  pub buff : Bytes
  pub cursor : ℕ

-- memcpy(buff + at, bytes, length bytes)
abbrev pub write_at : Bytes → ℕ → Bytes → Bytes
write_at buff at bytes = take at buff ++ (bytes ++ drop (at + length bytes) buff)

-- The block returns, in one of two ways, or goes on with the chunk stored.
pub data Received : Type 0 where
  aborted : PostBuffer → Received
  too_large : PostBuffer → Received
  stored : PostBuffer → Received

abbrev pub reset : PostBuffer → PostBuffer
reset b = record b { cursor = 0 }

abbrev pub store_chunk : Bytes → PostBuffer → Received
store_chunk chunk b =
    if ltb (length b.buff) (length chunk + b.cursor)
    then too_large (reset b)
    else stored (record { buff = write_at b.buff b.cursor chunk; cursor = b.cursor + length chunk })

unfoldable pub receive : DataStatus → Bytes → PostBuffer → Received
receive data_aborted chunk b = aborted (reset b)
receive data_more chunk b = store_chunk chunk b
receive data_final chunk b = store_chunk chunk b

-- What `json_obj_parse(post_request_buff, cursor, …)` reads.
abbrev pub body : PostBuffer → Bytes
body b = take b.cursor b.buff

-- The chunks of a body, one call of the handler each, none of them the last.
unfoldable pub receive_all : List Bytes → PostBuffer → Received
receive_all [] b = stored b
receive_all (chunk ∷ chunks) b = elim (receive data_more chunk b) [
  | stored b' ↦ receive_all chunks b'
  | too_large b' ↦ too_large b'
  | aborted b' ↦ aborted b'
]
