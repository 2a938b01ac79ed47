-- ===== src/Web/SafeState.antt =====
-- src/web/REST_endpoints/default_relay_state.c: the endpoint that reads and changes the safe
-- state. The flag of http_settings_status_set_updated (src/web/http_common.c) is part of the
-- state.
pub mod RoundTrip
use cedar_switch_3i3o_power.Common.{
  Bool, true, false, List, ◌++◌, ◌==◌, leb, if◌then◌else◌, length, take, ℤ, pos, negsuc, e_no_mem,
}
use cedar_switch_3i3o_power.Common.CString.{Bytes, codes}
use cedar_switch_3i3o_power.Common.Format.{bool_text}
use cedar_switch_3i3o_power.Bus.{RelaysDefState}
use cedar_switch_3i3o_power.Io.Init.{
  RelayKey, key_enabled, key_relay1, key_relay2, key_relay3, RelaySettings,
}
use cedar_switch_3i3o_power.Web.Http.{
  http_get, http_post, http_delete, http_put, Request, Response, Handled, respond, is_final,
}
use cedar_switch_3i3o_power.Web.Buffer.{
  PostBuffer, aborted, too_large, stored, receive, reset, body,
}
use cedar_switch_3i3o_power.Web.Relays.{invalid_json, format_error}

-- The text of both branches.
unfoldable pub def_text : RelaysDefState → Bytes
def_text def =
    codes "{\"enabled\": "
    ++ (bool_text def.enabled
        ++ (codes ", \"relay1\": "
            ++ (bool_text def.relay1
                ++ (codes ", \"relay2\": "
                    ++ (bool_text def.relay2
                        ++ (codes ", \"relay3\": " ++ (bool_text def.relay3 ++ codes "}")))))))

module _ (st : RelaySettings) where
  -- The handler's static variables, the flag `updated` and the settings.
  pub record SafeRest : Type 0 where
    pub resp_buf : Bytes
    pub post : PostBuffer
    pub updated : Bool
    pub store : st.Store

  -- app_settings_def_relay_state_update: the four return codes are dropped.
  unfoldable pub def_relay_state_update : RelaysDefState → st.Store → st.Store
  def_relay_state_update def s =
      let s1 = (st.save key_enabled def.enabled s).1 in
      let s2 = (st.save key_relay1 def.relay1 s1).1 in
      let s3 = (st.save key_relay2 def.relay2 s2).1 in (st.save key_relay3 def.relay3 s3).1

  -- The four loads into a structure of zeros.
  unfoldable pub def_relay_state_load : st.Store → RelaysDefState
  def_relay_state_load s = record {
    enabled = (st.load key_enabled false s).1;
    relay1 = (st.load key_relay1 false s).1;
    relay2 = (st.load key_relay2 false s).1;
    relay3 = (st.load key_relay3 false s).1;
  }

  -- The status of the response is not set.
  unfoldable pub get_def : Request → Response → SafeRest → Handled SafeRest
  get_def req r s =
      let text = take 255 (def_text (def_relay_state_load s.store)) in
      let buf = if is_final req.status then text else s.resp_buf in
      record {
        rc = pos 0;
        response = record r { body = buf; final_chunk = true };
        state = record s { resp_buf = buf };
      }

  -- `parse` is `json_obj_parse` with the descriptor of the four flags.
  module _ (parse : Bytes → ℤ × RelaysDefState) where
    -- `ret == expected`, with BIT_MASK(4)
    abbrev pub has_four : ℤ → Bool
    has_four (pos n) = n == 15
    has_four (negsuc n) = false

    unfoldable pub finish_def : Response → SafeRest → Handled SafeRest
    finish_def r s =
        let parsed = parse (body s.post) in
        let text = def_text parsed.1 in
        let s' : SafeRest = record s { post = reset s.post; updated = true } in
        let s'' : SafeRest = record s' {
          resp_buf = take 255 text;
          store = def_relay_state_update parsed.1 s.store;
        } in
        if has_four parsed.0
        then (if leb 256 (length text)
            then record { rc = pos 0; response = respond 500 format_error r; state = s'' }
            else record { rc = pos 0; response = respond 200 text r; state = s'' })
        else record { rc = pos 0; response = respond 400 invalid_json r; state = s' }

    unfoldable pub post_def : Request → Response → SafeRest → Handled SafeRest
    unfolding finish_def
    post_def req r s = elim (receive req.status req.chunk s.post) [
      | aborted post ↦ record { rc = pos 0; response = r; state = record s { post = post } }
      | too_large post ↦ record { rc = e_no_mem; response = r; state = record s { post = post } }
      | stored post ↦
          let s' : SafeRest = record s { post = post } in
          if is_final req.status
          then finish_def r s'
          else record { rc = pos 0; response = r; state = s' }
    ]

    unfoldable pub def_relay_state_handler : Request → Response → SafeRest → Handled SafeRest
    unfolding get_def post_def
    def_relay_state_handler req r s = elim req.method [
      | http_get ↦ get_def req r s
      | http_post ↦ post_def req r s
      | http_delete ↦ record { rc = negsuc 0; response = r; state = s }
      | http_put ↦ record { rc = negsuc 0; response = r; state = s }
    ]
