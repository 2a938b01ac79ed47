-- ===== src/Web/Relays.antt =====
-- src/web/REST_endpoints/relays_state.c: the endpoint /api/relays/state.
pub mod Answers
use cedar_switch_3i3o_power.Common.{
  ℕ, ◌+◌, ◌%◌, ◌^◌, Bool, true, false, List, [], ◌∷◌, ◌++◌, ◌==◌, leb, if◌then◌else◌, length, take,
  ℤ, pos, negsuc, e_no_mem,
}
use cedar_switch_3i3o_power.Common.CString.{Bytes, codes}
use cedar_switch_3i3o_power.Common.Format.{bool_text}
use cedar_switch_3i3o_power.Bus.{
  OutputsMsg, outputs_init, chan_read, chan_pub, pack_relays, has_bit,
}
use cedar_switch_3i3o_power.Web.Http.{
  Method, http_get, http_post, http_delete, http_put, DataStatus, Request, Response, Handled,
  respond, is_final,
}
use cedar_switch_3i3o_power.Web.Buffer.{
  PostBuffer, Received, aborted, too_large, stored, receive, reset, body,
}

-- relays_state_t
pub record RelaysState : Type 0 where
  pub relay1 : Bool
  pub relay2 : Bool
  pub relay3 : Bool

-- The handler's static variables, and the outputs channel.
pub record RelaysRest : Type 0 where
  pub resp_buf : Bytes
  pub post : PostBuffer
  pub outputs : OutputsMsg

-- Whether a call gets the channel, for the read and for the publication.
pub record Locks : Type 0 where
  pub got_read : Bool
  pub got_pub : Bool

unfoldable pub relays_state_update : Locks → RelaysState → OutputsMsg → OutputsMsg
unfolding pack_relays
relays_state_update locks state chan =
    let relays_state = chan_read locks.got_read chan outputs_init in
    let message : OutputsMsg = record {
      seq = (relays_state.seq + 1) % 2 ^ 32;
      state = pack_relays state.relay1 state.relay2 state.relay3;
    } in
    chan_pub locks.got_pub message chan

unfoldable pub relays_state_get : Locks → OutputsMsg → ℕ
relays_state_get locks chan = (chan_read locks.got_read chan outputs_init).state

-- The text that follows "relay1" differs between the two branches by a space.
unfoldable pub relays_text : Bytes → Bool → Bool → Bool → Bytes
relays_text first r1 r2 r3 =
    first
    ++ (bool_text r1
        ++ (codes ", \"relay2\": "
            ++ (bool_text r2 ++ (codes ", \"relay3\": " ++ (bool_text r3 ++ codes " }")))))

abbrev pub get_text : Bool → Bool → Bool → Bytes
get_text = relays_text (codes "{\"relay1\": ")

abbrev pub post_text : Bool → Bool → Bool → Bytes
post_text = relays_text (codes "{\"relay1\":")

abbrev pub invalid_json : Bytes
invalid_json = codes "{\"error\":\"invalid json or missing fields\"}"

abbrev pub format_error : Bytes
format_error = codes "{\"error\":\"format\"}"

unfoldable pub get_relays : Locks → Request → Response → RelaysRest → Handled RelaysRest
unfolding relays_state_get
get_relays locks req r s =
    let state = relays_state_get locks s.outputs in
    let text = get_text (has_bit state 1) (has_bit state 2) (has_bit state 4) in
    let s' : RelaysRest = record s { resp_buf = take 255 text } in
    if is_final req.status
    then (if leb 256 (length text)
        then record { rc = pos 0; response = respond 500 format_error r; state = s' }
        else record { rc = pos 0; response = respond 200 (take 255 text) r; state = s' })
    else record { rc = pos 0; response = r; state = s }

-- `parse` is `json_obj_parse` with the descriptor of the three flags: it returns a mask of the
-- fields that it found, or an error below 0, and the structure.
module _ (parse : Bytes → ℤ × RelaysState) where
  -- `ret != expected`, with BIT_MASK(3)
  abbrev pub is_complete : ℤ → Bool
  is_complete (pos n) = n == 7
  is_complete (negsuc n) = false

  -- The final chunk is in the buffer.
  unfoldable pub finish_post : Locks → Response → RelaysRest → Handled RelaysRest
  finish_post locks r s =
      let parsed = parse (body s.post) in
      let tmp = parsed.1 in
      let text = post_text tmp.relay1 tmp.relay2 tmp.relay3 in
      let s' : RelaysRest = record s { post = reset s.post } in
      if is_complete parsed.0
      then record {
        rc = pos 0;
        response = respond 200 text r;
        state = record s' {
          resp_buf = take 255 text;
          outputs = relays_state_update locks tmp s.outputs;
        };
      }
      else record { rc = pos 0; response = respond 400 invalid_json r; state = s' }

  unfoldable pub post_relays : Locks → Request → Response → RelaysRest → Handled RelaysRest
  unfolding finish_post
  post_relays locks req r s = elim (receive req.status req.chunk s.post) [
    | aborted post ↦ record { rc = pos 0; response = r; state = record s { post = post } }
    | too_large post ↦ record { rc = e_no_mem; response = r; state = record s { post = post } }
    | stored post ↦
        let s' : RelaysRest = record s { post = post } in
        if is_final req.status
        then finish_post locks r s'
        else record { rc = pos 0; response = r; state = s' }
  ]

  unfoldable pub relays_state_handler : Locks → Request → Response → RelaysRest → Handled RelaysRest
  unfolding get_relays post_relays
  relays_state_handler locks req r s = elim req.method [
    | http_get ↦ get_relays locks req r s
    | http_post ↦ post_relays locks req r s
    | http_delete ↦ record { rc = negsuc 0; response = r; state = s }
    | http_put ↦ record { rc = negsuc 0; response = r; state = s }
  ]
