-- ===== src/Web/Relays/Answers.antt =====
-- What a request to /api/relays/state (src/web/REST_endpoints/relays_state.c) does to the relays.
use cedar_switch_3i3o_power.Common.{
  ◌+◌, ◌≤◌, ◌≡◌, ◌∙◌, ap, ◌&&◌, inl, inr, Bool, true, false, ◌++◌, arith, length, length-append,
  take_of_length-le, ℤ, pos,
}
use cedar_switch_3i3o_power.Common.CString.{Bytes, codes}
use cedar_switch_3i3o_power.Bus.{
  OutputsMsg, RelaysDefState, pack_relays, has_bit, has_bit-pack_relays,
}
use cedar_switch_3i3o_power.Io.Task.{Pins, write_relays_once, IoState, Seen, io_round}
use cedar_switch_3i3o_power.Io.Safety.{IsApplied, io_round_disabled}
use cedar_switch_3i3o_power.Web.Http.{http_get, http_post, data_final, Request, Response}
use cedar_switch_3i3o_power.Web.Buffer.{PostBuffer, stored, receive, body}
use cedar_switch_3i3o_power.Web.Buffer.Collect.{receive_final, Received-cases}
use cedar_switch_3i3o_power.Web.Relays.{
  RelaysState, RelaysRest, Locks, relays_state_update, relays_text, get_text, get_relays,
  is_complete, relays_state_handler,
}

length-relays_text :
    (first : Bytes) (r1 r2 r3 : Bool) → length (relays_text first r1 r2 r3) ≤ length first + 60
unfolding relays_text
length-relays_text first true true true = omega (arith, length-append first)
length-relays_text first true true false = omega (arith, length-append first)
length-relays_text first true false true = omega (arith, length-append first)
length-relays_text first true false false = omega (arith, length-append first)
length-relays_text first false true true = omega (arith, length-append first)
length-relays_text first false true false = omega (arith, length-append first)
length-relays_text first false false true = omega (arith, length-append first)
length-relays_text first false false false = omega (arith, length-append first)

get_relays_lem :
    (locks : Locks) (req : Request) (r : Response) (s : RelaysRest)
    → req.status ≡ data_final
    → locks.got_read ≡ true
    → ((get_relays locks req r s).response.status ≡ 200)
      × ((get_relays locks req r s).response.body
          ≡ get_text
              (has_bit s.outputs.state 1)
              (has_bit s.outputs.state 2)
              (has_bit s.outputs.state 4))
unfolding get_relays
get_relays_lem locks req r s fin got =
    let first = codes "{\"relay1\": " in
    let text =
      get_text (has_bit s.outputs.state 1) (has_bit s.outputs.state 2)
        (has_bit s.outputs.state 4) in
    let short : length text ≤ 71 =
      length-relays_text first (has_bit s.outputs.state 1) (has_bit s.outputs.state 2)
        (has_bit s.outputs.state 4) in
    ground (arith, take_of_length-le 255 text)

pins_eq :
    {a b c a' b' c' : Bool}
    → a ≡ a'
    → b ≡ b'
    → c ≡ c'
    → ◌≡◌ {A = Pins}
        (record { relay1 = a; relay2 = b; relay3 = c })
        (record { relay1 = a'; relay2 = b'; relay3 = c' })
pins_eq p q r = λ i. record { relay1 = p i; relay2 = q i; relay3 = r i }

texts_eq : {a b c a' b' c' : Bool} → a ≡ a' → b ≡ b' → c ≡ c' → get_text a b c ≡ get_text a' b' c'
texts_eq p q r = λ i. get_text (p i) (q i) (r i)

get_handler :
    (parse : Bytes → ℤ × RelaysState) (locks : Locks) (req : Request) (r : Response)
    (s : RelaysRest)
    → req.method ≡ http_get
    → relays_state_handler parse locks req r s ≡ get_relays locks req r s
unfolding relays_state_handler
get_handler parse locks req r s m = ground arith

module _ (parse : Bytes → ℤ × RelaysState) (locks : Locks) where
  -- A final chunk that completes a body with all three flags.
  pub record Completes (req : Request) (s : RelaysRest) (tmp : RelaysState) : Type 0 where
    pub is_post : req.method ≡ http_post
    pub is_last : req.status ≡ data_final
    pub fits : s.post.cursor + length req.chunk ≤ length s.post.buff
    pub parsed : parse (body s.post ++ req.chunk) ≡ (pos 7, tmp)

  -- The relays are published, and the buffer is empty for the next request.
  post-Completes :
      (req : Request) (r : Response) (s : RelaysRest) (tmp : RelaysState)
      → Completes req s tmp
      → ((relays_state_handler parse locks req r s).rc ≡ pos 0)
        × ((relays_state_handler parse locks req r s).response.status ≡ 200)
        × ((relays_state_handler parse locks req r s).state.outputs
            ≡ relays_state_update locks tmp s.outputs)
        × ((relays_state_handler parse locks req r s).state.post.cursor ≡ 0)
  unfolding relays_state_handler
  post-Completes req r s tmp c =
      let (b', e, read, _, _) = receive_final req.chunk s.post c.fits in
      let received : receive req.status req.chunk s.post ≡ stored b' = rw (c.is_last) e in
      let answer : parse (body b') ≡ (pos 7, tmp) = rw (read) c.parsed in
      ground (arith, c.is_post, c.is_last)

  -- A chunk that is not the last, an aborted request, a body that is too large and one that lacks
  -- a flag leave the channel alone.
  relays_unchanged :
      (req : Request) (r : Response) (s : RelaysRest)
      → ((b : PostBuffer)
          → receive req.status req.chunk s.post ≡ stored b
          → req.status ≡ data_final
          → is_complete parse (parse (body b)).0 ≡ false)
      → (relays_state_handler parse locks req r s).state.outputs ≡ s.outputs
  unfolding relays_state_handler
  relays_unchanged req r s h = elim (Received-cases (receive req.status req.chunk s.post)) [
    | inl (inl (b, e)) ↦ ground arith
    | inl (inr (b, e)) ↦ ground arith
    | inr (b, e) ↦ ground (arith, h b e)
  ]

  -- The state of the message that the update publishes.
  state-relays_state_update :
      (tmp : RelaysState) (chan : OutputsMsg)
      → locks.got_pub ≡ true
      → (relays_state_update locks tmp chan).state ≡ pack_relays tmp.relay1 tmp.relay2 tmp.relay3
  unfolding relays_state_update
  state-relays_state_update tmp chan gp = ground arith

  -- After a POST that completes a body, a GET that reads the channel shows the relays of that body.
  pub post_then_get :
      (req get : Request) (r r' : Response) (s : RelaysRest) (tmp : RelaysState)
      → Completes req s tmp
      → locks.got_read ≡ true
      → locks.got_pub ≡ true
      → get.method ≡ http_get
      → get.status ≡ data_final
      → (relays_state_handler parse locks get r'
          (relays_state_handler parse locks req r s).state).response.body
        ≡ get_text tmp.relay1 tmp.relay2 tmp.relay3
  post_then_get req get r r' s tmp c gr gp m st =
      let s' = (relays_state_handler parse locks req r s).state in
      let (_, _, out, _) = post-Completes req r s tmp c in
      let state : s'.outputs.state ≡ pack_relays tmp.relay1 tmp.relay2 tmp.relay3 =
        ap (λ o. o.state) out ∙ state-relays_state_update tmp s.outputs gp in
      let (r1, r2, r3, _) = has_bit-pack_relays tmp.relay1 tmp.relay2 tmp.relay3 in
      ap (λ h. h.response.body) (get_handler parse locks get r' s' m)
      ∙ (get_relays_lem locks get r' s' st gr).1
      ∙ rw (state) (texts_eq r1 r2 r3)

  -- A POST that completes a body, and whose publication gets the outputs channel, makes the relay
  -- task set the pins to the relays of that body in its next round that reads the channel, with no
  -- other publication in between, while MQTT or the safe state is disabled.
  pub post_drives_pins :
      (req : Request) (r : Response) (s : RelaysRest) (tmp : RelaysState) (def : RelaysDefState)
      (seen : Seen) (io : IoState)
      → Completes req s tmp
      → locks.got_pub ≡ true
      → IsApplied io
      → (io.mqtt_status_msg.enabled && def.enabled) ≡ false
      → seen.got_outputs ≡ true
      → seen.outputs ≡ (relays_state_handler parse locks req r s).state.outputs
      → (io_round def seen io).pins
        ≡ record { relay1 = tmp.relay1; relay2 = tmp.relay2; relay3 = tmp.relay3 }
  unfolding write_relays_once
  post_drives_pins req r s tmp def seen io c gp applied off got same =
      let (_, _, out, _) = post-Completes req r s tmp c in
      let state : seen.outputs.state ≡ pack_relays tmp.relay1 tmp.relay2 tmp.relay3 =
        ap (λ o. o.state) (same ∙ out) ∙ state-relays_state_update tmp s.outputs gp in
      let (r1, r2, r3, _) = has_bit-pack_relays tmp.relay1 tmp.relay2 tmp.relay3 in
      io_round_disabled def seen io applied off got ∙ ap write_relays_once state ∙ pins_eq r1 r2 r3
