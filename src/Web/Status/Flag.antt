-- ===== src/Web/Status/Flag.antt =====
-- When the endpoint of src/web/REST_endpoints/settings_status.c asks for a restart.
use cedar_switch_3i3o_power.Common.{◌+◌, ◌≤◌, ◌≡◌, true, arith, length, ℤ}
use cedar_switch_3i3o_power.Common.CString.{Bytes}
use cedar_switch_3i3o_power.Bus.{RelaysDefState}
use cedar_switch_3i3o_power.Io.Init.{RelaySettings}
use cedar_switch_3i3o_power.Web.Http.{http_post, data_final, Request, Response}
use cedar_switch_3i3o_power.Web.Buffer.{stored, receive}
use cedar_switch_3i3o_power.Web.Buffer.Collect.{receive_final}
use cedar_switch_3i3o_power.Web.SafeState.{SafeRest, post_def, finish_def, def_relay_state_handler}
use cedar_switch_3i3o_power.Web.Status.{status_text, settings_handler_get}

-- Every last chunk that fits, of a valid body or not, makes the status endpoint ask for a restart.
post_asks_restart :
    (st : RelaySettings) (parse : Bytes → ℤ × RelaysDefState) (req get : Request) (r r' : Response)
    (s : SafeRest st)
    → req.method ≡ http_post
    → req.status ≡ data_final
    → s.post.cursor + length req.chunk ≤ length s.post.buff
    → get.status ≡ data_final
    → (settings_handler_get get r'
        (def_relay_state_handler st parse req r s).state.updated).response.body
      ≡ status_text true
unfolding settings_handler_get def_relay_state_handler post_def finish_def
post_asks_restart st parse req get r r' s p last fits last' =
    let (b', e, _, _, _) = receive_final req.chunk s.post fits in
    let received : receive req.status req.chunk s.post ≡ stored b' = rw (last) e in
    ground (arith, p, last, last')
