-- ===== src/Web/Status.antt =====
-- src/web/REST_endpoints/settings_status.c and system_reboot.c: whether a restart is needed, and
-- the restart. The flag is `updated` of src/web/http_common.c.
pub mod Flag
use cedar_switch_3i3o_power.Common.{Bool, true, false, if◌then◌else◌, pos}
use cedar_switch_3i3o_power.Common.CString.{Bytes, codes}
use cedar_switch_3i3o_power.Web.Http.{
  http_get, http_post, http_delete, http_put, Request, Response, Handled, is_final,
}

-- http_settings_status_set_updated and http_settings_status_get
abbrev pub set_updated : Bool → Bool
set_updated updated = true

abbrev pub status_get : Bool → Bool
status_get updated = updated

abbrev pub status_text : Bool → Bytes
status_text true = codes "{\"reboot_required\": true}"
status_text false = codes "{\"reboot_required\": false}"

-- settings_handler_get; the method is not looked at, and the status of the response is not set.
unfoldable pub settings_handler_get : Request → Response → Bool → Handled Bool
settings_handler_get req r updated =
    if is_final req.status
    then record {
      rc = pos 0;
      response = record r { body = status_text (status_get updated); final_chunk = true };
      state = updated;
    }
    else record { rc = pos 0; response = r; state = updated }

-- reboot_handler; the state is whether the device has been told to restart.
unfoldable pub reboot_handler : Request → Response → Bool → Handled Bool
reboot_handler req r restarted = elim req.method [
  | http_post ↦ record {
    rc = pos 0;
    response = r;
    state = if is_final req.status then true else restarted;
  }
  | http_get ↦ record { rc = pos 0; response = r; state = restarted }
  | http_delete ↦ record { rc = pos 0; response = r; state = restarted }
  | http_put ↦ record { rc = pos 0; response = r; state = restarted }
]
