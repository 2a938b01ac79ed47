-- ===== src/Web/Http.antt =====
-- What the HTTP server of the operating system hands to a handler, and what a handler fills in:
-- `http_client_ctx`, `http_data_status`, `http_request_ctx` and `http_response_ctx`.
use cedar_switch_3i3o_power.Common.{ℕ, Bool, true, false, List, ℤ}
use cedar_switch_3i3o_power.Common.CString.{Bytes}
use cedar_switch_3i3o_power.Auth.Login.{Header}

pub data Method : Type 0 where
  http_get http_post http_delete http_put : Method

-- HTTP_SERVER_DATA_ABORTED, _MORE and _FINAL
pub data DataStatus : Type 0 where
  data_aborted data_more data_final : DataStatus

pub record Request : Type 0 where
  pub method : Method
  pub status : DataStatus
  pub url : Bytes
  pub headers : List Header
  pub chunk : Bytes

pub record Response : Type 0 where
  pub status : ℕ
  pub body : Bytes
  pub final_chunk : Bool
  pub headers : List Header

-- The assignments that end a branch: status, body with its length, and final_chunk.
abbrev pub respond : ℕ → Bytes → Response → Response
respond status body r = record r { status = status; body = body; final_chunk = true }

abbrev pub is_final : DataStatus → Bool
is_final data_final = true
is_final data_more = false
is_final data_aborted = false

-- What a handler returns, the response as it leaves it, and its state.
pub record Handled (S : Type 0) : Type 0 where
  pub rc : ℤ
  pub response : Response
  pub state : S
