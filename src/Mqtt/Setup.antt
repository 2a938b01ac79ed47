-- ===== src/Mqtt/Setup.antt =====
-- src/mqtt/ha_mqtt.c: `dns_query`, `client_init` and `app_mqtt_ha_client_init`, which prepare the
-- connection to the broker and start the two tasks.
pub mod Connects
use cedar_switch_3i3o_power.Common.{
  ℕ, ◌/◌, ◌%◌, Bool, true, false, Option, none, some, List, [], ◌∷◌, if◌then◌else◌, length, ℤ, pos,
  is_neg,
}
use cedar_switch_3i3o_power.Common.CString.{Bytes}
use cedar_switch_3i3o_power.Settings.{Settings}
use cedar_switch_3i3o_power.Mqtt.Device.{Device, get_device_id}
use cedar_switch_3i3o_power.Web.MqttSettings.{MqttConfig, MqttKey, MqttValue, load_into}

-- A socket address: the family, the port in network byte order and the bytes of the address.
pub record SockAddr : Type 0 where
  pub sa_family : ℕ
  pub sin_port : List ℕ
  pub sin_addr : List ℕ

-- htons: the two bytes of a port, the high one first
abbrev pub htons : ℕ → List ℕ
htons port = port / 256 ∷ port % 256 ∷ []

-- The first result of getaddrinfo.
pub record AddrInfo : Type 0 where
  pub ai_addr : SockAddr
  pub ai_addrlen : ℕ

-- getaddrinfo of a host, for a family and a type of socket: its code and, if that is not negative,
-- the first result.
abbrev pub Lookup : Type 0
Lookup = Bytes → ℕ → ℕ → ℤ × AddrInfo

-- The code, and the caller's variables `addr` and `addrlen` afterwards.
unfoldable pub dns_query : Lookup → Bytes → ℕ → ℕ → ℕ → AddrInfo → ℤ × AddrInfo
dns_query getaddrinfo host port family socktype out =
    let found = getaddrinfo host family socktype in
    let res = found.1 in
    let addr : SockAddr = record res.ai_addr { sin_port = htons port } in
    if is_neg found.0
    then (found.0, out)
    else (pos 0, record { ai_addr = addr; ai_addrlen = res.ai_addrlen })

-- The members of `mqtt_client` that `client_init` writes, but for the callback and the addresses of
-- the buffers. A text and its size are two members; `none` is a NULL pointer.
pub record ClientConfig : Type 0 where
  pub broker : SockAddr
  pub client_id : Option Bytes
  pub client_id_size : ℕ
  pub user_name : Bytes
  pub user_name_size : ℕ
  pub password : Bytes
  pub password_size : ℕ
  pub protocol_version : ℕ
  pub rx_buf_size : ℕ
  pub tx_buf_size : ℕ
  pub is_secure : Bool
  pub tls_sock : ℕ
  pub peer_verify : ℕ
  pub cipher_list : Option (List ℕ)
  pub sec_tag_list : Option (List ℕ)
  pub sec_tag_count : ℕ
  pub hostname : Option Bytes
  pub keepalive : ℕ
  pub clean_session : Bool

abbrev pub app_mqtt_buffer_size : ℕ
app_mqtt_buffer_size = 2048

-- strlen of a pointer that may be NULL, for which the language does not define it
abbrev pub strlen_or : ℕ → Option Bytes → ℕ
strlen_or null_length none = null_length
strlen_or null_length (some text) = length text

-- `tls.sock = tls_config->peer_verify = TLS_PEER_VERIFY_NONE` is one assignment in the source.
-- MQTT_VERSION_3_1_1 is 4 and TLS_PEER_VERIFY_NONE is 0.
unfoldable pub client_init : ℕ → MqttConfig → Device → SockAddr → ClientConfig
client_init null_length sett d addr = record {
  broker = addr;
  client_id = get_device_id d;
  client_id_size = strlen_or null_length (get_device_id d);
  user_name = sett.user;
  user_name_size = length sett.user;
  password = sett.pass;
  password_size = length sett.pass;
  protocol_version = 4;
  rx_buf_size = app_mqtt_buffer_size;
  tx_buf_size = app_mqtt_buffer_size;
  is_secure = true;
  tls_sock = 0;
  peer_verify = 0;
  cipher_list = none;
  sec_tag_list = none;
  sec_tag_count = 0;
  hostname = none;
  keepalive = 30;
  clean_session = true;
}

-- The threads that the program creates for MQTT.
pub data MqttThread : Type 0 where
  mqtt_task_ha ha_task : MqttThread

abbrev pub start_ha_mqtt_task : List MqttThread
start_ha_mqtt_task = ha_task ∷ []

module _ (st : Settings MqttKey MqttValue) where
  -- `mqtt_sett` is the static variable; the threads are in the order of their creation.
  unfoldable pub app_mqtt_ha_client_init : MqttConfig → st.Store → MqttConfig × List MqttThread
  app_mqtt_ha_client_init mqtt_sett s =
      let sett = load_into st mqtt_sett s in
      (sett, if sett.enabled then mqtt_task_ha ∷ start_ha_mqtt_task else [])
