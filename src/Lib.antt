-- ===== src/Lib.antt =====
-- Firmware of a relay switch: web accounts and sessions, the HTTP endpoints, the relay task and
-- the MQTT client.
--
-- The firmware runs on an operating system (Zephyr), whose HTTP server calls one handler for each
-- endpoint. The login handler checks the request's headers against a table of users and a table
-- of sessions; the others change users and settings, write files, and publish the wanted relays
-- on a channel. A task reads the channel four times a second and drives three pins; with a lost
-- MQTT connection it applies a safe state. The MQTT client announces the inputs and the relays to
-- a home automation server, reports their states, and turns commands into messages on the same
-- channel. At a start main mounts the disk and makes the threads ready, and each new address
-- starts the HTTP server and the MQTT client; a diagnostic thread prints the network statistics.
--
-- The parts, with the files that model them:
-- - Common (Tests, Lists, Ints, CString, Format): tests, lists, the integers, the C string
--   functions and the printf and strtol conversions that the code uses.
-- - Settings: the settings subsystem as an interface, with what a load after a save gives.
-- - Auth (State, Session, Users, Login): src/web/authentication.c. `Auth` holds the file's two
--   static variables; `check_token_valid`, `store_session_token`, `add_web_user`,
--   `delete_web_user`, `authentication` and the others have the functions' names and return the
--   new state. The clock and the random numbers of a call are its argument `Moment`; SHA-256 and
--   the base64 decoder are `Crypto`.
-- - Bus: src/zbus_topics.h and src/zbus_topics.c. A channel is its message; a call that does not
--   get the channel's lock changes nothing.
-- - Io (Task, Init, Safety): src/io/io.c. A round of `io_task` is `io_round`; what the other
--   threads do between two rounds is what the round sees.
-- - Web.Http: the request and the response, and what a handler returns.
-- - Web.Buffer: the collection of a request's body, which all POST handlers share.
-- - Web.Relays and Web.Users: src/web/REST_endpoints/relays_state.c and web_user_mgmt.c.
-- - Web.Path, Web.Query and Web.Upload: src/web/http_common.c and
--   src/web/REST_endpoints/webui_upload.c.
-- - Web.Login, Web.SafeState, Web.MqttSettings, Web.Mkdir and Web.Status: the files login.c,
--   default_relay_state.c, mqtt_settings.c, webui_mkdir.c, settings_status.c and system_reboot.c
--   of src/web/REST_endpoints. The array that login.c does not initialise is an argument,
--   `stack`.
-- - Littlefs.Walk: src/littlefs/filesystem_helpers.c, on a file system that is a parameter.
-- - Web.Delete: src/web/REST_endpoints/webui_delete.c.
-- - Mqtt.Queue and Mqtt.Adapter: src/mqtt/ha_mqtt_adapter.c, with the queue of outgoing messages.
--   mqtt_publish and mqtt_subscribe are parameters.
-- - Mqtt.Device, Mqtt.Topics, Mqtt.Payloads and Mqtt.Incoming: src/mqtt/ha_mqtt_helpers.c.
--   `Device` holds the file's two static strings; the functions return their code and the text
--   left in the buffer.
-- - Mqtt.Report and Mqtt.Task: src/mqtt/ha_task.c. A round of the inner loop of `ha_mqtt_task` is
--   `ha_round`; the two blocks for inputs and relays share `report_changes`.
-- - Mqtt.Setup and Mqtt.Client: src/mqtt/ha_mqtt.c. Mqtt.Setup holds `dns_query`, `client_init`
--   and `app_mqtt_ha_client_init`; a round of the inner loop of `mqtt_task` is `client_round`, a
--   pass of its outer loop `mqtt_task_pass` (Mqtt.Client.Passes); the library's calls are
--   `Library`.
-- - Mqtt.Task.Room: the calls of `ha_mqtt_task` that wait for room in the queue
--   (src/msgq_topiks.c).
-- - Mqtt.Task.Session: the outer loop of `ha_mqtt_task`, of which a pass is `ha_session`.
-- - Mqtt.Broker: what the library has accepted for the broker from the two tasks together, which
--   share the queue.
-- - Mqtt.Packet: a packet of the broker on its way through the handler, the queue, the reporting
--   task and the outputs channel to the relay task.
-- - Mqtt.Events: src/mqtt/ha_mqtt_callback.c. `Client` holds what the handler reads and writes,
--   and mqtt_read_publish_payload is a parameter.
-- - Start (Files, Main, Network): src/main.c, src/littlefs/littlefs_mount.c, src/test_functions.c
--   and src/web/http_server_init.c. `main` gives the settings, the safe state, the disk and the
--   calls that start something; `ipv4_addr_add_handler` starts the network services.
-- - Diag (Stats, Print, Report, Control): src/diagnostic/diag_report.c. A line of the log is its
--   format with its arguments; `Diag` holds the flag and the number of threads.
-- - Tests: the theorems at concrete inputs.
--
-- Numbers of w bits wrap: the expiry of a session and the sequence number of a message are
-- written modulo 2 ^ 32, the identifier of an MQTT message modulo 2 ^ 16. Four loops run on fuel:
-- `sane_loop` and `query_loop` with one more than the length of the text, which every round
-- shortens; `read_loop` and `drain_loop` with one more than the bytes that they may read, of
-- which every round but the last reads one. The walks over directories, `delete_walk` and
-- `size_walk`, take one unit for each round and each call, and give `none` where it is not
-- enough; for a directory of files the number of files and two are enough.
--
-- Strings are lists of codes without the final NUL. `json_obj_parse`, the file system, the
-- settings and the cryptographic functions are parameters, and so are the name service, the MQTT
-- library, the network statistics and the drivers. Not modelled: the tables of the HTTP server
-- (src/web/static_resources.c), src/display/display.c, which holds a comment, the texts of the
-- log but for the diagnostic report, and threads that preempt a handler in the middle of a call.
-- Every loop of a task is a list of its rounds, with what each of them finds.
pub mod Common
pub mod Settings
pub mod Auth
pub mod Bus
pub mod Io
pub mod Littlefs
pub mod Web
pub mod Mqtt
pub mod Start
pub mod Diag
mod Tests
