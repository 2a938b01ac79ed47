-- ===== src/Tests/Web.antt =====
-- The HTTP endpoints at concrete inputs.
use cedar_switch_3i3o_power.Common.{
  ℕ, ◌≡◌, refl, ◌≢◌, ◌↔◌, ◌⊎◌, true, false, [], ◌∷◌, ◌++◌, arith, length, replicate, ℤ, pos, negsuc,
}
use cedar_switch_3i3o_power.Common.CString.{Bytes, codes}
use cedar_switch_3i3o_power.Bus.{RelaysDefState, outputs_init}
use cedar_switch_3i3o_power.Io.Task.{IoState, Seen, io_round, write_relays_once}
use cedar_switch_3i3o_power.Web.Http.{http_get, http_post, data_final, Request, Response}
use cedar_switch_3i3o_power.Web.Buffer.{PostBuffer}
use cedar_switch_3i3o_power.Web.Relays.{
  RelaysState, RelaysRest, Locks, relays_state_handler, get_text,
}
use cedar_switch_3i3o_power.Web.Relays.Answers.{Completes, post_then_get, post_drives_pins}
use cedar_switch_3i3o_power.Web.Path.{path_is_sane}
use cedar_switch_3i3o_power.Web.Path.Segments.{IsSane, split_on, path_is_sane_iff}
use cedar_switch_3i3o_power.Web.Query.{query_get}
use cedar_switch_3i3o_power.Web.Query.Params.{lookup}
use cedar_switch_3i3o_power.Web.Query.Lookup.{cut, query_get-lookup}
use cedar_switch_3i3o_power.Web.Upload.{
  Fs, UploadState, webui_root, http_upload, upload_file, webui_chunk_put,
}
use cedar_switch_3i3o_power.Web.Upload.Guards.{IsAllowed, http_upload_guarded}
use cedar_switch_3i3o_power.Web.Upload.Cursor.{IsUpload, second_upload}

-- A buffer of eight bytes that holds "ab".
abbrev eight : PostBuffer
eight = record { buff = codes "abxxxxxx"; cursor = 2 }

-- A parser that finds the three flags in any text of two bytes or more.
abbrev parse : Bytes → ℤ × RelaysState
parse (x ∷ y ∷ rest) = (pos 7, record { relay1 = true; relay2 = false; relay3 = true })
parse (x ∷ []) = (negsuc 21, record { relay1 = false; relay2 = false; relay3 = false })
parse [] = (negsuc 21, record { relay1 = false; relay2 = false; relay3 = false })

abbrev locks : Locks
locks = record { got_read = true; got_pub = true }

abbrev post : Request
post = record {
  method = http_post;
  status = data_final;
  url = codes "/api/relays/state";
  headers = [];
  chunk = codes "{}";
}

abbrev get : Request
get = record post { method = http_get; chunk = [] }

abbrev fresh : Response
fresh = record { status = 0; body = []; final_chunk = false; headers = [] }

abbrev idle : RelaysRest
idle = record {
  resp_buf = [];
  post = record { buff = replicate 8 0; cursor = 0 };
  outputs = outputs_init;
}

abbrev flags : RelaysState
flags = record { relay1 = true; relay2 = false; relay3 = true }

completes : Completes parse locks post idle flags
completes = record { is_post = refl; is_last = refl; fits = omega arith; parsed = refl }

post_then_get_example :
    (relays_state_handler parse locks get fresh
      (relays_state_handler parse locks post fresh idle).state).response.body
    ≡ get_text true false true
post_then_get_example =
    post_then_get parse locks post get fresh fresh idle flags completes refl refl refl refl

abbrev def : RelaysDefState
def = record { enabled = false; relay1 = false; relay2 = true; relay3 = false }

abbrev io : IoState
io = record {
  applied_state = 0;
  mqtt_status_msg = record { seq = 0; enabled = true; connected = false };
  pins = record { relay1 = false; relay2 = false; relay3 = false };
}

abbrev seen : Seen
seen = record {
  got_outputs = true;
  outputs = (relays_state_handler parse locks post fresh idle).state.outputs;
  got_status = true;
  status = record { seq = 0; enabled = true; connected = false };
}

io_applied : io.pins ≡ write_relays_once 0
unfolding write_relays_once
io_applied = refl

post_drives_pins_example :
    (io_round def seen io).pins ≡ record { relay1 = true; relay2 = false; relay3 = true }
post_drives_pins_example =
    post_drives_pins parse locks post fresh idle flags def seen io completes refl io_applied refl
      refl refl

path_is_sane_iff_example :
    (path_is_sane (codes "a/../b") ≡ true)
    ↔ ((codes "a/../b" ≢ []) × IsSane (split_on b'/' (codes "a/../b")))
path_is_sane_iff_example = path_is_sane_iff (codes "a/../b")

query_get-lookup_example :
    query_get (codes "/up" ++ b'?' ∷ codes "file=a.js&offset=0") (codes "offset") 32
    ≡ cut 31 (lookup (codes "offset") (split_on b'&' (codes "file=a.js&offset=0")))
query_get-lookup_example =
    query_get-lookup (codes "/up") (codes "file=a.js&offset=0") (codes "offset") 32
      ((λ e. cc), ((λ e. cc), ((λ e. cc), tt))) (omega arith)
      ((λ e. cc), ((λ e. cc), ((λ e. cc), ((λ e. cc), ((λ e. cc), ((λ e. cc), tt)))))) (omega arith)

-- A disk of one file, whatever its path.
abbrev one_file : Fs
one_file = record {
  Disk = Bytes;
  unlink = λ path d. [];
  stat = λ path d. (pos 0, true, length d);
  open_append = λ path d. (pos 0, d);
  write = λ path bytes d. (pos (length bytes), d ++ bytes);
  sync = λ path d. d;
  close = λ path d. d;
}

abbrev upload_url : Bytes
upload_url = codes "/up?file=a.js&offset=0"

http_upload_guarded_example :
    (((http_upload one_file webui_root fresh upload_url (codes "hi") []).1 ≡ [])
      × ((http_upload one_file webui_root fresh upload_url (codes "hi") []).0.status ≡ 400))
    ⊎ ((file : Bytes) × (offset : ℕ) × IsAllowed upload_url (codes "hi") file offset
        × (http_upload one_file webui_root fresh upload_url (codes "hi") []
            ≡ upload_file one_file webui_root fresh file offset (codes "hi") []))
http_upload_guarded_example =
    http_upload_guarded one_file webui_root fresh upload_url (codes "hi") []

abbrev upload : Request
upload = record {
  method = http_post;
  status = data_final;
  url = upload_url;
  headers = [];
  chunk = codes "hi";
}

abbrev empty : UploadState one_file
empty = record { post = record { buff = replicate 8 0; cursor = 0 }; disk = [] }

is_upload : IsUpload upload
is_upload = record { is_post = refl; is_last = refl }

second_upload_example :
    (webui_chunk_put one_file upload fresh
      (webui_chunk_put one_file upload fresh empty).state).state.disk
    ≡ (http_upload one_file webui_root fresh upload_url
        (codes "hihi")
        (webui_chunk_put one_file upload fresh empty).state.disk).1
second_upload_example =
    second_upload one_file upload upload fresh fresh empty is_upload is_upload refl (omega arith)
