-- ===== src/Tests/Littlefs.antt =====
-- The deletion of directories at concrete inputs.
use cedar_switch_3i3o_power.Common.{
  ◌≡◌, refl, Bool, true, false, some, List, [], ◌∷◌, if◌then◌else◌, arith, ℤ, pos, e_no_ent, is_neg,
}
use cedar_switch_3i3o_power.Common.CString.{Bytes, codes, bytes_eq}
use cedar_switch_3i3o_power.Littlefs.Walk.{
  Entry, entry_file, entry_dir, FileSystem, join_path, after_subdir, delete_round, delete_start,
  delete_walk, fs_delete_tree,
}
use cedar_switch_3i3o_power.Littlefs.Flat.{Listing, delete_files}
use cedar_switch_3i3o_power.Web.Http.{http_delete, data_final, Request, Response}
use cedar_switch_3i3o_power.Web.Upload.{webui_root}
use cedar_switch_3i3o_power.Web.Delete.{delete_response, webui_delete_handler}
use cedar_switch_3i3o_power.Web.Delete.Files.{make_again, delete_handler_files}
use cedar_switch_3i3o_power.Littlefs.Subdir.{Unlinks, fs_delete_tree_subdir}

-- A disk is the list of the names on it.
present : Bytes → List Bytes → Bool
present p [] = false
present p (q ∷ disk) = if bytes_eq p q then true else present p disk

without : Bytes → List Bytes → List Bytes
without p [] = []
without p (q ∷ disk) = if bytes_eq p q then without p disk else q ∷ without p disk

present-without : (p : Bytes) (disk : List Bytes) → present p (without p disk) ≡ false
unfolding present without
present-without p [] = refl
present-without p (q ∷ disk) = ground (arith, present-without p disk)

present-without_keeps :
    (p q : Bytes) (disk : List Bytes) → present p disk ≡ false → present p (without q disk) ≡ false
unfolding present without
present-without_keeps p q [] h = refl
present-without_keeps p q (r ∷ disk) h = ground (arith, present-without_keeps p q disk)

unlink : Bytes → List Bytes → ℤ × List Bytes
unlink p disk = if present p disk then (pos 0, without p disk) else (e_no_ent, disk)

abbrev no_entry : Entry
no_entry = record { entry_type = entry_file; name = []; size = 0 }

abbrev next_entry : List Entry → (ℤ × Entry) × List Entry
next_entry [] = ((pos 0, no_entry), [])
next_entry (e ∷ es) = ((pos 0, e), es)

-- Every directory that can be opened lists the same entries.
abbrev disk_with : List Entry → FileSystem
disk_with es = record {
  Disk = List Bytes;
  Dir = List Entry;
  fs_opendir = λ path disk. (pos 0, es);
  fs_readdir = λ dir disk. next_entry dir;
  fs_unlink = unlink;
}

abbrev listing : (all : List Entry) → Listing (disk_with all)
listing all = record {
  entries = λ dir. dir;
  read-entry = λ dir disk e es same. rw (same) (refl, refl);
  read-end = λ dir disk same. rw (same) (refl, refl);
}

abbrev page : Entry
page = record { entry_type = entry_file; name = codes "index.html"; size = 10 }

abbrev folder : Entry
folder = record { entry_type = entry_dir; name = codes "css"; size = 0 }

abbrev www : List Bytes
www = codes "/lfs/www/index.html" ∷ codes "/lfs/www" ∷ []

abbrev mkdir : Bytes → List Bytes → ℤ × List Bytes
mkdir path disk = (pos 0, path ∷ disk)

abbrev request : Request
request = record {
  method = http_delete;
  status = data_final;
  url = codes "/api/webui/delete";
  headers = [];
  chunk = [];
}

abbrev blank : Response
blank = record { status = 0; body = []; final_chunk = false; headers = [] }

abbrev one_page : FileSystem
one_page = disk_with (page ∷ [])

delete_handler_files_example :
    let made =
      make_again one_page
        (listing (page ∷ []))
        mkdir
        (delete_files one_page (listing (page ∷ [])) webui_root (page ∷ []) www).1 in
    webui_delete_handler one_page mkdir 3 request blank www
    ≡ some (record {
      rc = pos 0;
      response = delete_response one_page mkdir made.0 blank;
      state = made.1;
    })
unfolding bytes_eq
delete_handler_files_example =
    delete_handler_files one_page (listing (page ∷ [])) mkdir request blank (page ∷ []) www 3 refl
      refl refl refl ((refl, refl, refl, omega arith), tt) (omega arith)

-- A directory that holds an empty one, as long as that is there.
abbrev css : Bytes
css = codes "/lfs/www/css"

abbrev entries_of : Bytes → List Bytes → List Entry
entries_of path disk =
    if bytes_eq path (codes "/lfs/www") then if present css disk then folder ∷ [] else [] else []

abbrev nested : FileSystem
nested = record {
  Disk = List Bytes;
  Dir = List Entry;
  fs_opendir = λ path disk. ((if present path disk then pos 0 else e_no_ent), entries_of path disk);
  fs_readdir = λ dir disk. next_entry dir;
  fs_unlink = unlink;
}

nested_unlinks : Unlinks nested
unfolding unlink
nested_unlinks = record {
  Absent = λ p disk. present p disk ≡ false;
  unlink-gone = λ p disk ok. ground (arith, present-without p disk);
  unlink-fails = λ p disk absent. rw (absent) refl;
  unlink-keeps = λ p q disk absent. ground (arith, absent, present-without_keeps p q disk absent);
}

abbrev www_css : List Bytes
www_css = css ∷ codes "/lfs/www" ∷ []

-- The whole tree is gone.
walk_ends : fs_delete_tree nested 9 (codes "/lfs/www") www_css ≡ some (e_no_ent, [])
unfolding delete_walk delete_start delete_round after_subdir unlink present without bytes_eq
    join_path
walk_ends = refl

fs_delete_tree_subdir_example : is_neg e_no_ent ≡ true
unfolding present bytes_eq
fs_delete_tree_subdir_example =
    fs_delete_tree_subdir nested nested_unlinks 9 (codes "/lfs/www") www_css [] e_no_ent refl refl
      refl refl refl walk_ends
