-- ===== src/Tests/Configs.antt =====
-- A configuration on concrete files.
use waspp.Base.{
  ◌≡◌, refl, true, false, [], ◌∷◌, Bytes, List, codes, if◌then◌else◌, equal, some, leb,
}
use waspp.Strtol.{strtol_int, skip_spaces, read_signed}
use waspp.Router.Paths.{ends_in_slash, with_slash}
use waspp.Config.{Config, Section, empty_config}
use waspp.Config.Init.{
  Node, Outside, ready, strtoull, find_entry, insert_entry, section_of, read_tree, set_keys,
  with_section, set_log, set_error, cast_bool, set_session, set_doc_root, set_server, read_log,
  read_error, values, read_granted, read_denied, read_session, read_server, find_err, read_errors,
  read_err_file, read_sections, init, err_msg,
}
use waspp.Config.Errors.{init-err_msg}

abbrev leaf : Bytes → Node
leaf text = record { value = text; items = [] }

abbrev node_of : Section → Node
node_of entries = record { value = []; items = entries }

abbrev tree : List (Bytes × Node)
tree =
    (
      codes "log",
      node_of ((codes "level", codes "info") ∷ (codes "rotation", codes "every_day") ∷ []),
    )
    ∷ (codes "error", node_of ((codes "locale", codes "en") ∷ []))
    ∷ (codes "access_granted", node_of [])
    ∷ (codes "access_denied", node_of ((codes "a", codes "10.0.0.1") ∷ []))
    ∷ (
      codes "session",
      node_of (
          (codes "encrypt_key", codes "k")
          ∷ (codes "sess_cookie", codes "sid")
          ∷ (codes "expiry_sec", codes "60")
          ∷ (codes "update_sec", codes "30")
          ∷ (codes "validate_ip", codes "1")
          ∷ (codes "validate_ua", codes "0")
          ∷ []),
    )
    ∷ (
      codes "server",
      node_of (
          (codes "port", codes "80")
          ∷ (codes "doc_root", codes "../html")
          ∷ (codes "num_threads", codes "4")
          ∷ (codes "compress", codes "1")
          ∷ (codes "ssl", codes "0")
          ∷ (codes "ssl_crt", [])
          ∷ (codes "ssl_key", [])
          ∷ []),
    )
    ∷ []

abbrev texts : List (Bytes × Node)
texts = (codes "7", leaf (codes "no")) ∷ (codes "10", leaf (codes "gone")) ∷ []

abbrev outside : Outside
outside = record {
  exists = λ path. true;
  read_json = λ path. if equal path (codes "app.json") then some tree else some texts;
  strtod = strtoull;
  lexical_cast = λ text. if equal text (codes "1") then some true else some false;
  order = λ s. s;
}

abbrev known : List (Bytes × Section)
known = read_tree tree []

abbrev accepted : Config
accepted = record {
  log_level = codes "info";
  log_rotation = codes "every_day";
  access_granted = [];
  access_denied = codes "10.0.0.1" ∷ [];
  encrypt_key = codes "k";
  sess_cookie = codes "sid";
  expiry_sec = 60;
  update_sec = 30;
  validate_ip = true;
  validate_ua = false;
  address = codes "0.0.0.0";
  port = codes "80";
  doc_root = codes "../html/";
  num_threads = 4;
  compress = true;
  ssl = false;
  ssl_crt = [];
  ssl_key = [];
  cfg = known;
  locale = codes "en";
  err = (7, codes "no") ∷ (10, codes "gone") ∷ [];
}

init-ready : init outside (codes "0.0.0.0") (codes "app.json") empty_config ≡ ready accepted
unfolding strtol_int skip_spaces read_signed ends_in_slash with_slash strtoull find_entry
    insert_entry section_of read_tree set_keys with_section set_log set_error cast_bool set_session
    set_doc_root set_server read_log read_error values read_granted read_denied read_session
    read_server find_err read_errors read_err_file read_sections init equal leb
init-ready = refl

texts-read : outside.read_json (codes "../err/en.json") ≡ some texts
unfolding equal
texts-read = refl

init-err_msg_example : err_msg accepted (strtol_int (codes "10")) ≡ (codes "gone", accepted)
init-err_msg_example =
    init-err_msg outside (codes "0.0.0.0") (codes "app.json") empty_config accepted
      ((codes "7", leaf (codes "no")) ∷ []) [] (codes "10") (leaf (codes "gone")) init-ready
      texts-read
