-- ===== src/Config/Accepted.antt =====
-- src/config.cpp: what `init` has read where it returns true.
use mathlib.Core.Option
use waspp.Base.{
  ◌≡◌, refl, sym, ap, ◌∙◌, inl, inr, Bool, true, List, [], ◌++◌, Bytes, codes, Option, none, some,
  Option-cases, arith, subst, Bool-cases,
}
use waspp.Config.{Config}
use waspp.Router.Paths.{with_slash}
use waspp.Config.Keys.{setting, with_section-ready, >>=-ready, ready-injective}
use waspp.Config.Settings.{read_log-LogRead, read_session-SessionRead}
use waspp.Config.Server.{read_server-ServerRead}
use waspp.Config.Init.{
  Node, find_entry, Outside, ready, strtoull, read_tree, read_log, read_error, values, read_granted,
  read_denied, read_session, read_server, read_errors, read_err_file, read_sections, init,
}
use waspp.Config.Messages.{read_error-ErrorRead, err_file, messages, read_err_file-MessagesRead}

-- The values of a section, in the order in which the map gives them.
abbrev listed : Outside → Config → Bytes → List Bytes
listed out c name = elim (find_entry name c.cfg) [ none ↦ [] | some s ↦ values (out.order s) ]

read_granted-ready :
    (out : Outside) (c c' : Config)
    → read_granted out c ≡ ready c'
    → c' ≡ record c { access_granted = c.access_granted ++ listed out c (codes "access_granted") }
unfolding read_granted
read_granted-ready out c c' h =
    let (s, named, r) = with_section-ready (codes "access_granted") _ c c' h in
    ready-injective _ c' (
      ap
        (λ m. ready (record c {
          access_granted =
              c.access_granted
              ++ elim m as (λ _. List Bytes) [ none ↦ [] | some s ↦ values (out.order s) ];
        }))
        named
      ∙ r)

read_denied-ready :
    (out : Outside) (c c' : Config)
    → read_denied out c ≡ ready c'
    → c' ≡ record c { access_denied = c.access_denied ++ listed out c (codes "access_denied") }
unfolding read_denied
read_denied-ready out c c' h =
    let (s, named, r) = with_section-ready (codes "access_denied") _ c c' h in
    ready-injective _ c' (
      ap
        (λ m. ready (record c {
          access_denied =
              c.access_denied
              ++ elim m as (λ _. List Bytes) [ none ↦ [] | some s ↦ values (out.order s) ];
        }))
        named
      ∙ r)

abbrev pub cast : Outside → Option Bytes → Option Bool
cast out none = none
cast out (some v) = out.lexical_cast v

-- The configuration `c` is what the file `file` and the file of messages say, where `init` started
-- from `c0`.
pub record IsConfigured (out : Outside) (addr file : Bytes) (c0 c : Config) : Type 0 where
  pub tree : List (Bytes × Node)
  pub items : List (Bytes × Node)
  pub file_exists : out.exists file ≡ true
  pub file_read : out.read_json file ≡ some tree
  pub cfg : c.cfg ≡ read_tree tree c0.cfg
  pub address : c.address ≡ addr
  pub level : setting c (codes "log") (codes "level") ≡ some c.log_level
  pub rotation : setting c (codes "log") (codes "rotation") ≡ some c.log_rotation
  pub locale : setting c (codes "error") (codes "locale") ≡ some c.locale
  pub granted : c.access_granted ≡ c0.access_granted ++ listed out c (codes "access_granted")
  pub denied : c.access_denied ≡ c0.access_denied ++ listed out c (codes "access_denied")
  pub encrypt_key : setting c (codes "session") (codes "encrypt_key") ≡ some c.encrypt_key
  pub sess_cookie : setting c (codes "session") (codes "sess_cookie") ≡ some c.sess_cookie
  pub expiry_sec :
      Option.map out.strtod (setting c (codes "session") (codes "expiry_sec")) ≡ some c.expiry_sec
  pub update_sec :
      Option.map out.strtod (setting c (codes "session") (codes "update_sec")) ≡ some c.update_sec
  pub validate_ip :
      cast out (setting c (codes "session") (codes "validate_ip")) ≡ some c.validate_ip
  pub validate_ua :
      cast out (setting c (codes "session") (codes "validate_ua")) ≡ some c.validate_ua
  pub port : setting c (codes "server") (codes "port") ≡ some c.port
  pub doc_root :
      Option.map with_slash (setting c (codes "server") (codes "doc_root")) ≡ some c.doc_root
  pub num_threads :
      Option.map strtoull (setting c (codes "server") (codes "num_threads")) ≡ some c.num_threads
  pub compress : cast out (setting c (codes "server") (codes "compress")) ≡ some c.compress
  pub ssl : cast out (setting c (codes "server") (codes "ssl")) ≡ some c.ssl
  pub ssl_crt : setting c (codes "server") (codes "ssl_crt") ≡ some c.ssl_crt
  pub ssl_key : setting c (codes "server") (codes "ssl_key") ≡ some c.ssl_key
  pub messages_exist : out.exists (err_file c) ≡ true
  pub messages_read : out.read_json (err_file c) ≡ some items
  pub before_messages : Config
  pub messages_taken : read_errors items before_messages ≡ ready c
  pub err : c.err ≡ c0.err ++ messages items

read_sections-IsConfigured :
    (out : Outside) (addr file : Bytes) (c0 c : Config) (tree : List (Bytes × Node))
    → out.exists file ≡ true
    → out.read_json file ≡ some tree
    → read_sections out (record c0 { address = addr; cfg = read_tree tree c0.cfg }) ≡ ready c
    → IsConfigured out addr file c0 c
unfolding read_sections
read_sections-IsConfigured out addr file c0 c tree file_exists file_read h =
    let d0 : Config = record c0 { address = addr; cfg = read_tree tree c0.cfg } in
    let (c1, h1, r1) = >>=-ready (read_log d0) _ c h in
    let (c2, h2, r2) = >>=-ready (read_error c1) _ c r1 in
    let (c3, h3, r3) = >>=-ready (read_granted out c2) _ c r2 in
    let (c4, h4, r4) = >>=-ready (read_denied out c3) _ c r3 in
    let (c5, h5, r5) = >>=-ready (read_session out c4) _ c r4 in
    let (c6, h6, r6) = >>=-ready (read_server out c5) _ c r5 in
    let log = read_log-LogRead d0 c1 h1 in
    let d1 : Config = record d0 { log_level = log.level; log_rotation = log.rotation } in
    let error = read_error-ErrorRead d1 c2 (subst (λ d. read_error d ≡ ready c2) log.all h2) in
    let d2 : Config = record d1 { locale = error.locale } in
    let d3 : Config = record d2 {
      access_granted = d2.access_granted ++ listed out d2 (codes "access_granted");
    } in
    let d4 : Config = record d3 {
      access_denied = d3.access_denied ++ listed out d3 (codes "access_denied");
    } in
    let e3 =
      read_granted-ready out d2 c3 (subst (λ d. read_granted out d ≡ ready c3) error.all h3) in
    let e4 = read_denied-ready out d3 c4 (subst (λ d. read_denied out d ≡ ready c4) e3 h4) in
    let session =
      read_session-SessionRead out d4 c5 (subst (λ d. read_session out d ≡ ready c5) e4 h5) in
    let d5 : Config = record d4 {
      encrypt_key = session.key;
      sess_cookie = session.cookie;
      expiry_sec = out.strtod session.expiry;
      update_sec = out.strtod session.update;
      validate_ip = session.same_ip;
      validate_ua = session.same_ua;
    } in
    let server =
      read_server-ServerRead out d5 c6 (subst (λ d. read_server out d ≡ ready c6) session.all h6) in
    let d6 : Config = record d5 {
      port = server.port;
      doc_root = with_slash server.doc_root;
      num_threads = strtoull server.threads;
      compress = server.compresses;
      ssl = server.encrypts;
      ssl_crt = server.crt;
      ssl_key = server.key;
    } in
    let errors =
      read_err_file-MessagesRead out d6 c
        (subst (λ d. read_err_file out d ≡ ready c) server.all r6) in
    let d7 : Config = record d6 { err = d6.err ++ messages errors.items } in
    subst (λ d. IsConfigured out addr file c0 d) {x = d7} {y = c} (sym {a = c} {b = d7} errors.all)
      (record {
        tree = tree;
        items = errors.items;
        file_exists = file_exists;
        file_read = file_read;
        cfg = refl;
        address = refl;
        level = log.said_level;
        rotation = log.said_rotation;
        locale = error.said_locale;
        granted = refl;
        denied = refl;
        encrypt_key = session.said_key;
        sess_cookie = session.said_cookie;
        expiry_sec = ap (Option.map out.strtod) session.said_expiry;
        update_sec = ap (Option.map out.strtod) session.said_update;
        validate_ip = ap (cast out) session.said_ip ∙ session.cast_ip;
        validate_ua = ap (cast out) session.said_ua ∙ session.cast_ua;
        port = server.said_port;
        doc_root = ap (Option.map with_slash) server.said_doc_root;
        num_threads = ap (Option.map strtoull) server.said_threads;
        compress = ap (cast out) server.said_compress ∙ server.cast_compress;
        ssl = ap (cast out) server.said_ssl ∙ server.cast_ssl;
        ssl_crt = server.said_crt;
        ssl_key = server.said_key;
        messages_exist = errors.is_there;
        messages_read = errors.was_read;
        before_messages = d6;
        messages_taken =
            subst (λ d. read_errors errors.items d6 ≡ ready d) {x = c} {y = d7} errors.all
              errors.taken;
        err = refl {a = d7.err};
      })

pub init-IsConfigured :
    (out : Outside) (addr file : Bytes) (c0 c : Config)
    → init out addr file c0 ≡ ready c
    → IsConfigured out addr file c0 c
unfolding init
init-IsConfigured out addr file c0 c h = elim (Bool-cases (out.exists file)) [
  | inr missing ↦ absurd (ground arith)
  | inl there ↦ elim (Option-cases (out.read_json file)) [
    | inl wrong ↦ absurd (ground arith)
    | inr (tree, was_read) ↦
        read_sections-IsConfigured out addr file c0 c tree there was_read (ground arith)
  ]
]
