-- ===== src/Config/Server.antt =====
-- The section `server` of a configuration that `init` has accepted.
use waspp.Base.{◌≡◌, sym, ap, ◌∙◌, Bool, [], ◌∷◌, Bytes, codes, equal, some}
use waspp.Config.{Config}
use waspp.Router.Paths.{with_slash}
use waspp.Config.Init.{Outside, ready, strtoull, set_doc_root, set_server, read_server}
use waspp.Config.Keys.{
  setting, with_section-ready, set_keys-ready, set_keys-done, setting-found, ready-injective,
  cast_bool-ready,
}

pub record ServerRead (out : Outside) (c c' : Config) : Type 0 where
  pub port : Bytes
  pub doc_root : Bytes
  pub threads : Bytes
  pub compress : Bytes
  pub ssl : Bytes
  pub crt : Bytes
  pub key : Bytes
  pub compresses : Bool
  pub encrypts : Bool
  pub said_port : setting c (codes "server") (codes "port") ≡ some port
  pub said_doc_root : setting c (codes "server") (codes "doc_root") ≡ some doc_root
  pub said_threads : setting c (codes "server") (codes "num_threads") ≡ some threads
  pub said_compress : setting c (codes "server") (codes "compress") ≡ some compress
  pub said_ssl : setting c (codes "server") (codes "ssl") ≡ some ssl
  pub said_crt : setting c (codes "server") (codes "ssl_crt") ≡ some crt
  pub said_key : setting c (codes "server") (codes "ssl_key") ≡ some key
  pub cast_compress : out.lexical_cast compress ≡ some compresses
  pub cast_ssl : out.lexical_cast ssl ≡ some encrypts
  pub all : c' ≡ record c {
    port = port;
    doc_root = with_slash doc_root;
    num_threads = strtoull threads;
    compress = compresses;
    ssl = encrypts;
    ssl_crt = crt;
    ssl_key = key;
  }

set_doc_root-ready :
    (v : Bytes) (c c' : Config)
    → set_doc_root v c ≡ ready c'
    → c' ≡ record c { doc_root = with_slash v }
unfolding set_doc_root
set_doc_root-ready [] c c' h = cc
set_doc_root-ready (x ∷ v) c c' h = ready-injective _ c' h

pub read_server-ServerRead :
    (out : Outside) (c c' : Config) → read_server out c ≡ ready c' → ServerRead out c c'
unfolding read_server set_server equal
read_server-ServerRead out c c' h =
    let (s, named, r) = with_section-ready (codes "server") _ c c' h in
    let k1 = set_keys-ready (set_server out) s _ _ c c' r in
    let k2 = set_keys-ready (set_server out) s _ _ k1.between c' k1.others in
    let k3 = set_keys-ready (set_server out) s _ _ k2.between c' k2.others in
    let k4 = set_keys-ready (set_server out) s _ _ k3.between c' k3.others in
    let k5 = set_keys-ready (set_server out) s _ _ k4.between c' k4.others in
    let k6 = set_keys-ready (set_server out) s _ _ k5.between c' k5.others in
    let k7 = set_keys-ready (set_server out) s _ _ k6.between c' k6.others in
    let done = set_keys-done (set_server out) s k7.between c' k7.others in
    let (b4, cast4, is4) = cast_bool-ready out k4.value k3.between _ k4.between k4.was_set in
    let (b5, cast5, is5) = cast_bool-ready out k5.value k4.between _ k5.between k5.was_set in
    let e1 = ready-injective _ k1.between k1.was_set in
    let e2 = set_doc_root-ready k2.value k1.between k2.between k2.was_set in
    let e3 = ready-injective _ k3.between k3.was_set in
    let e6 = ready-injective _ k6.between k6.was_set in
    let e7 = ready-injective _ k7.between k7.was_set in
    record {
      port = k1.value;
      doc_root = k2.value;
      threads = k3.value;
      compress = k4.value;
      ssl = k5.value;
      crt = k6.value;
      key = k7.value;
      compresses = b4;
      encrypts = b5;
      said_port = setting-found c _ _ s _ named k1.found;
      said_doc_root = setting-found c _ _ s _ named k2.found;
      said_threads = setting-found c _ _ s _ named k3.found;
      said_compress = setting-found c _ _ s _ named k4.found;
      said_ssl = setting-found c _ _ s _ named k5.found;
      said_crt = setting-found c _ _ s _ named k6.found;
      said_key = setting-found c _ _ s _ named k7.found;
      cast_compress = cast4;
      cast_ssl = cast5;
      all =
          sym done
          ∙ e7
          ∙ ap (λ (d : Config). record d { ssl_key = k7.value })
              (e6
                ∙ ap (λ (d : Config). record d { ssl_crt = k6.value })
                    (is5
                      ∙ ap (λ (d : Config). record d { ssl = b5 })
                          (is4
                            ∙ ap (λ (d : Config). record d { compress = b4 })
                                (e3
                                  ∙ ap
                                      (λ (d : Config). record d { num_threads = strtoull k3.value })
                                      (e2
                                        ∙ ap
                                            (λ (d : Config). record d {
                                              doc_root = with_slash k2.value;
                                            })
                                            e1)))));
    }
