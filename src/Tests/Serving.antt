-- ===== src/Tests/Serving.antt =====
-- The handler and the responses on concrete requests.
use waspp.Base.{refl, true, false, some, [], ◌∷◌, codes, arith}
use waspp.Request.{Request, empty_request, find_value}
use waspp.Config.{Config, empty_config}
use waspp.Response.{Response}
use waspp.Response.Static.{ok, not_found}
use waspp.Handler.{Env, handled}
use waspp.Handler.Length.{Unframed, RoutesUnframed}

abbrev pub config : Config
config = record empty_config {
  access_granted = [];
  access_denied = codes "10.0.0.1" ∷ [];
  encrypt_key = codes "k";
  sess_cookie = codes "sid";
  expiry_sec = 60;
  update_sec = 30;
  validate_ip = true;
  validate_ua = true;
  doc_root = codes "/srv";
  compress = true;
}

abbrev pub env : Env
env = record {
  func = λ r cfg req res. handled req (record res { content = codes "hello" });
  files = λ path. some (codes "page");
  gzip = λ s. s;
  find = λ list addr. false;
}

abbrev empty_response : Response
empty_response = record {
  status = ok;
  headers = [];
  cookies = [];
  content = [];
  content_extension = codes "html";
}

pub env-RoutesUnframed : RoutesUnframed env
env-RoutesUnframed r cfg req req' res res' h e = ground arith

empty_response-Unframed : Unframed empty_response
unfolding find_value
empty_response-Unframed = refl

abbrev request : Request
request = record empty_request { uri = codes "/a.html"; remote_addr = codes "10.0.0.1" }

abbrev page : Response
page = record {
  status = not_found;
  headers = record { name = codes "A"; value = codes "b" } ∷ [];
  cookies = record { name = codes "sid"; value = codes "7" } ∷ [];
  content = codes "none";
  content_extension = [];
}
