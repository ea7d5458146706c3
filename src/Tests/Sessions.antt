-- ===== src/Tests/Sessions.antt =====
-- A session's cookie on its way to the client and back.
use waspp.Base.{refl, true, false, some, List, [], ◌∷◌, IsBytes, codes, equal, arith}
use waspp.Request.{Request, NameValue, empty_request, find_value, lookup}
use waspp.Strtol.{skip_spaces, read_signed}
use waspp.Config.{Config, empty_config}
use waspp.Response.{Response}
use waspp.Response.Static.{ok}
use waspp.Session.Created.{at_time, load-create}
use waspp.Session.{create, Outside, Session, load, serialize_and_set, has_keys}
use waspp.Session.Signed.{IsSigned, load-IsSigned}
use waspp.Session.Returned.{IsCurrent, Accepts, load-serialize_and_set}

abbrev config : Config
config = record empty_config {
  access_granted = [];
  access_denied = [];
  encrypt_key = codes "k";
  sess_cookie = codes "sid";
  expiry_sec = 60;
  update_sec = 30;
  validate_ip = true;
  validate_ua = true;
  doc_root = codes "/srv";
  compress = false;
}

abbrev entries : List NameValue
entries =
    record { name = codes "sess_id"; value = codes "7" }
    ∷ record { name = codes "last_tm"; value = codes "100" }
    ∷ record { name = codes "last_ip"; value = codes "10.0.0.1" }
    ∷ record { name = codes "last_ua"; value = codes "UA" }
    ∷ []

abbrev outside : Outside
outside = record {
  md5_digest = λ text. codes "0123456789abcdef0123456789abcdef";
  write_archive = λ es. codes "archive 4";
  read_archive = λ text. some entries;
  uuid = codes "u";
  now = 120;
}

abbrev response : Response
response = record { status = ok; headers = []; cookies = []; content = []; content_extension = [] }

abbrev before : Session
before = record { entries = entries; req = empty_request; res = response }

abbrev request : Request
request = record empty_request {
  remote_addr = codes "10.0.0.1";
  headers = record { name = codes "User-Agent"; value = codes "UA" } ∷ [];
  cookies = (serialize_and_set outside config before).res.cookies;
}

request-IsCurrent : IsCurrent outside config request entries
unfolding has_keys find_value lookup equal skip_spaces read_signed
request-IsCurrent = record { keyed = refl; fresh = refl; same_ip = λ e. refl; same_ua = λ e. refl }

archive-IsBytes : IsBytes (codes "archive 4")
archive-IsBytes = ground arith

load-serialize_and_set_example :
    Accepts (load outside config (record { entries = []; req = request; res = response })) entries
load-serialize_and_set_example =
    load-serialize_and_set outside config before request response (λ text. refl) refl
      archive-IsBytes request-IsCurrent refl

returned :
    Accepts (load outside config (record { entries = []; req = request; res = response })) entries
returned =
    load-serialize_and_set outside config before request response (λ text. refl) refl
      archive-IsBytes request-IsCurrent refl

load-IsSigned_example :
    IsSigned outside config (record { entries = []; req = request; res = response }) returned.final
load-IsSigned_example =
    load-IsSigned outside config (record { entries = []; req = request; res = response })
      returned.final returned.is_accepted

-- A client without a cookie is given a session, and comes back 20 seconds later.
abbrev visitor : Session
visitor = record { entries = []; req = record request { cookies = [] }; res = response }

abbrev making : Outside
making = record outside {
  read_archive = λ text. some (create (record outside { now = 100 }) config visitor).entries;
  now = 100;
}

abbrev again : Request
again = record request { cookies = (create making config visitor).res.cookies }

load-create_example :
    Accepts
      (load (at_time 120 making) config (record { entries = []; req = again; res = response }))
      (create making config visitor).entries
unfolding create
load-create_example =
    load-create making config visitor again response 120 (λ text. refl) refl archive-IsBytes
      (ground arith) (ground arith) (ground arith) (record { same_ip = refl; same_ua = refl }) refl
