-- ===== src/Tests/Served.antt =====
-- The functions of the routes on concrete requests.
use waspp.Base.{
  false, none, Option, if◌then◌else◌, starts_with, Bytes, equal, IsBytes, arith, ℕ, ◌+◌, ◌≡◌, refl,
  ◌⊎◌, List, [], ◌∷◌, codes, All, some,
}
use waspp.Request.{Request, NameValue, empty_request, find_value, lookup}
use waspp.Response.{Response}
use waspp.Response.Static.{ok}
use waspp.Config.{Config, empty_config}
use waspp.Router.{forum_post}
use waspp.Strtol.{skip_spaces, read_signed}
use waspp.Utility.Percent.{percent_encode}
use waspp.Response.Decimal.{to_string, digits_onto}
use waspp.Session.{Outside, sign, has_keys}
use waspp.Session.Returned.{IsCurrent}
use waspp.Routes.Admitted.{GoesTo, WasFound-GoesTo}
use waspp.Routes.Owned.{run_route-IsFor}
use waspp.Routes.Forum.{signed_in, save_entry, refuse_jsonp}
use waspp.Handler.{handle_request}
use waspp.Handler.Length.{Unframed, IsAnswer}
use waspp.Routes.{World, Server, Row, by_text}
use waspp.Routes.Ends.{EndsIn}
use waspp.Routes.Table.{run_route, start, environment}
use waspp.Routes.Placed.Statements.{IsPlaced}
use waspp.Routes.Served.{run_route-IsPlaced, environment-IsAnswer}
use waspp.Routes.Authorized.{IsAuthorized, IsFor, run_route-IsAuthorized}
use waspp.Routes.SignIn.{WasFound}
use waspp.Routes.Auth.{auth-WasFound}
use waspp.Routes.User.{auth}

abbrev config : Config
config = record empty_config {
  encrypt_key = codes "k";
  sess_cookie = codes "sid";
  expiry_sec = 60;
  update_sec = 30;
  doc_root = codes "/srv/";
}

abbrev entries : List NameValue
entries =
    record { name = codes "sess_id"; value = codes "7" }
    ∷ record { name = codes "last_tm"; value = codes "100" }
    ∷ record { name = codes "last_ip"; value = codes "10.0.0.1" }
    ∷ record { name = codes "last_ua"; value = codes "UA" }
    ∷ record { name = codes "userid"; value = codes "12" }
    ∷ []

abbrev outside : Outside
outside = record {
  md5_digest = λ text. codes "0123456789abcdef0123456789abcdef";
  write_archive = λ es. codes "archive 5";
  read_archive = λ text. some entries;
  uuid = codes "u";
  now = 120;
}

abbrev row : Row
row = record {
  number = λ name. some 12;
  small = λ name. some 12;
  text = λ name. some (codes "text");
}

-- Databases that count their statements, and have one row for each.
abbrev server : Server ℕ
server = record {
  connect = λ t w. some w;
  query = λ st w. some (row ∷ [], w + 1);
  call = λ st w. some (some row, w + 1);
  execute = λ st w. some (1, w + 1);
}

abbrev world : World ℕ
world = record {
  session = outside;
  files = λ path. some (codes "page");
  write_json = λ json. codes "{}";
  server = server;
}

abbrev response : Response
response = record { status = ok; headers = []; cookies = []; content = []; content_extension = [] }

abbrev posted : Request
posted = record empty_request {
  uri = codes "/dir/forum/post/";
  remote_addr = codes "10.0.0.1";
  headers = record { name = codes "User-Agent"; value = codes "UA" } ∷ [];
  cookies =
      record { name = codes "sid"; value = codes "archive0123456789abcdef0123456789abcdef" } ∷ [];
  params =
      record { name = codes "title"; value = codes "t" }
      ∷ record { name = codes "content"; value = codes "c" }
      ∷ [];
}

abbrev signing : Request
signing = record empty_request {
  uri = codes "/dir/user/auth/";
  params =
      record { name = codes "username"; value = codes "u" }
      ∷ record { name = codes "passwd"; value = codes "p" }
      ∷ [];
}

response-Unframed : Unframed response
unfolding find_value
response-Unframed = refl

run_route-IsPlaced_example :
    EndsIn (λ s. All IsPlaced s.trace) (run_route world forum_post (start 0 config posted response))
run_route-IsPlaced_example =
    run_route-IsPlaced world forum_post 0 config posted response response-Unframed

run_route-IsAuthorized_example :
    EndsIn
      (IsAuthorized world config posted response)
      (run_route world forum_post (start 0 config posted response))
run_route-IsAuthorized_example =
    run_route-IsAuthorized world forum_post 0 config posted response refl response-Unframed

environment-IsAnswer_example :
    IsAnswer
      (handle_request (environment world (λ s. s) (λ list addr. false) 0) config posted response).1
environment-IsAnswer_example =
    environment-IsAnswer world (λ s. s) (λ list addr. false) 0 config posted response
      response-Unframed

auth-WasFound_example :
    EndsIn
      (λ t.
        (t.res.cookies ≡ response.cookies)
        ⊎ WasFound world config response.cookies
            (lookup (codes "passwd") signing.params).0
            t.res.cookies)
      (auth world (start 0 config signing response))
auth-WasFound_example = auth-WasFound world 0 config signing response

-- The same client with the cookie that a session of these entries sets.
abbrev returning : Request
returning = record posted {
  cookies =
      record {
        name = codes "sid";
        value = sign outside config (percent_encode (codes "archive 5"));
      }
      ∷ [];
}

returning-IsCurrent : IsCurrent outside config returning entries
unfolding has_keys find_value lookup equal skip_spaces read_signed
returning-IsCurrent = record {
  keyed = refl;
  fresh = refl;
  same_ip = λ e. refl;
  same_ua = λ e. refl;
}

archive-IsBytes : IsBytes (codes "archive 5")
archive-IsBytes = ground arith

entries-named : find_value (codes "userid") entries ≡ some (to_string 12)
unfolding find_value equal to_string digits_onto
entries-named = refl

entries-signed :
    find_value (codes "sid") returning.cookies
    ≡ some (sign outside config (percent_encode (codes "archive 5")))
unfolding find_value equal
entries-signed = refl

-- The user number 12, after the two queries of `auth`.
abbrev found_user : WasFound world config [] (codes "p") returning.cookies
found_user = record {
  userid = 12;
  found = record {
    target = by_text [];
    row = row;
    rows = [];
    found = record { before = 1; after = 2; came = refl };
  };
  signed_in = record { entries = entries; named = entries-named; signed = entries-signed };
}

WasFound-GoesTo_example :
    GoesTo
      (signed_in world (refuse_jsonp world) (save_entry world) (start 0 config returning response))
      (save_entry world (to_string 12))
WasFound-GoesTo_example =
    WasFound-GoesTo world 0 config returning response [] returning.cookies (codes "p")
      (refuse_jsonp world) (save_entry world) found_user (λ text. refl)
      (record { back = refl; bytes = archive-IsBytes }) returning-IsCurrent refl

run_route-IsFor_example :
    EndsIn
      (λ t. All (IsFor 12) t.trace)
      (run_route world forum_post (start 0 config returning response))
run_route-IsFor_example =
    run_route-IsFor world forum_post 0 config returning response [] returning.cookies (codes "p")
      found_user refl response-Unframed (ground arith) (λ text. refl)
      (record { back = refl; bytes = archive-IsBytes }) refl

-- Of the files, which are all there in `world`, only those under the document root.
abbrev root_files : Bytes → Option Bytes
root_files path = if starts_with path (codes "/srv/") then some (codes "page") else none
