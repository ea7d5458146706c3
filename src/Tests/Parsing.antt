-- ===== src/Tests/Parsing.antt =====
-- The request parser on concrete messages.
use waspp.Base.{◌≡◌, ◌≢◌, ◌++◌, [], ◌∷◌, Bytes, codes, refl, arith, true, equal, List}
use waspp.Request.{NameValue, empty_request, lookup, find_value}
use waspp.Parser.Clean.{IsText}
use waspp.Strtol.{strtol_int, skip_spaces, read_signed}
use waspp.Parser.Chars.{is_token}
use waspp.Parser.Step.{is_true, expecting_newline_3, method_start}
use waspp.Parser.{parse}
use waspp.Parser.Run.{run, resume, parse-run, parse-append}
use waspp.Parser.Sound.{initial-Inv, parse-Kept}
use waspp.Parser.Sound.Defs.{Kept, declared}
use waspp.Parser.Message.Format.{Message, IsMessage, format_head}
use waspp.Parser.Message.Body.{last_state}
use waspp.Parser.Message.Read.{read_request, parse-format_get, parse-format_post}
use waspp.Parser.Message.ZeroLength.{parse-zero_length}

abbrev text : Bytes
text = codes "GET /a?q=1 HTTP/1.1\r\nHost: x\r\n\r\n"

parse-run_example : parse method_start empty_request text ≡ run method_start empty_request text
parse-run_example = parse-run method_start empty_request text

parse-append_example :
    parse method_start empty_request (text ++ codes "more")
    ≡ resume (parse method_start empty_request text) (codes "more")
parse-append_example = parse-append method_start empty_request text (codes "more")

parse-Kept_example :
    Kept
      (parse method_start empty_request text).result
      (parse method_start empty_request text).state
      (parse method_start empty_request text).req
parse-Kept_example = parse-Kept method_start empty_request text initial-Inv

abbrev pub get_message : Message
get_message = record {
  method = codes "GET";
  path = codes "/a";
  params = record { name = codes "q"; value = codes "1" } ∷ [];
  major = 1;
  minor = 1;
  headers = record { name = codes "Host"; value = codes "x" } ∷ [];
}

pub get_message-IsMessage : IsMessage get_message
unfolding is_token
get_message-IsMessage = record {
  method_token = ((refl, (refl, (refl, tt))), ground arith);
  path_bytes = ((refl, omega arith, omega arith), ((refl, omega arith, omega arith), tt));
  params_pairs = (
    record { name_token = ((refl, tt), ground arith); value_bytes = ((refl, omega arith), tt) },
    tt,
  );
  major_digit = omega arith;
  minor_digit = omega arith;
  headers_lines = (
    record {
      name_token = ((refl, (refl, (refl, (refl, tt)))), ground arith);
      value_text = (refl, tt);
    },
    tt,
  );
}

parse-format_get_example :
    parse method_start empty_request (format_head get_message (codes "more")) ≡ record {
      result = is_true;
      state = expecting_newline_3;
      req = read_request get_message;
      rest = codes "more";
    }
parse-format_get_example = parse-format_get get_message (codes "more") get_message-IsMessage refl

abbrev post_message : Bytes → Message
post_message n = record {
  method = codes "POST";
  path = codes "/";
  params = [];
  major = 1;
  minor = 0;
  headers = record { name = codes "Content-Length"; value = n } ∷ [];
}

post_message-IsMessage : (n : Bytes) → IsText n → IsMessage (post_message n)
unfolding is_token
post_message-IsMessage n h = record {
  method_token = ((refl, (refl, (refl, (refl, tt)))), ground arith);
  path_bytes = ((refl, omega arith, omega arith), tt);
  params_pairs = tt;
  major_digit = omega arith;
  minor_digit = omega arith;
  headers_lines = (
    record {
      name_token = (
        (
          refl,
          (
            refl,
            (
              refl,
              (
                refl,
                (refl, (refl, (refl, (refl, (refl, (refl, (refl, (refl, (refl, (refl, tt)))))))))),
              ),
            ),
          ),
        ),
        ground arith,
      );
      value_text = h;
    },
    tt,
  );
}

a-is_token : is_token b'a' ≡ true
unfolding is_token
a-is_token = refl

declared-three : declared (post_message (codes "3")).headers ≡ 3
unfolding lookup find_value equal strtol_int skip_spaces read_signed
declared-three = refl

parse-format_post_example :
    parse method_start empty_request
      (format_head (post_message (codes "3")) (codes "abc" ++ codes "GET"))
    ≡ record {
      result = is_true;
      state = last_state (codes "bc");
      req = record (read_request (post_message (codes "3"))) {
        content = codes "abc";
        content_length = 3;
      };
      rest = codes "GET";
    }
parse-format_post_example =
    parse-format_post (post_message (codes "3")) b'a' (codes "bc") (codes "GET")
      (post_message-IsMessage (codes "3") (refl, tt)) refl a-is_token declared-three (omega arith)

declared-zero : declared (post_message (codes "0")).headers ≡ 0
unfolding lookup find_value equal strtol_int skip_spaces read_signed
declared-zero = refl

lookup-zero : (lookup (codes "Content-Length") (post_message (codes "0")).headers).0 ≢ []
unfolding lookup find_value equal
lookup-zero = ground arith

parse-zero_length_example :
    (parse method_start empty_request (format_head (post_message (codes "0")) (codes "abc"))).result
    ≢ is_true
parse-zero_length_example =
    parse-zero_length (post_message (codes "0")) (codes "abc")
      (post_message-IsMessage (codes "0") (refl, tt)) refl lookup-zero declared-zero (omega arith)

abbrev cookies : List NameValue
cookies = record { name = codes "sid"; value = codes "7" } ∷ []

sid-ne-tag : codes "tag" ≢ codes "sid"
sid-ne-tag = ground arith
