-- ===== src/Tests/Bodies.antt =====
-- The loops over the bodies of requests, with more rounds than they need, and the decoding of a path.
use waspp.Base.{some, ◌≡◌, codes, arith}
use waspp.Request.{Request, empty_request}
use waspp.Utility.Percent.{percent_encode}
use waspp.Handler.Validate.{percent_decode_and_validate}
use waspp.Handler.Validate.RoundTrip.{percent_decode_and_validate-percent_encode}
use waspp.Fields.Content.{form_loop, parse_form}
use waspp.Fields.Content.Fuel.{form_loop-parse_form}

form_loop-parse_form_example :
    form_loop 20 (codes "a=1&b&c=2") ≡ some (parse_form (codes "a=1&b&c=2"))
form_loop-parse_form_example = form_loop-parse_form 20 (codes "a=1&b&c=2") (omega arith)

abbrev upload : Request
upload = record empty_request { content = codes "--x\r\nname=\"a\"\r\n\r\n1\r\n--x\r\n" }

percent_decode_and_validate-percent_encode_example :
    percent_decode_and_validate (percent_encode (codes "/a b.html")) ≡ some (codes "/a b.html")
percent_decode_and_validate-percent_encode_example =
    percent_decode_and_validate-percent_encode (codes "/a b.html") (ground arith)
