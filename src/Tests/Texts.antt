-- ===== src/Tests/Texts.antt =====
-- The text utilities and the form reader on concrete texts.
use waspp.Base.{
  ◌≡◌, ◌≢◌, ◌++◌, ◌↔◌, refl, List, [], ◌∷◌, Bytes, IsBytes, codes, All, find, find_from,
  starts_with, arith,
}
use waspp.Request.{NameValue, empty_request}
use waspp.Utility.Percent.{percent_encode, percent_decode}
use waspp.Utility.Percent.RoundTrip.{percent_decode-percent_encode}
use waspp.Utility.Base64.{base64_encode, base64_decode}
use waspp.Utility.Base64.RoundTrip.{base64_decode-base64_encode}
use waspp.Utility.Text.{extract_between}
use waspp.Fields.Outcome.{undefined}
use waspp.Fields.Params.{parse_params, parse_params-undefined_iff}
use waspp.Fields.Content.{parse_form}
use waspp.Fields.Content.Form.{IsField, format_form, parse_form-format_form}

abbrev phrase : Bytes
phrase = codes "a b&c"

phrase-IsBytes : IsBytes phrase
phrase-IsBytes = ground arith

percent_decode-percent_encode_example :
    percent_decode (percent_encode phrase ++ codes "&x") ≡ phrase ++ percent_decode (codes "&x")
percent_decode-percent_encode_example =
    percent_decode-percent_encode phrase (codes "&x") phrase-IsBytes

base64_decode-base64_encode_example : base64_decode (base64_encode phrase) ≡ phrase
base64_decode-base64_encode_example =
    base64_decode-base64_encode phrase phrase-IsBytes (ground arith)

between-ne-nil : extract_between (codes "a[b]c") (codes "[") (codes "]") ≢ []
unfolding extract_between find find_from starts_with
between-ne-nil = ground arith

parse_params-undefined_iff_example :
    (parse_params (record empty_request { uri = codes "/a" }) ≡ undefined) ↔ (codes "/a" ≡ [])
parse_params-undefined_iff_example =
    parse_params-undefined_iff (record empty_request { uri = codes "/a" }) refl

abbrev fields : List NameValue
fields =
    record { name = codes "k"; value = codes "a b" } ∷ record { name = codes "l"; value = [] } ∷ []

fields-IsField : All IsField fields
fields-IsField = (
  record { name_bytes = ground arith; value_bytes = ground arith },
  (record { name_bytes = ground arith; value_bytes = ground arith }, tt),
)

parse_form-format_form_example : parse_form (format_form fields) ≡ fields
parse_form-format_form_example = parse_form-format_form fields fields-IsField
