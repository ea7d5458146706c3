-- ===== src/Tests/Connections.antt =====
-- A connection on concrete bytes.
use waspp.Base.{◌≡◌, ◌≢◌, refl, [], ◌∷◌, Bytes, codes, All, ap, sym, ◌∙◌}
use waspp.Parser.Step.{method_start, expecting_newline_3, is_true, indeterminate}
use waspp.Parser.{parse}
use waspp.Parser.Message.Format.{format_head}
use waspp.Parser.Message.Read.{read_request, parse-format_get}
use waspp.Connection.{Peer, start, on_read}
use waspp.Connection.Chunks.{read_all, concat}
use waspp.Connection.Answers.{Reach, here, next, received, IsSound, start-IsSound, Reach-IsSound}
use waspp.Connection.Exchange.{Answered, waiting, read_all-Answered}
use waspp.Tests.Parsing.{get_message, get_message-IsMessage}
use waspp.Tests.Serving.{env, env-RoutesUnframed, config}

abbrev pub peer : Peer
peer = record { address = codes "10.0.0.1"; port = 5000 }

abbrev whole : Bytes
whole = format_head get_message []

abbrev first : Bytes
first = codes "GET /a?q"

abbrev second : Bytes
second = codes "=1 HTTP/1.1\r\nHost: x\r\n\r\n"

pieces-concat : concat (first ∷ second ∷ []) ≡ whole
pieces-concat = refl

pieces-ne-nil : All (λ y. y ≢ []) (first ∷ second ∷ [])
pieces-ne-nil = ((λ e. cc), ((λ e. cc), tt))

read_all-Answered_example :
    Answered env config peer
      (record (waiting []) { parser = expecting_newline_3; request = read_request get_message })
      (read_all env config peer (first ∷ second ∷ []) (waiting []))
read_all-Answered_example =
    read_all-Answered env config peer [] get_message first (second ∷ []) get_message-IsMessage refl
      (λ e. cc) pieces-ne-nil pieces-concat

parse-whole : parse method_start (start 0).request whole ≡ record {
  result = is_true;
  state = expecting_newline_3;
  req = read_request get_message;
  rest = [];
}
parse-whole = parse-format_get get_message [] get_message-IsMessage refl

nothing_left : (parse (start 0).parser (start 0).request (concat (first ∷ second ∷ []))).rest ≡ []
nothing_left = ap (λ p. p.rest) parse-whole

complete : (parse (start 0).parser (start 0).request whole).result ≢ indeterminate
complete e = true-ne (sym (ap (λ p. p.result) parse-whole) ∙ e)
  where
    true-ne : is_true ≢ indeterminate
    true-ne h = cc

abbrev cut : Reach env config peer (start 7) (on_read env config peer first (start 7))
cut = next here (received first refl)

Reach-IsSound_example : IsSound (on_read env config peer first (start 7))
Reach-IsSound_example = Reach-IsSound env-RoutesUnframed cut (start-IsSound 7)
