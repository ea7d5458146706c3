-- ===== src/Parser/Message/ZeroLength.antt =====
-- A POST that declares an empty body.
use waspp.Base.{
  ◌+◌, ◌-◌, ◌%◌, ◌^◌, ◌<◌, ◌≡◌, ◌≢◌, refl, ◌∙◌, [], ◌∷◌, ◌++◌, Bytes, codes, equal_iff, length,
  arith,
}
use waspp.Request.{Request, empty_request, lookup}
use waspp.Parser.Step.{
  is_true, indeterminate, method_start, expecting_newline_3, content_start, content, step,
  step_expecting_newline_3, step_content_start, step_content, take_content, breaks,
}
use waspp.Parser.{parse}
use waspp.Parser.Run.{run, parse-run}
use waspp.Parser.Sound.Defs.{declared}
use waspp.Parser.Message.Format.{Message, IsMessage, format_head}
use waspp.Parser.Message.Line.{run-breaks}
use waspp.Parser.Message.Read.{read_request, run-head, start_content-declared}

-- Fewer bytes than the counter asks for complete no body.
run-content_short :
    (input : Bytes) (req : Request)
    → length input < req.content_length
    → req.content_length < 2 ^ 32
    → (run content req input).result ≢ is_true
unfolding run step step_content take_content
run-content_short [] req h k = λ e. cc
run-content_short (c ∷ cs) req h k = ground (
  arith,
  run-content_short cs (record req {
    content_length = (req.content_length + (2 ^ 32 - 1)) % 2 ^ 32;
    content = req.content ++ c ∷ [];
  }),
)

run-content_start_zero :
    (input : Bytes) (req : Request)
    → req.content_length ≡ 0
    → length input < 2 ^ 32
    → (run content_start req input).result ≢ is_true
unfolding run step step_content_start take_content
run-content_start_zero [] req e h = λ p. cc
run-content_start_zero (c ∷ cs) req e h = ground (
  arith,
  run-content_short cs (record req {
    content_length = (req.content_length + (2 ^ 32 - 1)) % 2 ^ 32;
    content = req.content ++ c ∷ [];
  }),
)

step_post_zero :
    (req : Request)
    → req.method ≡ codes "POST"
    → (lookup (codes "Content-Length") req.headers).0 ≢ []
    → declared req.headers ≡ 0
    → step expecting_newline_3 b'\n' req
      ≡ breaks indeterminate content_start (record req { content_length = 0 })
unfolding step step_expecting_newline_3
step_post_zero req e n d = ground (
  arith,
  equal_iff req.method (codes "GET"),
  equal_iff req.method (codes "POST"),
  start_content-declared req 0 n d,
)

-- A POST whose `Content-Length` header is not empty and reads as 0 is never accepted, whatever fewer
-- than 2 ^ 32 bytes follow its head: the counter is decremented before it is compared with zero.
pub parse-zero_length :
    (m : Message) (input : Bytes)
    → IsMessage m
    → m.method ≡ codes "POST"
    → (lookup (codes "Content-Length") m.headers).0 ≢ []
    → declared m.headers ≡ 0
    → length input < 2 ^ 32
    → (parse method_start empty_request (format_head m input)).result ≢ is_true
parse-zero_length m input v e n d h =
    rw
      (parse-run method_start empty_request (format_head m input)
        ∙ run-head m input v
        ∙ run-breaks _ _ _ input (step_post_zero (read_request m) e n d))
      (run-content_start_zero input (record (read_request m) { content_length = 0 }) refl h)
