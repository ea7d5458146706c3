-- ===== src/Connection.antt =====
-- src/connection.cpp: one connection, from its first byte on. Each asynchronous operation that was
-- started ends in one call of its handler: `on_read` and `on_write` are these handlers, with what the
-- socket gave them. The strand makes them steps of one sequence.
pub mod Chunks
pub mod Answers
pub mod Exchange
pub mod Secure
use waspp.Base.{ℕ, List, [], ◌∷◌, ◌++◌, ◌==◌, if◌then◌else◌, Bytes}
use waspp.Request.{Request, empty_request, parse_connection_header}
use waspp.Response.{Response, static_response}
use waspp.Response.Static.{ok, bad_request}
use waspp.Parser.Step.{State, method_start, is_true, is_false, indeterminate}
use waspp.Parser.{Parse, parse}
use waspp.Fields.Outcome.{Outcome, done, invalid_part_header, undefined, ◌>>=◌}
use waspp.Fields.Params.{parse_params}
use waspp.Fields.Cookies.{parse_cookies}
use waspp.Fields.Content.{parse_content}
use waspp.Config.{Config}
use waspp.Handler.{Env, handle_request}

-- What a connection waits for; `dropped`: no operation is started, and the object is destroyed;
-- `threw`: an exception left the handler; `undefined_behaviour`: what follows is not defined.
pub data Phase : Type 0 where
  reading writing closed dropped threw undefined_behaviour : Phase

-- `socket_.remote_endpoint()`
pub record Peer : Type 0 where
  pub address : Bytes
  pub port : ℕ

-- The members of the class, what the connection waits for, and the responses whose writing began.
pub record Connection : Type 0 where
  pub parser : State
  pub request : Request
  pub response : Response
  pub phase : Phase
  pub written : List Response

-- `response()`. Its status is not one of the enumeration's until the handler sets it; `ok` holds
-- the place.
abbrev pub empty_response : Response
empty_response = record {
  status = ok;
  headers = [];
  cookies = [];
  content = [];
  content_extension = [];
}

-- The constructor, and `start`. It leaves `connection_option` as the memory was.
abbrev pub start : ℕ → Connection
start option = record {
  parser = method_start;
  request = record empty_request { connection_option = option };
  response = empty_response;
  phase = reading;
  written = [];
}

-- `do_write`, which hands the response's buffers to the socket.
abbrev pub do_write : Connection → Connection
do_write c = record c { phase = writing; written = c.written ++ c.response ∷ [] }

-- What is made of an accepted request before the request handler has it.
unfoldable pub prepare : Peer → Request → Outcome
prepare peer req =
    parse_params
      (parse_connection_header (record req { remote_addr = peer.address; remote_port = peer.port }))
    >>= λ req'. parse_content (parse_cookies req')

-- What follows the preparation of a request.
unfoldable pub respond : Env → Config → Connection → Outcome → Connection
respond env cfg c (done req) =
    let (req', res) = handle_request env cfg req c.response in
    do_write (record c { request = req'; response = res })
respond env cfg c invalid_part_header = record c { phase = threw }
respond env cfg c undefined = record c { phase = undefined_behaviour }

-- The branch of an accepted request.
unfoldable pub answer : Env → Config → Peer → Connection → Connection
unfolding respond
answer env cfg peer c = respond env cfg c (prepare peer c.request)

-- The three branches on the parser's result, over the branch of an accepted request; what the parser
-- leaves of the bytes is ignored.
unfoldable pub branch : (Connection → Connection) → Connection → Parse → Connection
branch accept c p =
    let c' = record c { parser = p.state; request = p.req } in
    elim p.result [
      | is_true ↦ accept c'
      | is_false ↦ do_write (record c' { response = static_response bad_request })
      | indeterminate ↦ c'
    ]

unfoldable pub conclude : Env → Config → Peer → Connection → Parse → Connection
unfolding branch
conclude env cfg peer c p = branch (answer env cfg peer) c p

-- The handler of `async_read_some`, without an error.
unfoldable pub on_read : Env → Config → Peer → Bytes → Connection → Connection
on_read env cfg peer bytes c = conclude env cfg peer c (parse c.parser c.request bytes)

-- The handler of `async_write`, without an error.
unfoldable pub on_write : Connection → Connection
on_write c =
    if c.request.connection_option == b'c'
    then record c { phase = closed }
    else record (start 0) { written = c.written }

-- Either handler, with an error.
unfoldable pub on_error : Connection → Connection
on_error c = record c { phase = dropped }
