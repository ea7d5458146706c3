-- ===== src/Connection/Exchange.antt =====
-- One exchange from the first byte of a request to the response and the next request.
use waspp.Base.{
  ◌≡◌, ◌≢◌, refl, sym, subst, ap, ◌∙◌, inl, inr, List, [], ◌∷◌, ◌++◌, Bytes, codes, All, arith,
}
use waspp.Request.{Request, header, parse_connection_header}
use waspp.Response.{Response}
use waspp.Config.{Config}
use waspp.Parser.Step.{State, expecting_newline_3, is_true, method_start}
use waspp.Parser.{parse}
use waspp.Parser.Message.Format.{Message, IsMessage, format_head}
use waspp.Parser.Message.Read.{read_request, parse-format_get}
use waspp.Fields.Outcome.{Outcome-cases, done, invalid_part_header}
use waspp.Fields.Params.{parse_params, parse_params-undefined_iff}
use waspp.Fields.Cookies.{parse_cookies}
use waspp.Fields.Content.{parse_content}
use waspp.Handler.{Env, handle_request}
use waspp.Connection.{
  branch, respond, Connection, Peer, start, do_write, prepare, answer, conclude, on_read,
}
use waspp.Connection.Chunks.{read_all, concat, read_all-on_read}

-- `d` is `c` after the handler has had the request, with the response on its way.
pub record Answered (env : Env) (cfg : Config) (peer : Peer) (c d : Connection) : Type 0 where
  pub prepared : Request
  pub ready : prepare peer c.request ≡ done prepared
  pub outcome :
      d
      ≡ do_write (record c {
        request = (handle_request env cfg prepared c.response).0;
        response = (handle_request env cfg prepared c.response).1;
      })

parse_params-content :
    (req req' : Request) → parse_params req ≡ done req' → req'.content ≡ req.content
unfolding parse_params
parse_params-content req req' h = ground arith

parse_params-valid : (req : Request) → parse_params req ≢ invalid_part_header
unfolding parse_params
parse_params-valid req h = ground arith

parse_content-empty : (req : Request) → req.content ≡ [] → parse_content req ≡ done req
unfolding parse_content
parse_content-empty req h = rw (parse_content, h)

parse_cookies-content : (req : Request) → (parse_cookies req).content ≡ req.content
unfolding parse_cookies header
parse_cookies-content req = ground arith

parse_connection_header-content :
    (req : Request) → (parse_connection_header req).content ≡ req.content
unfolding parse_connection_header header
parse_connection_header-content req = refl

-- A request with no content and a URI is prepared.
prepare-done :
    (peer : Peer) (req : Request)
    → req.content ≡ []
    → req.rest_params ≡ []
    → req.uri ≢ []
    → (req' : Request) × (prepare peer req ≡ done req')
unfolding prepare parse_connection_header header
prepare-done peer req e f n =
    let here = record req { remote_addr = peer.address; remote_port = peer.port } in
    let known = parse_connection_header here in
    elim (Outcome-cases (parse_params known)) [
      | inl (req', parsed) ↦
          let empty =
            parse_cookies-content req'
            ∙ parse_params-content known req' parsed
            ∙ parse_connection_header-content here
            ∙ e in
          (
            parse_cookies req',
            rw (prepare, parsed) (parse_content-empty (parse_cookies req') empty),
          )
      | inr (inl invalid) ↦ absurd (parse_params-valid known invalid)
      | inr (inr broken) ↦ absurd (n ((parse_params-undefined_iff known f).0 broken))
    ]

answer-Answered :
    (env : Env) (cfg : Config) (peer : Peer) (c : Connection)
    → (req' : Request) → prepare peer c.request ≡ done req'
    → Answered env cfg peer c (answer env cfg peer c)
unfolding answer respond
answer-Answered env cfg peer c req' h = record {
  prepared = req';
  ready = h;
  outcome = rw (answer, respond, h);
}

on_read-accepted :
    (env : Env) (cfg : Config) (peer : Peer) (c : Connection) (bytes : Bytes) (s : State)
    (req : Request) (rest : Bytes)
    → parse c.parser c.request bytes
      ≡ record { result = is_true; state = s; req = req; rest = rest }
    → on_read env cfg peer bytes c ≡ answer env cfg peer (record c { parser = s; request = req })
unfolding on_read conclude branch
on_read-accepted env cfg peer c bytes s req rest h = ap (conclude env cfg peer c) h

append-ne-nil : (xs ys : Bytes) → xs ≢ [] → xs ++ ys ≢ []
append-ne-nil [] ys h = absurd (h refl)
append-ne-nil (x ∷ xs) ys h = λ e. cc

-- A connection that waits for its next request, as `on_write` leaves it.
abbrev pub waiting : List Response → Connection
waiting ws = record (start 0) { written = ws }

-- A connection that waits for a request, as a new one and one that has written responses do, receives a GET whose path is not
-- empty, in any pieces of which none is empty. Then it has prepared the request field by field, has
-- the request handler's response to it, and writes that response.
pub read_all-Answered :
    (env : Env) (cfg : Config) (peer : Peer) (ws : List Response) (m : Message) (x : Bytes)
    (xs : List Bytes)
    → IsMessage m
    → m.method ≡ codes "GET"
    → m.path ≢ []
    → All (λ y. y ≢ []) (x ∷ xs)
    → concat (x ∷ xs) ≡ format_head m []
    → Answered env cfg peer
        (record (waiting ws) { parser = expecting_newline_3; request = read_request m })
        (read_all env cfg peer (x ∷ xs) (waiting ws))
read_all-Answered env cfg peer ws m x xs v e p n t =
    let whole = ap (parse method_start (waiting ws).request) t ∙ parse-format_get m [] v e in
    let came = read_all-on_read env cfg peer x xs (waiting ws) n (ap (λ q. q.rest) whole) in
    let (req', ready) = prepare-done peer (read_request m) refl refl (append-ne-nil m.path _ p) in
    let waits = record (waiting ws) { parser = expecting_newline_3; request = read_request m } in
    subst (Answered env cfg peer waits)
      (sym (came ∙ on_read-accepted env cfg peer (waiting ws) (concat (x ∷ xs)) _ _ _ whole))
      (answer-Answered env cfg peer waits req' ready)
