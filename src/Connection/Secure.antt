-- ===== src/Connection/Secure.antt =====
-- src/connection_ssl.cpp: a connection over SSL, which differs from src/connection.cpp in its handshake,
-- in what it makes of a request, and in that it never closes of its own.
use waspp.Base.{◌≡◌, ◌≢◌, inl, inr, true, false, Bytes, Bool, if◌then◌else◌}
use waspp.Request.{Request}
use waspp.Parser.{Parse, parse}
use waspp.Fields.Outcome.{Outcome, done, invalid_part_header, undefined, ◌>>=◌}
use waspp.Fields.Params.{parse_params}
use waspp.Fields.Cookies.{parse_cookies}
use waspp.Fields.Content.{parse_content}
use waspp.Config.{Config}
use waspp.Handler.{Env}
use waspp.Parser.Run.{Tribool-cases}
use waspp.Parser.Sound.{parse-Kept}
use waspp.Handler.Length.{RoutesUnframed}
use waspp.Connection.{
  Connection, Peer, reading, writing, closed, dropped, start, respond, branch, on_error,
}
use waspp.Connection.Answers.{
  IsSound, start-IsSound, respond-IsSound, branch-IsSound, stopped-IsSound, with_written,
}

-- A connection before its handshake, or behind it.
pub data Secure : Type 0 where
  handshaking gone : Secure
  open_with : Connection → Secure

-- The handler of `async_handshake`.
unfoldable pub on_handshake : Bool → Secure
on_handshake ok = if ok then open_with (start 0) else gone

-- What is made of an accepted request: `parse_connection_header` is not called.
unfoldable pub prepare_secure : Peer → Request → Outcome
prepare_secure peer req =
    parse_params (record req { remote_addr = peer.address; remote_port = peer.port }) >>= λ req'.
    parse_content (parse_cookies req')

unfoldable pub answer_secure : Env → Config → Peer → Connection → Connection
unfolding respond
answer_secure env cfg peer c = respond env cfg c (prepare_secure peer c.request)

-- The handler of `async_read_some`, without an error.
unfoldable pub on_read_secure : Env → Config → Peer → Bytes → Connection → Connection
unfolding branch
on_read_secure env cfg peer bytes c =
    branch (answer_secure env cfg peer) c (parse c.parser c.request bytes)

-- The handler of `async_write`, without an error.
unfoldable pub on_write_secure : Connection → Connection
on_write_secure c = record (start 0) { written = c.written }

-- What the environment may do.
pub data Step (env : Env) (cfg : Config) (peer : Peer) : Secure → Secure → Type 0 where
  handshake : (ok : Bool) → Step env cfg peer handshaking (on_handshake ok)
  received :
      (c : Connection) (bytes : Bytes)
      → c.phase ≡ reading
      → Step env cfg peer (open_with c) (open_with (on_read_secure env cfg peer bytes c))
  sent :
      (c : Connection)
      → c.phase ≡ writing
      → Step env cfg peer (open_with c) (open_with (on_write_secure c))
  failed : (c : Connection) → Step env cfg peer (open_with c) (open_with (on_error c))

pub data Reach (env : Env) (cfg : Config) (peer : Peer) (s : Secure) : Secure → Type 0 where
  here : Reach env cfg peer s s
  next : {t u : Secure} → Reach env cfg peer s t → Step env cfg peer t u → Reach env cfg peer s u

-- The soundness of a connection behind its handshake, which also is never closed.
abbrev pub IsOpenSound : Secure → Type 0
IsOpenSound handshaking = Unit
IsOpenSound gone = Unit
IsOpenSound (open_with c) = IsSound c × (c.phase ≢ closed)

respond-stays :
    (env : Env) (cfg : Config) (c : Connection) (outcome : Outcome)
    → (respond env cfg c outcome).phase ≢ closed
unfolding respond
respond-stays env cfg c (done req) = λ e. cc
respond-stays env cfg c invalid_part_header = λ e. cc
respond-stays env cfg c undefined = λ e. cc

branch-stays :
    (accept : Connection → Connection) (c : Connection) (p : Parse)
    → ((d : Connection) → (accept d).phase ≢ closed)
    → c.phase ≢ closed
    → (branch accept c p).phase ≢ closed
unfolding branch
branch-stays accept c p f n = elim (Tribool-cases p.result) [
  | inl accepted ↦ rw (branch, accepted) (f (record c { parser = p.state; request = p.req }))
  | inr (inl rejected) ↦ rw (branch, rejected) (λ e. cc)
  | inr (inr waits) ↦ rw (branch, waits) n
]

Step-IsOpenSound :
    {env : Env} {cfg : Config} {peer : Peer} {s t : Secure}
    → RoutesUnframed env
    → Step env cfg peer s t
    → IsOpenSound s
    → IsOpenSound t
unfolding on_handshake on_read_secure answer_secure on_write_secure on_error
Step-IsOpenSound hs (handshake true) v = (start-IsSound 0, λ e. cc)
Step-IsOpenSound hs (handshake false) v = tt
Step-IsOpenSound {env} {cfg} {peer} hs (received c bytes r) v =
    let p = parse c.parser c.request bytes in
    (
      branch-IsSound (answer_secure env cfg peer) c p
          (λ d. respond-IsSound env cfg d (prepare_secure peer d.request) hs) (v.0.fresh r)
          v.0.answers (parse-Kept c.parser c.request bytes (v.0.parsing r)),
      branch-stays (answer_secure env cfg peer) c p
          (λ d. respond-stays env cfg d (prepare_secure peer d.request)) v.1,
    )
Step-IsOpenSound hs (sent c w) v =
    (with_written (start 0) c.written (start-IsSound 0) v.0.answers, λ e. cc)
Step-IsOpenSound hs (failed c) v = (stopped-IsSound c dropped (λ x. cc) v.0.answers, λ e. cc)

-- When the functions of the routes set no `Content-Length`, then in every state that a connection over
-- SSL reaches: it has not closed of its own, whatever a request's `Connection` header says; while it
-- reads, the parser's invariant holds and the response is fresh; and every response that it has begun
-- to write announces the length of its content and has the status 200, 401, 400, 404 or 500.
pub Reach-IsOpenSound :
    {env : Env} {cfg : Config} {peer : Peer} {s t : Secure}
    → RoutesUnframed env
    → Reach env cfg peer s t
    → IsOpenSound s
    → IsOpenSound t
Reach-IsOpenSound hs here v = v
Reach-IsOpenSound hs (next r s) v = Step-IsOpenSound hs s (Reach-IsOpenSound hs r v)
