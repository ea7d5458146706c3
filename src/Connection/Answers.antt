-- ===== src/Connection/Answers.antt =====
-- src/connection.cpp: the steps of a connection, whatever the client sends and however the operations
-- end.
use waspp.Base.{
  ℕ, ◌≡◌, ◌≢◌, refl, subst, Bool-cases, ◌==◌, ◌⊎◌, inl, inr, List, [], ◌∷◌, Bytes, All, All-append,
}
use waspp.Request.{find_value}
use waspp.Response.{Response, static_response}
use waspp.Response.Static.{bad_request}
use waspp.Config.{Config}
use waspp.Parser.{Parse, parse}
use waspp.Parser.Clean.{IsClean}
use waspp.Parser.Sound.{initial-Inv, parse-Kept}
use waspp.Parser.Run.{Tribool-cases}
use waspp.Parser.Sound.Defs.{Inv, Kept}
use waspp.Fields.Outcome.{Outcome, done, invalid_part_header, undefined}
use waspp.Handler.{Env, handle_request}
use waspp.Handler.Length.{
  Unframed, RoutesUnframed, IsAnswer, handle_request-IsAnswer, static_response-IsAnswer,
}
use waspp.Connection.{
  branch, respond, Connection, Peer, Phase, reading, writing, closed, dropped, threw,
  undefined_behaviour, start, empty_response, do_write, prepare, answer, conclude, on_read,
  on_write, on_error,
}

-- What the environment may do: bytes arrive while the connection reads, the response is sent while it
-- writes, and either operation may fail.
pub data Step (env : Env) (cfg : Config) (peer : Peer) (c : Connection) : Connection → Type 0 where
  received :
      (bytes : Bytes) → c.phase ≡ reading → Step env cfg peer c (on_read env cfg peer bytes c)
  sent : c.phase ≡ writing → Step env cfg peer c (on_write c)
  failed : (c.phase ≡ reading) ⊎ (c.phase ≡ writing) → Step env cfg peer c (on_error c)

pub data Reach (env : Env) (cfg : Config) (peer : Peer) (c : Connection) : Connection → Type 0 where
  here : Reach env cfg peer c c
  next :
      {d e : Connection} → Reach env cfg peer c d → Step env cfg peer d e → Reach env cfg peer c e

-- While it reads, the parser's invariant holds of the request that is being built and the response
-- is fresh; and every response written so far announces its length and has a status that the handler
-- gives.
pub record IsSound (c : Connection) : Type 0 where
  pub parsing : c.phase ≡ reading → Inv c.parser c.request
  pub fresh : c.phase ≡ reading → c.response ≡ empty_response
  pub answers : All IsAnswer c.written

empty_response-Unframed : Unframed empty_response
unfolding find_value
empty_response-Unframed = refl

pub start-IsSound : (option : ℕ) → IsSound (start option)
start-IsSound option =
    let v = initial-Inv in
    let clean : IsClean (start option).request = record {
      method_token = v.clean.method_token;
      uri_text = v.clean.uri_text;
      headers_clean = v.clean.headers_clean;
      params_clean = v.clean.params_clean;
    } in
    record {
      parsing = λ e. record { clean = clean; has_back = v.has_back; counted = v.counted };
      fresh = λ e. refl;
      answers = tt;
    }

writing-ne-reading : writing ≢ reading
writing-ne-reading e = cc

pub with_written :
    (c : Connection) (rs : List Response)
    → IsSound c
    → All IsAnswer rs
    → IsSound (record c { written = rs })
with_written c rs v h = record { parsing = v.parsing; fresh = v.fresh; answers = h }

-- A connection that has stopped keeps what it has written.
pub stopped-IsSound :
    (c : Connection) (phase : Phase)
    → phase ≢ reading
    → All IsAnswer c.written
    → IsSound (record c { phase = phase })
stopped-IsSound c phase n h = record {
  parsing = λ e. absurd (n e);
  fresh = λ e. absurd (n e);
  answers = h;
}

do_write-IsSound :
    (c : Connection) → All IsAnswer c.written → IsAnswer c.response → IsSound (do_write c)
do_write-IsSound c h k = record {
  parsing = λ e. absurd (writing-ne-reading e);
  fresh = λ e. absurd (writing-ne-reading e);
  answers = All-append IsAnswer c.written (c.response ∷ []) h (k, tt);
}

pub respond-IsSound :
    (env : Env) (cfg : Config) (c : Connection) (outcome : Outcome)
    → RoutesUnframed env
    → c.response ≡ empty_response
    → All IsAnswer c.written
    → IsSound (respond env cfg c outcome)
unfolding respond
respond-IsSound env cfg c (done req) hs e h =
    let pair = handle_request env cfg req c.response in
    let unframed : Unframed c.response = rw e empty_response-Unframed in
    do_write-IsSound (record c { request = pair.0; response = pair.1 }) h
      (handle_request-IsAnswer env cfg req c.response hs unframed)
respond-IsSound env cfg c invalid_part_header hs e h = stopped-IsSound c threw (λ x. cc) h
respond-IsSound env cfg c undefined hs e h = stopped-IsSound c undefined_behaviour (λ x. cc) h

pub branch-IsSound :
    (accept : Connection → Connection) (c : Connection) (p : Parse)
    → ((d : Connection) → d.response ≡ empty_response → All IsAnswer d.written → IsSound (accept d))
    → c.response ≡ empty_response
    → All IsAnswer c.written
    → Kept p.result p.state p.req
    → IsSound (branch accept c p)
unfolding branch
branch-IsSound accept c p f e h k =
    let c' = record c { parser = p.state; request = p.req } in
    elim (Tribool-cases p.result) [
      | inl accepted ↦ rw (branch, accepted) (f c' e h)
      | inr (inl rejected) ↦
          rw (branch, rejected)
            (do_write-IsSound (record c' { response = static_response bad_request }) h
              (static_response-IsAnswer bad_request (inr (inr (inl refl)))))
      | inr (inr waits) ↦
          rw (branch, waits)
            (record {
              parsing = λ x. subst (λ t. Kept t p.state p.req) waits k;
              fresh = λ x. e;
              answers = h;
            })
    ]

on_write-IsSound : (c : Connection) → All IsAnswer c.written → IsSound (on_write c)
unfolding on_write
on_write-IsSound c h = elim (Bool-cases (c.request.connection_option == b'c')) [
  | inl close ↦ rw (on_write, close) (stopped-IsSound c closed (λ x. cc) h)
  | inr keep ↦ rw (on_write, keep) (with_written (start 0) c.written (start-IsSound 0) h)
]

Step-IsSound :
    {env : Env} {cfg : Config} {peer : Peer} {c d : Connection}
    → RoutesUnframed env
    → Step env cfg peer c d
    → IsSound c
    → IsSound d
unfolding on_read conclude answer on_error
Step-IsSound {env} {cfg} {peer} {c} hs (received bytes r) v =
    branch-IsSound (answer env cfg peer) c (parse c.parser c.request bytes)
      (λ d. respond-IsSound env cfg d (prepare peer d.request) hs) (v.fresh r) v.answers
      (parse-Kept c.parser c.request bytes (v.parsing r))
Step-IsSound {c} hs (sent w) v = on_write-IsSound c v.answers
Step-IsSound {c} hs (failed w) v = stopped-IsSound c dropped (λ x. cc) v.answers

-- When the functions of the routes set no `Content-Length`, then in every state that a connection
-- reaches, whatever the client sends and however the operations end: while it reads, the parser's
-- invariant holds and the response is fresh, and every response that it has begun to write announces
-- the length of its content and has the status 200, 401, 400, 404 or 500.
pub Reach-IsSound :
    {env : Env} {cfg : Config} {peer : Peer} {c d : Connection}
    → RoutesUnframed env
    → Reach env cfg peer c d
    → IsSound c
    → IsSound d
Reach-IsSound hs here v = v
Reach-IsSound hs (next r s) v = Step-IsSound hs s (Reach-IsSound hs r v)
