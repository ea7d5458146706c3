-- ===== src/Connection/Chunks.antt =====
-- src/connection.cpp: input that comes in pieces.
use waspp.Base.{
  ◌≡◌, ◌≢◌, refl, sym, ap, ◌∙◌, inl, inr, List, [], ◌∷◌, ◌++◌, Bytes, All, append-nil, arith,
}
use waspp.Request.{Request}
use waspp.Config.{Config}
use waspp.Parser.Step.{State, indeterminate}
use waspp.Parser.{Parse, parse}
use waspp.Parser.Run.{Tribool-cases, resume, parse-append}
use waspp.Handler.{Env}
use waspp.Connection.{branch, Connection, Peer, on_read, conclude}

-- Reading what comes in pieces, one after another.
unfoldable pub read_all : Env → Config → Peer → List Bytes → Connection → Connection
read_all env cfg peer [] c = c
read_all env cfg peer (x ∷ xs) c = read_all env cfg peer xs (on_read env cfg peer x c)

abbrev pub concat : List Bytes → Bytes
concat [] = []
concat (x ∷ xs) = x ++ concat xs

conclude-indeterminate :
    (env : Env) (cfg : Config) (peer : Peer) (c : Connection) (p : Parse)
    → p.result ≡ indeterminate
    → conclude env cfg peer c p ≡ record c { parser = p.state; request = p.req }
unfolding conclude branch
conclude-indeterminate env cfg peer c p h = rw (conclude, branch, h)

resume-indeterminate :
    (p : Parse) (ys : Bytes) → p.result ≡ indeterminate → resume p ys ≡ parse p.state p.req ys
resume-indeterminate p ys h = ground arith

conclude-resume :
    (env : Env) (cfg : Config) (peer : Peer) (c : Connection) (p : Parse) (ys : Bytes)
    → p.result ≢ indeterminate
    → conclude env cfg peer c (resume p ys) ≡ conclude env cfg peer c p
unfolding conclude branch
conclude-resume env cfg peer c p ys h = elim (Tribool-cases p.result) [
  | inl accepted ↦ ground arith
  | inr (inl rejected) ↦ ground arith
  | inr (inr waits) ↦ absurd (h waits)
]

-- A piece that leaves the parser waiting and the next one do what both do in one piece.
on_read-append :
    (env : Env) (cfg : Config) (peer : Peer) (xs ys : Bytes) (c : Connection)
    → (parse c.parser c.request xs).result ≡ indeterminate
    → on_read env cfg peer ys (on_read env cfg peer xs c) ≡ on_read env cfg peer (xs ++ ys) c
unfolding on_read conclude branch
on_read-append env cfg peer xs ys c h =
    let p = parse c.parser c.request xs in
    let whole = parse-append c.parser c.request xs ys ∙ resume-indeterminate p ys h in
    ap (on_read env cfg peer ys) (conclude-indeterminate env cfg peer c p h)
    ∙ ap (conclude env cfg peer c) (sym whole)

-- Bytes that the network delivers in one piece with the end of a request, and behind it, are lost:
-- the connection does what it does without them.
on_read_complete :
    (env : Env) (cfg : Config) (peer : Peer) (xs ys : Bytes) (c : Connection)
    → (parse c.parser c.request xs).result ≢ indeterminate
    → on_read env cfg peer (xs ++ ys) c ≡ on_read env cfg peer xs c
unfolding on_read
on_read_complete env cfg peer xs ys c h =
    ap (conclude env cfg peer c) (parse-append c.parser c.request xs ys)
    ∙ conclude-resume env cfg peer c (parse c.parser c.request xs) ys h

prefix-indeterminate :
    (s : State) (req : Request) (xs ys : Bytes)
    → (parse s req (xs ++ ys)).rest ≡ []
    → ys ≢ []
    → (parse s req xs).result ≡ indeterminate
prefix-indeterminate s req xs ys e n =
    let p = parse s req xs in
    let whole : (resume p ys).rest ≡ [] = ap (λ r. r.rest) (sym (parse-append s req xs ys)) ∙ e in
    elim (Tribool-cases p.result) [
      | inl accepted ↦ absurd (n (append-eq-nil p.rest ys (ground arith)))
      | inr (inl rejected) ↦ absurd (n (append-eq-nil p.rest ys (ground arith)))
      | inr (inr waits) ↦ waits
    ]
  where
    append-eq-nil : (ps qs : Bytes) → ps ++ qs ≡ [] → qs ≡ []
    append-eq-nil [] qs h = h
    append-eq-nil (p ∷ ps) qs h = cc

concat-ne-nil : (x : Bytes) (xs : List Bytes) → x ≢ [] → concat (x ∷ xs) ≢ []
concat-ne-nil [] xs h = absurd (h refl)
concat-ne-nil (c ∷ x) xs h = λ e. cc

-- Where the parser consumes exactly what comes, in pieces none of which is empty, the connection does
-- what it does when all of it comes in one piece.
pub read_all-on_read :
    (env : Env) (cfg : Config) (peer : Peer) (x : Bytes) (xs : List Bytes) (c : Connection)
    → All (λ y. y ≢ []) (x ∷ xs)
    → (parse c.parser c.request (concat (x ∷ xs))).rest ≡ []
    → read_all env cfg peer (x ∷ xs) c ≡ on_read env cfg peer (concat (x ∷ xs)) c
unfolding read_all
read_all-on_read env cfg peer x [] c n e = ap (λ y. on_read env cfg peer y c) (sym (append-nil x))
read_all-on_read env cfg peer x (y ∷ ys) c n e =
    let p = parse c.parser c.request x in
    let more = concat (y ∷ ys) in
    let waits = prefix-indeterminate c.parser c.request x more e (concat-ne-nil y ys n.1.0) in
    let c' = record c { parser = p.state; request = p.req } in
    let first = read_waits waits in
    let whole = parse-append c.parser c.request x more ∙ resume-indeterminate p more waits in
    ap (read_all env cfg peer (y ∷ ys)) first
    ∙ read_all-on_read env cfg peer y ys c' n.1 (ap (λ r. r.rest) (sym whole) ∙ e)
    ∙ ap (on_read env cfg peer more) (sym first)
    ∙ on_read-append env cfg peer x more c waits
  where
    read_waits :
        (parse c.parser c.request x).result ≡ indeterminate
        → on_read env cfg peer x c ≡ record c {
          parser = (parse c.parser c.request x).state;
          request = (parse c.parser c.request x).req;
        }
    read_waits w =
        unfold on_read in conclude-indeterminate env cfg peer c (parse c.parser c.request x) w
