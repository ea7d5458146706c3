-- ===== src/Routes/Tidy.antt =====
-- What the steps of the functions of the routes leave alone: the framing of the response, and the
-- statements that were run.
use waspp.Base.{
  ◌≡◌, refl, ap, ◌∙◌, false, List, [], ◌∷◌, ◌++◌, Bytes, codes, equal, none, some, All, All-append,
  Option-cases, inl, inr, Option,
}
use waspp.Request.{find_value}
use waspp.Response.{Response, redirect_to}
use waspp.Router.{get_file}
use waspp.Handler.Length.{
  Unframed, length_name, find_value-append, find_value-other, get_file-Unframed,
}
use waspp.Session as Session
use waspp.Session.{Loaded, accepted, refused}
use waspp.Session.Headers.{session-headers, put-headers, headers_of}
use waspp.Routes.{
  State, World, Statement, Target, Bound, ErrorType, change, get_param, sess_get, redirect, message,
  open_session, sess_put, include, error_page, send_jsonp, connect, query, call, execute,
  after_session, after_run,
}
use waspp.Routes.Trees.{Json}
use waspp.Routes.Ends.{EndsIn, Keeps, ◌>>=-Keeps◌}

abbrev pub statement : Target → Bytes → List Bound → Statement
statement t sql values = record { target = t; sql = sql; values = values }

-- The response has no `Content-Length` yet, and every statement that was run is allowed.
pub record Tidy {W : Type 0} (Allowed : Statement → Type 0) (s : State W) : Type 0 where
  pub unframed : Unframed s.res
  pub allowed : All Allowed s.trace

refresh-name : equal (codes "Refresh") length_name ≡ false
unfolding equal
refresh-name = refl

redirect_to-Unframed :
    (res : Response) (url : Bytes) → Unframed res → Unframed (redirect_to res url)
unfolding redirect_to
redirect_to-Unframed res url h =
    find_value-append length_name res.headers _ h
    ∙ find_value-other (codes "Refresh") (codes "0; url=" ++ url) refresh-name

module _ {W : Type 0} {Q : Statement → Type 0} where
  pub change-Keeps :
      (f : Response → Response)
      → ((res : Response) → Unframed res → Unframed (f res))
      → Keeps {W = W} (Tidy Q) (change f)
  unfolding change
  change-Keeps f h = record {
    ends = λ s p. record { unframed = h s.res p.unframed; allowed = p.allowed };
  }

  pub get_param-Keeps : (name : Bytes) → Keeps {W = W} (Tidy Q) (get_param name)
  unfolding get_param
  get_param-Keeps name = record {
    ends = λ s p. record { unframed = p.unframed; allowed = p.allowed };
  }

  pub sess_get-Keeps : (name : Bytes) → Keeps {W = W} (Tidy Q) (sess_get name)
  unfolding sess_get
  sess_get-Keeps name = record {
    ends = λ s p. record { unframed = p.unframed; allowed = p.allowed };
  }

  pub redirect-Keeps : (url : Bytes) → Keeps {W = W} (Tidy Q) (redirect url)
  unfolding redirect
  redirect-Keeps url = record {
    ends =
        λ s p. record { unframed = redirect_to-Unframed s.res url p.unframed; allowed = p.allowed };
  }

  pub message-Keeps : (e : ErrorType) → Keeps {W = W} (Tidy Q) (message e)
  unfolding message
  message-Keeps e = record { ends = λ s p. record { unframed = p.unframed; allowed = p.allowed } }

module _ {W : Type 0} (out : World W) {Q : Statement → Type 0} where
  after_session-EndsIn :
      (s : State W) (result : Loaded)
      → headers_of result ≡ s.res.headers
      → Tidy Q s
      → EndsIn (Tidy Q) (after_session out s result)
  after_session-EndsIn s (accepted t) e p = record {
    unframed = ap (find_value length_name) e ∙ p.unframed;
    allowed = p.allowed;
  }
  after_session-EndsIn s (refused t) e p = record {
    unframed = ap (find_value length_name) e ∙ p.unframed;
    allowed = p.allowed;
  }
  after_session-EndsIn s (Loaded.threw t) e p = record {
    unframed = ap (find_value length_name) e ∙ p.unframed;
    allowed = p.allowed;
  }

  pub open_session-Keeps : Keeps (Tidy Q) (open_session out)
  unfolding open_session
  open_session-Keeps = record {
    ends = λ s p.
        let fresh : Session.Session = record { entries = []; req = s.req; res = s.res } in
        after_session-EndsIn s (Session.session out.session s.cfg fresh)
          (session-headers out.session s.cfg fresh) p;
  }

  pub sess_put-Keeps : (name value : Bytes) → Keeps (Tidy Q) (sess_put out name value)
  unfolding sess_put
  sess_put-Keeps name value = record {
    ends = λ s p.
        let sess : Session.Session = record { entries = s.entries; req = s.req; res = s.res } in
        record {
          unframed =
              ap (find_value length_name) (put-headers out.session s.cfg name value sess)
              ∙ p.unframed;
          allowed = p.allowed;
        };
  }

  pub include-Keeps : (path : Bytes) → Keeps (Tidy Q) (include out path)
  unfolding include
  include-Keeps path = record {
    ends = λ s p. elim (Option-cases (get_file out.files s.cfg s.res path)) [
      | inl missing ↦ rw (EndsIn, include, missing) p
      | inr (res, found) ↦
          rw (EndsIn, include, found)
            (record {
              unframed = get_file-Unframed out.files s.cfg s.res res path p.unframed found;
              allowed = p.allowed;
            })
    ];
  }

  pub send_jsonp-Keeps : (json : Json) → Keeps (Tidy Q) (send_jsonp out json)
  unfolding send_jsonp
  send_jsonp-Keeps json = change-Keeps _ (λ res h. h)

  pub error_page-Keeps : (e : ErrorType) → Keeps (Tidy Q) (error_page out e)
  unfolding error_page
  error_page-Keeps e = change-Keeps _ (λ res h. h) >>=-Keeps λ _.
      include-Keeps (codes "dir_include_header.html") >>=-Keeps λ _. message-Keeps e >>=-Keeps λ m.
      change-Keeps _ (λ res h. h) >>=-Keeps λ _.
      include-Keeps (codes "dir_include_footer.html") >>=-Keeps λ _. change-Keeps _ (λ res h. h)

  pub connect-Keeps : (t : Target) → Keeps (Tidy Q) (connect out t)
  unfolding connect
  connect-Keeps t = record {
    ends = λ s p. elim (Option-cases (out.server.connect t s.db)) [
      | inl refused_it ↦ rw (EndsIn, connect, refused_it) p
      | inr (db, made) ↦
          rw (EndsIn, connect, made) (record { unframed = p.unframed; allowed = p.allowed })
    ];
  }

  after_run-EndsIn :
      {A : Type 0} (s : State W) (st : Statement) (result : Option (A × W))
      → Q st
      → Tidy Q s
      → EndsIn (Tidy Q) (after_run out s st result)
  after_run-EndsIn s st none q p = record {
    unframed = p.unframed;
    allowed = All-append Q s.trace (st ∷ []) p.allowed (q, tt);
  }
  after_run-EndsIn s st (some (a, db)) q p = record {
    unframed = p.unframed;
    allowed = All-append Q s.trace (st ∷ []) p.allowed (q, tt);
  }

  pub query-Keeps :
      (t : Target) (sql : Bytes) (values : List Bound)
      → Q (statement t sql values)
      → Keeps (Tidy Q) (query out t sql values)
  unfolding query
  query-Keeps t sql values q = record { ends = λ s p. after_run-EndsIn s _ _ q p }

  pub call-Keeps :
      (t : Target) (sql : Bytes) (values : List Bound)
      → Q (statement t sql values)
      → Keeps (Tidy Q) (call out t sql values)
  unfolding call
  call-Keeps t sql values q = record { ends = λ s p. after_run-EndsIn s _ _ q p }

  pub execute-Keeps :
      (t : Target) (sql : Bytes) (values : List Bound)
      → Q (statement t sql values)
      → Keeps (Tidy Q) (execute out t sql values)
  unfolding execute
  execute-Keeps t sql values q = record { ends = λ s p. after_run-EndsIn s _ _ q p }
