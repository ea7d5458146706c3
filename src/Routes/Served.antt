-- ===== src/Routes/Served.antt =====
-- src/request_handler.cpp with the functions of src/route_dir_*.cpp behind it.
use waspp.Base.{List, Bool, ◌≡◌, subst, Bytes, All, arith}
use waspp.Request.{Request}
use waspp.Response.{Response}
use waspp.Config.{Config}
use waspp.Router.{Route}
use waspp.Handler.{handled, handle_request}
use waspp.Handler.Length.{Unframed, RoutesUnframed, IsAnswer, handle_request-IsAnswer}
use waspp.Routes.{World, Statement, Ended, goes_on, returned, threw}
use waspp.Routes.Ends.{EndsIn, EndsIn-map}
use waspp.Routes.Tidy.{Tidy}
use waspp.Routes.Table.{run_route, start, seen, environment}
use waspp.Routes.Placed.{run_route-Keeps}
use waspp.Routes.Placed.Statements.{IsPlaced}

module _ {W : Type 0} (out : World W) where
  seen-Unframed :
      (Q : Statement → Type 0) (e : Ended W (Unit {0})) (req : Request) (res : Response)
      → EndsIn (Tidy Q) e
      → seen e ≡ handled req res
      → Unframed res
  seen-Unframed Q (goes_on x s) req res h e =
      let same : s.res ≡ res = cc in subst Unframed same h.unframed
  seen-Unframed Q (returned s) req res h e =
      let same : s.res ≡ res = cc in subst Unframed same h.unframed
  seen-Unframed Q (threw s) req res h e = absurd (ground arith)

  start-Tidy :
      (db : W) (cfg : Config) (req : Request) (res : Response)
      → Unframed res
      → Tidy IsPlaced (start db cfg req res)
  start-Tidy db cfg req res h = record { unframed = h; allowed = tt }

  -- However the function of a route ends, in each statement that it ran every placeholder is given a
  -- value and no value is left over; the response has no `Content-Length` header at the start.
  pub run_route-IsPlaced :
      (route : Route) (db : W) (cfg : Config) (req : Request) (res : Response)
      → Unframed res
      → EndsIn (λ s. All IsPlaced s.trace) (run_route out route (start db cfg req res))
  run_route-IsPlaced route db cfg req res h =
      EndsIn-map (Tidy IsPlaced) (λ s. All IsPlaced s.trace)
        (run_route out route (start db cfg req res)) (λ s k. k.allowed)
        ((run_route-Keeps out route).ends (start db cfg req res) (start-Tidy db cfg req res h))

  environment-RoutesUnframed :
      (gzip : Bytes → Bytes) (find : List Bytes → Bytes → Bool) (db : W)
      → RoutesUnframed (environment out gzip find db)
  unfolding environment
  environment-RoutesUnframed gzip find db route cfg req req' res res' h e =
      seen-Unframed IsPlaced (run_route out route (start db cfg req res)) req' res'
        ((run_route-Keeps out route).ends (start db cfg req res) (start-Tidy db cfg req res h)) e

  -- With the functions of the routes behind the handler, whatever the databases, the files and the
  -- sessions do, every response has a `Content-Length` header with the decimal length of its content,
  -- and its status is 200, 401, 400, 404 or 500; the response has no such header at the start.
  pub environment-IsAnswer :
      (gzip : Bytes → Bytes) (find : List Bytes → Bytes → Bool) (db : W) (cfg : Config)
      (req : Request) (res : Response)
      → Unframed res
      → IsAnswer (handle_request (environment out gzip find db) cfg req res).1
  environment-IsAnswer gzip find db cfg req res h =
      handle_request-IsAnswer (environment out gzip find db) cfg req res
        (environment-RoutesUnframed gzip find db) h
