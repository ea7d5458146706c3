-- ===== src/Routes/Tested.antt =====
-- `test` of src/route_dir_performance.cpp signs its client in.
use waspp.Base.{List, codes}
use waspp.Request.{Request, NameValue}
use waspp.Response.{Response}
use waspp.Config.{Config}
use waspp.Routes.{State, World}
use waspp.Routes.Triple.{Triple}
use waspp.Routes.Sessions.{IsSignedIn}

-- What holds of the cookies is kept by whatever leaves them.
module _ {W : Type 0} (out : World W) (C : List NameValue → Type 0) where
  abbrev H : State W → Type 0
  H t = C t.res.cookies

module _ {W : Type 0} (out : World W) (cfg : Config) where
  abbrev Signed : List NameValue → Type 0
  Signed = IsSignedIn out.session cfg (codes "test")

  -- Nothing is said of an exception.
  abbrev Any : State W → Type 0
  Any t = Unit {0}
