-- ===== src/Routes/Confined.antt =====
-- Which files src/request_handler.cpp reads, with the functions of src/route_dir_*.cpp behind it.
pub mod Steps
pub mod Forum
pub mod User
use waspp.Base.{sym, ◌∙◌, List, [], ◌∷◌, Bytes, codes}
use waspp.Request.{Request}
use waspp.Response.{Response}
use waspp.Config.{Config}
use waspp.Handler.{Env}
use waspp.Routes.Forum as Functions

-- The pages that the functions of the routes send, whose names go behind the document root.
abbrev pub pages : List Bytes
pages =
    codes "dir_include_header.html"
    ∷ codes "dir_include_footer.html"
    ∷ codes "dir_forum_index.html"
    ∷ codes "dir_forum_show.html"
    ∷ codes "dir_forum_form.html"
    ∷ codes "dir_user_signin.html"
    ∷ codes "dir_user_signup.html"
    ∷ []
