-- ===== src/Handler/Access.antt =====
-- `is_access_granted` and `is_access_denied` of src/request_handler.cpp. `cfg.access_granted()` and
-- `cfg.access_denied()` return copies: `std::find` is given iterators of two copies, and its result is
-- compared with an iterator of a third one, which has no defined outcome. Whether the address counts as
-- found is an argument, any function of the list and the address.
use waspp.Base.{Bool, true, false, not, ◌||◌, List, if◌then◌else◌, Bytes, is_empty}
use waspp.Config.{Config}

-- `find` says what comes of the search in the copies.
unfoldable pub is_access_granted : (List Bytes → Bytes → Bool) → Config → Bytes → Bool
is_access_granted find cfg remote_addr =
    if is_empty cfg.access_granted
    then true
    else if find cfg.access_granted remote_addr
    then false
    else true

unfoldable pub is_access_denied : (List Bytes → Bytes → Bool) → Config → Bytes → Bool
is_access_denied find cfg remote_addr =
    if is_empty cfg.access_denied
    then false
    else if not (find cfg.access_denied remote_addr)
    then true
    else false

-- The test with which `handle_request` begins.
abbrev pub is_refused : (List Bytes → Bytes → Bool) → Config → Bytes → Bool
is_refused find cfg addr = not (is_access_granted find cfg addr) || is_access_denied find cfg addr
