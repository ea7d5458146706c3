-- ===== src/Tests/Secure.antt =====
-- A connection over SSL, from its handshake on.
use waspp.Base.{refl, true, codes}
use waspp.Connection.{start}
use waspp.Connection.Secure.{
  Secure, handshaking, open_with, on_handshake, on_read_secure, Reach, here, next, handshake,
  received, IsOpenSound, Reach-IsOpenSound,
}
use waspp.Tests.Serving.{env, env-RoutesUnframed, config}
use waspp.Tests.Connections.{peer}

abbrev first_piece : Secure
first_piece = open_with (on_read_secure env config peer (codes "GET /a") (start 0))

run : Reach env config peer handshaking first_piece
unfolding on_handshake
run = next (next here (handshake true)) (received (start 0) (codes "GET /a") refl)

Reach-IsOpenSound_example : IsOpenSound first_piece
Reach-IsOpenSound_example = Reach-IsOpenSound env-RoutesUnframed run tt
