-- ===== src/Handshake/Info.antt =====
-- The field `conn_info` of the client, which the handshake fills.
use libopenvnc.State.{Client, ConnectionInfo}

abbrev pub set_conn_info : (ConnectionInfo → ConnectionInfo) → Client → Client
set_conn_info f c = record c { conn_info = f c.conn_info }
