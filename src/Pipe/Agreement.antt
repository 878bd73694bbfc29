-- ===== src/Pipe/Agreement.antt =====
-- The client of library/pipe.c and the server of library/connection.c after the HELLO packets.
use twopence.Prelude.{ℕ, ◌≡◌, true, Option, none, some, ◌==◌, if◌then◌else◌}
use twopence.Connection.{Conn}
use twopence.Connection.Link.{Link}
use twopence.Pipe.{Pipe, Keepalive}

abbrev default_or : ℕ → ℕ
default_or line = if line == 65535 then 60 else line

-- The two ends of a new connection.
pub record Agrees (cid timeout : ℕ) (pipe' : Pipe) : Type 0 where
  pub link : Link
  pub connected : pipe'.connection ≡ some link
  pub is_open : link.is_open ≡ true
  pub client_id : link.conn.client_id ≡ cid
  pub ids : (pipe'.ps.cid ≡ cid) × (pipe'.ps.xid ≡ 1)
  pub same_timeout : link.conn.recv_timeout ≡ timeout

abbrev recv_timeout_or : ℕ → Option Conn → ℕ
recv_timeout_or d none = d
recv_timeout_or d (some conn) = conn.recv_timeout
