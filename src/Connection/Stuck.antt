-- ===== src/Connection/Stuck.antt =====
-- The receive buffer of a connection of library/connection.c, where the length field of a packet is less
-- than the length of its header.
use twopence.Prelude.{
  ℕ, ◌≡◌, Bool, true, false, Option, none, some, List, [], ◌∷◌, ◌++◌, if◌then◌else◌,
}
use twopence.Buffer.{Buf}
use twopence.Buffer.Contents.{contents}
use twopence.Timeout.{Timeval}
use twopence.Socket.Doio.{Revents, doio_read}
use twopence.Socket.Received.{Longer, sock_with}
use twopence.Protocol.{header_bytes}
use twopence.Connection.{Conn, Handlers}
use twopence.Connection.Link.{process_incoming}

-- Rounds of a connection, as far as they concern what it receives: the part of `twopence_sock_doio` that
-- reads, and `twopence_conn_process_incoming`, which `twopence_conn_doio` calls behind it. An error ends
-- them; that `twopence_conn_doio` closes the connection at the end of the data is left out.
abbrev pub Rounds : Type 0
Rounds = List (Revents × Option (List ℕ))

abbrev pub with_read : Conn → Revents → Option (List ℕ) → Conn
with_read conn revents arrived = record conn {
  client_sock = (doio_read conn.client_sock revents arrived).1;
}

unfoldable pub rounds : Timeval → Handlers → Conn → Rounds → Option (Bool × Conn)
rounds now h conn [] = some (true, conn)
rounds now h conn ((revents, arrived) ∷ more) =
    if (doio_read conn.client_sock revents arrived).0
    then elim (process_incoming now h (with_read conn revents arrived)) [
      | none ↦ none
      | some (ok, conn') ↦ if ok then rounds now h conn' more else some (false, conn')
    ]
    else some (false, with_read conn revents arrived)

-- The connection with this receive buffer, and with or without the end of its data.
abbrev pub conn_with : Conn → Bool → Buf → Conn
conn_with conn eof bp = record conn { client_sock = sock_with conn.client_sock eof bp }

-- Nothing but the receive buffer has changed, and that has only grown.
pub record Stuck (conn : Conn) (bp : Buf) (o : Option (Bool × Conn)) : Type 0 where
  pub ok : Bool
  pub eof : Bool
  pub bp' : Buf
  pub returns : o ≡ some (ok, conn_with conn eof bp')
  pub longer : Longer bp bp'

-- The buffer begins with such a header.
abbrev Bad : ℕ → ℕ → ℕ → ℕ → Buf → Type 0
Bad type cid xid len bp = (rest : List ℕ) × (contents bp ≡ header_bytes type cid xid len ++ rest)
