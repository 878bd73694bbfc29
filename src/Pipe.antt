-- ===== src/Pipe.antt =====
-- library/pipe.c: the client of a test server over one connection. The pool of connections is that of this
-- target alone: `pooled` tells whether its connection is in the pool. Numbers below 0 that the
-- functions return are given without their sign. none is a failed assertion, or an access through
-- NULL.
pub mod Receive
pub mod Run
pub mod Commands
pub mod Handshake
pub mod Waiting
pub mod Agreement
mod Tests
use twopence.Prelude.{
  ℕ, zero, suc, ◌*◌, Bool, true, false, not, ◌&&◌, ◌||◌, Option, none, some, List, [], ◌∷◌, length,
  drop, ltb, leb, ◌==◌, if◌then◌else◌,
}
use twopence.Buffer.{Buf, tailroom}
use twopence.Timeout.{Timeval}
use twopence.Timer.{Timers}
use twopence.Iostream.Parts.{leftover}
use twopence.Iostream.ReadAll.{pieces}
use twopence.Socket.{Sock, post_recvbuf_if_needed}
use twopence.Socket.Doio.{recv_buffer}
use twopence.Protocol.{State, Header, max_packet, type_hello, vers_major, vers_minor}
use twopence.Protocol.Build.{build_hello_packet}
use twopence.Protocol.Dissect.{buffer_complete, dissect_ps, dissect_hello_packet}
use twopence.Transaction.Doio.{xmit_built}
use twopence.Connection.{set_keepalive}
use twopence.Connection.Link.{Link, conn_new, is_closed}

-- What a function returns: a number, or an error.
pub data Rc : Type 0 where
  ok failed : ℕ → Rc

-- The option for keepalives: a number of seconds, or one below 0.
pub data Keepalive : Type 0 where
  seconds minus : ℕ → Keepalive

-- `struct twopence_pipe_target`, with the global list of timers. `current` has the ids of the transaction
-- in the foreground.
pub record Pipe : Type 0 where
  pub keepalive : Keepalive
  pub connection : Option Link
  pub pooled : Bool
  pub ps : State
  pub current : Option State
  pub timers : Timers

-- `twopence_pipe_target_init`, on memory that is cleared.
unfoldable pub target_init : Timers → Pipe
target_init timers = record {
  keepalive = minus 1;
  connection = none;
  pooled = false;
  ps = record { cid = 0; xid = 0 };
  current = none;
  timers = timers;
}

-- `_twopence_invalid_username`
unfoldable pub invalid_username : List ℕ → Bool
invalid_username [] = false
invalid_username (c ∷ cs) =
    if leb b'0' c && leb c b'9' || leb b'A' c && leb c b'Z' || leb b'a' c && leb c b'z' || c == b'_'
    then invalid_username cs
    else true

-- `twopence_sock_recv_buffer_blocking`: what the kernel has for the coming reads is given; none in the
-- list is an error, and its end is the end of the data.
abbrev pub Incoming : Type 0
Incoming = List (Option (List ℕ))

unfoldable pub recv_blocking : Buf → Incoming → Option ℕ × Buf × Incoming
unfolding recv_buffer
recv_blocking bp [] = (if tailroom bp == 0 then none else some 0, bp, [])
recv_blocking bp (none ∷ rest) = (none, bp, rest)
recv_blocking bp (some d ∷ rest) =
    let (n, bp') = recv_buffer bp (some d) in (n, bp', leftover (drop (tailroom bp) d) rest)

-- `__twopence_pipe_read_packet`, on fuel: a round that goes on takes a byte at least.
pub data Packet : Type 0 where
  complete : Buf → Packet
  no_packet out_of_fuel : Packet

unfoldable pub read_packet : ℕ → Buf → Incoming → Packet
read_packet zero bp incoming = out_of_fuel
read_packet (suc f) bp incoming =
    if buffer_complete bp then complete bp else elim (recv_blocking bp incoming).0 [
      | none ↦ no_packet
      | some n ↦ elim n [
        | zero ↦ no_packet
        | suc k ↦ read_packet f (recv_blocking bp incoming).1 (recv_blocking bp incoming).2
      ]
    ]

-- `__twopence_pipe_handshake`: its result, the socket, the client's id and the line timeout. 16 is
-- TWOPENCE_PROTOCOL_ERROR, 19 TWOPENCE_INCOMPATIBLE_PROTOCOL_ERROR.
pub record Shaken : Type 0 where
  pub rc : Rc
  pub sock : Sock
  pub client_id : ℕ
  pub line_timeout : ℕ

abbrev pub shaken : Sock → ℕ → Rc → Shaken
shaken sock line_timeout rc = record {
  rc = rc;
  sock = sock;
  client_id = 0;
  line_timeout = line_timeout;
}

abbrev pub accepted : ℕ → ℕ → ℕ
accepted line_timeout server =
    if line_timeout == 0 || ltb server line_timeout then server else line_timeout

abbrev pub greeted : Sock → ℕ → State → Option ((ℕ × ℕ × ℕ) × Buf) → Shaken
greeted sock line_timeout ps none = shaken sock line_timeout (failed 16)
greeted sock line_timeout ps (some ((major, minor, server), rest)) =
    if not (major == vers_major) || ltb minor vers_minor
    then shaken sock line_timeout (failed 19)
    else record {
      rc = ok 0;
      sock = sock;
      client_id = ps.cid;
      line_timeout = accepted line_timeout server;
    }

abbrev pub answered : Sock → ℕ → Option (Header × Buf × State) → Shaken
answered sock line_timeout none = shaken sock line_timeout (failed 16)
answered sock line_timeout (some (hdr, payload, ps)) =
    if hdr.type == type_hello
    then greeted sock line_timeout ps (dissect_hello_packet payload)
    else shaken sock line_timeout (failed 16)

abbrev pub replied : Sock → ℕ → Packet → Option Shaken
replied sock line_timeout out_of_fuel = none
replied sock line_timeout no_packet = some (shaken sock line_timeout (failed 16))
replied sock line_timeout (complete bp) =
    let (r, bp') = dissect_ps bp in
    some (answered (record sock { recv_buf = some bp' }) line_timeout r)

abbrev pub posted : Sock → Incoming → ℕ → Option Buf → Option Shaken
posted sock incoming line_timeout none = none
posted sock incoming line_timeout (some bp) =
    replied sock line_timeout (read_packet (suc (length (pieces incoming))) bp incoming)

unfoldable pub handshake : Timeval → Sock → Incoming → ℕ → Option Shaken
handshake now sock incoming line_timeout =
    elim (xmit_built now sock (build_hello_packet 0 line_timeout)) [
      | none ↦ none
      | some (sent, sock1) ↦
          let sock2 = (post_recvbuf_if_needed sock1 (4 * max_packet)).1 in
          if not sent
          then some (shaken sock1 line_timeout (failed 1))
          else posted sock2 incoming line_timeout sock2.recv_buf
    ]

-- `__twopence_pipe_open_link`: `opened` is what the plugin's `open` returns. 2 is
-- TWOPENCE_OPEN_SESSION_ERROR, 18 TWOPENCE_TRANSPORT_ERROR.
abbrev pub asked : Keepalive → ℕ
asked (minus n) = 65535
asked (seconds n) = n

abbrev pub kept : Keepalive → ℕ → ℕ
kept (seconds n) k = k
kept (minus n) k = if n == 2 then 0 else k

abbrev pub linked : Timeval → Pipe → Option Shaken → Option (Rc × Pipe)
linked now pipe none = none
linked now pipe (some s) = elim s.rc [
  | failed e ↦ some (failed 2, pipe)
  | ok n ↦
      let link = conn_new true s.sock s.client_id in
      let conn = set_keepalive now link.conn (some (kept pipe.keepalive s.line_timeout)) in
      some (
        ok 0,
        record pipe {
          connection = some (record link { conn = conn });
          pooled = true;
          ps = record { cid = s.client_id; xid = 1 };
        },
      )
]

abbrev pub open_from : Timeval → Option (Sock × Incoming) → Pipe → Option Link → Option (Rc × Pipe)
open_from now opened pipe (some link) = some (if is_closed link then failed 18 else ok 0, pipe)
open_from now none pipe none = some (failed 2, pipe)
open_from now (some (sock, incoming)) pipe none =
    linked now pipe (handshake now sock incoming (asked pipe.keepalive))

unfoldable pub open_link : Timeval → Option (Sock × Incoming) → Pipe → Option (Rc × Pipe)
open_link now opened pipe = open_from now opened pipe pipe.connection
