-- ===== src/Socket.antt =====
-- library/socket.c: a descriptor with a transmit queue and a receive buffer. What the kernel does is part
-- of the state: `answers` are the results that its calls of `write` will have, in order (none is -1,
-- which is also the result where the list has ended; no call takes more than it is offered), and
-- `wire` the bytes that it has taken.
pub mod Doio
pub mod Received
pub mod Flush
pub mod Transmit
pub mod Synchronous
pub mod Stream
pub mod Shutdown
mod Tests
use twopence.Prelude.{
  ℕ, zero, suc, ◌+◌, ◌-◌, ◌≤◌, min, Bool, true, false, not, ◌&&◌, ◌||◌, Option, none, some, List,
  [], ◌∷◌, ◌++◌, length, slice, take, blit, ltb, leb, ◌==◌, if◌then◌else◌, u32_mod, add_u32,
}
use twopence.Buffer
use twopence.Buffer.{Buf, count, advance_head, clone, tailroom, tailroom_max, advance_tail}
use twopence.Timeout.{Timeval, never, Pollinfo, pollinfo_update}
use twopence.Queue.{
  Packet, Queue, packet_new, queue_init, queue_destroy, queue_empty, queue_append, queue_head,
  queue_full, queue_dequeue,
}

abbrev pub shutdown_wanted : ℕ
shutdown_wanted = 1

abbrev pub shutdown_sent : ℕ
shutdown_sent = 2

-- `struct twopence_socket` with an open descriptor; `write_eof` is 0 or one of the two numbers above,
-- `poll_data` the index of its entry in the array of the poll, none is NULL.
pub record Sock : Type 0 where
  pub fd : ℕ
  pub bytes_sent : ℕ
  pub xmit_queue : Queue
  pub ts_enabled : Bool
  pub ts_when : Timeval
  pub recv_buf : Option Buf
  pub read_eof : Bool
  pub write_eof : ℕ
  pub poll_data : Option ℕ
  pub answers : List (Option ℕ)
  pub wire : List ℕ

pub data Mode : Type 0 where
  read_only write_only read_write : Mode

-- `twopence_sock_new_flags`, without the call of fcntl.
unfoldable pub sock_new : ℕ → List (Option ℕ) → Mode → Sock
sock_new fd answers mode = record {
  fd = fd;
  bytes_sent = 0;
  xmit_queue = queue_init;
  ts_enabled = false;
  ts_when = never;
  recv_buf = none;
  read_eof = elim mode [ write_only ↦ true | _ ↦ false ];
  write_eof = elim mode [ read_only ↦ shutdown_sent | _ ↦ 0 ];
  poll_data = none;
  answers = answers;
  wire = [];
}

-- `twopence_sock_take_recvbuf`
unfoldable pub take_recvbuf : Sock → Option Buf × Sock
take_recvbuf sock = elim sock.recv_buf [
  | none ↦ (none, sock)
  | some bp ↦ if count bp == 0 then (none, sock) else (some bp, record sock { recv_buf = none })
]

-- `twopence_sock_post_recvbuf`: none is its assertion.
unfoldable pub post_recvbuf : Sock → Buf → Option Sock
post_recvbuf sock bp = elim sock.recv_buf [
  | none ↦ some (record sock { recv_buf = some bp })
  | some old ↦ if count old == 0 then some (record sock { recv_buf = some bp }) else none
]

-- `twopence_sock_post_recvbuf_if_needed`
unfoldable pub post_recvbuf_if_needed : Sock → ℕ → Option Buf × Sock
post_recvbuf_if_needed sock size = elim sock.recv_buf [
  | some bp ↦ (none, sock)
  | none ↦
      if sock.read_eof
      then (none, sock)
      else (some (Buffer.new size), record sock { recv_buf = some (Buffer.new size) })
]

-- `twopence_sock_write`
abbrev pub took : Timeval → Sock → Buf → ℕ → Sock
took now sock bp n =
    let sock' = record sock { wire = sock.wire ++ slice bp.base bp.head n } in
    if n == 0 then sock' else record sock' {
      bytes_sent = add_u32 sock.bytes_sent n;
      ts_when = if sock.ts_enabled then now else sock.ts_when;
    }

abbrev pub answered : Timeval → Sock → Buf → ℕ → List (Option ℕ) → Option ℕ × Sock
answered now sock bp len [] = (none, sock)
answered now sock bp len (none ∷ rest) = (none, record sock { answers = rest })
answered now sock bp len (some n ∷ rest) =
    (some (min n len), took now (record sock { answers = rest }) bp (min n len))

unfoldable pub write : Timeval → Sock → Buf → ℕ → Option ℕ × Sock
write now sock bp len =
    let len' = if ltb (count bp) len then count bp else len in
    if len == 0 then (some 0, sock) else answered now sock bp len' sock.answers

-- `twopence_sock_send_buffer`. (The assertion of `advance_head` is that the kernel took no more than
-- there is.)
abbrev pub skip_sent : Buf → Option ℕ → Buf
skip_sent bp none = bp
skip_sent bp (some n) = elim (advance_head bp n) [ none ↦ bp | some bp' ↦ bp' ]

unfoldable pub send_buffer : Timeval → Sock → Buf → Option ℕ × Sock × Buf
send_buffer now sock bp =
    let (n, sock') = write now sock bp (count bp) in (n, sock', skip_sent bp n)

-- `twopence_sock_send_queued`: none is a failed assertion of `queue_dequeue`.
abbrev pub with_head : Sock → Packet → Buf → List Packet → Sock
with_head sock pkt bp rest = record sock {
  xmit_queue = record sock.xmit_queue { packets = record pkt { buffer = bp } ∷ rest };
}

abbrev pub dequeued : Option ℕ → Sock → Option (Option ℕ × Sock)
dequeued n sock = elim (queue_dequeue sock.xmit_queue) [
  | none ↦ none
  | some (pkt, q) ↦ some (n, record sock { xmit_queue = q })
]

abbrev pub sent_head : Packet → List Packet → Option ℕ × Sock × Buf → Option (Option ℕ × Sock)
sent_head pkt rest (n, sock, bp) =
    let sock' = with_head sock pkt bp rest in
    if count bp == 0 then dequeued n sock' else some (n, sock')

unfoldable pub send_queued : Timeval → Sock → Option (Option ℕ × Sock)
send_queued now sock = elim sock.xmit_queue.packets [
  | [] ↦ some (some 0, sock)
  | pkt ∷ rest ↦ sent_head pkt rest (send_buffer now sock pkt.buffer)
]

-- The loop that flushes the queue, on fuel: a round uses up an answer or a packet. none is a failed
-- assertion, or the end of the fuel. `n` is the last result.
unfoldable pub flush_loop : ℕ → Timeval → ℕ → Sock → Option (Option ℕ × Sock)
flush_loop zero now n sock = none
flush_loop (suc f) now n sock = elim sock.xmit_queue.packets [
  | [] ↦ some (some n, sock)
  | pkt ∷ rest ↦ elim (send_queued now sock) [
    | none ↦ none
    | some (none, sock') ↦ some (none, sock')
    | some (some m, sock') ↦ flush_loop f now m sock'
  ]
]

abbrev pub flush_fuel : Sock → ℕ
flush_fuel sock = suc (length sock.answers + length sock.xmit_queue.packets)

-- `twopence_sock_xmit_queue_flush`
unfoldable pub xmit_queue_flush : Timeval → Sock → Option (Option ℕ × Sock)
xmit_queue_flush now sock = flush_loop (flush_fuel sock) now 0 sock

-- The loop that writes out one buffer, on fuel: a round uses up an answer.
unfoldable pub send_all : ℕ → Timeval → ℕ → Sock → Buf → Option (Option ℕ × Sock × Buf)
send_all zero now n sock bp = none
send_all (suc f) now n sock bp =
    let sent = send_buffer now sock bp in
    if count bp == 0
    then some (some n, sock, bp)
    else elim sent.0 [ none ↦ some sent | some m ↦ send_all f now m sent.1 sent.2 ]

-- The end of `__socket_queue_xmit`: what is left of the buffer is queued.
unfoldable pub enqueue : Bool → ℕ → Sock → Buf → Option ℕ × Sock × Buf
enqueue clonebuf n sock bp =
    let packet = packet_new (if clonebuf then clone bp else bp) in
    if count bp == 0
    then (some n, sock, bp)
    else (some n, record sock { xmit_queue = queue_append sock.xmit_queue packet }, bp)

-- `twopence_sock_queue_xmit` and `twopence_sock_xmit_shared`: `__socket_queue_xmit` with the flag to
-- try a write, and without or with the flag to clone. The last component is the caller's buffer.
unfoldable pub queue_xmit : Bool → Timeval → Sock → Buf → Option ℕ × Sock × Buf
queue_xmit clonebuf now sock bp =
    let sent = send_buffer now sock bp in
    if not (sock.write_eof == 0)
    then (some 0, sock, bp)
    else if queue_empty sock.xmit_queue
    then enqueue clonebuf 0 sent.1 sent.2
    else enqueue clonebuf 0 sock bp

-- `twopence_sock_xmit`: `__socket_queue_xmit` with the flag for synchronous writes.
unfoldable pub xmit_flushed :
    Timeval → Buf → Option (Option ℕ × Sock) → Option (Option ℕ × Sock × Buf)
xmit_flushed now bp none = none
xmit_flushed now bp (some (none, sock)) = some (none, sock, bp)
xmit_flushed now bp (some (some n, sock)) =
    elim (send_all (suc (length sock.answers)) now n sock bp) [
      | none ↦ none
      | some (none, sock', bp') ↦ some (none, sock', bp')
      | some (some m, sock', bp') ↦ some (enqueue false m sock' bp')
    ]

unfoldable pub xmit : Timeval → Sock → Buf → Option (Option ℕ × Sock × Buf)
xmit now sock bp =
    if not (sock.write_eof == 0)
    then some (some 0, sock, bp)
    else xmit_flushed now bp (flush_loop (flush_fuel sock) now 0 sock)

-- `twopence_sock_xmit_queue_bytes` and `twopence_sock_xmit_queue_allowed`
unfoldable pub xmit_queue_bytes : Sock → ℕ
xmit_queue_bytes sock = sock.xmit_queue.bytes

unfoldable pub xmit_queue_allowed : Sock → Bool
xmit_queue_allowed sock =
    if not (sock.write_eof == 0) then false else if queue_full sock.xmit_queue then false else true

-- `__socket_try_shutdown`
unfoldable pub try_shutdown : Sock → Bool × Sock
try_shutdown sock =
    if queue_empty sock.xmit_queue
    then (true, record sock { write_eof = shutdown_sent })
    else (false, sock)

-- `twopence_sock_shutdown_write`; its result is always true.
unfoldable pub shutdown_write : Sock → Sock
shutdown_write sock =
    if not (sock.write_eof == 0)
    then sock
    else (try_shutdown (record sock { write_eof = shutdown_wanted })).1

unfoldable pub mark_dead : Sock → Sock
mark_dead sock = record sock { read_eof = true; write_eof = shutdown_sent }

unfoldable pub is_write_eof : Sock → Bool
is_write_eof sock = sock.write_eof == shutdown_sent

unfoldable pub is_dead : Sock → Bool
is_dead sock = sock.read_eof && sock.write_eof == shutdown_sent

-- `twopence_sock_enable_xmit_ts` and `twopence_sock_get_xmit_ts`: none is false, where the result is
-- given also.
unfoldable pub enable_xmit_ts : Sock → Sock
enable_xmit_ts sock = record sock { ts_enabled = true }

-- `twopence_sock_fill_poll`: the events asked for, as whether to wait for output and for input, and the
-- entry in the array. POLLIN is 1, POLLOUT 4 and POLLHUP 16.
unfoldable pub wanted_events : Sock → Bool × Bool
wanted_events sock = (
  not (sock.write_eof == shutdown_sent) && not (queue_empty sock.xmit_queue),
  not sock.read_eof && (elim sock.recv_buf [ none ↦ false | some bp ↦ not (tailroom_max bp == 0) ]),
)

abbrev pub event_mask : Bool × Bool → ℕ
event_mask (out, inp) = (if out then 4 else 0) + (if inp then 17 else 0)

unfoldable pub fill_poll : Sock → Pollinfo → Bool × Sock × Pollinfo
fill_poll sock pinfo =
    let events = event_mask (wanted_events sock) in
    let (slot, pinfo') = pollinfo_update pinfo sock.fd events none in
    if events == 0
    then (false, record sock { poll_data = none }, pinfo)
    else (elim slot [ none ↦ false | some i ↦ true ], record sock { poll_data = slot }, pinfo')

-- `twopence_sock_prepare_poll`
unfoldable pub prepare_poll : Sock → Sock
prepare_poll sock = record sock { poll_data = none }
