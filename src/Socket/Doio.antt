-- ===== src/Socket/Doio.antt =====
-- `twopence_sock_doio` of library/socket.c: what a socket does after a poll.
use twopence.Prelude.{
  ℕ, Bool, true, false, not, ◌&&◌, ◌||◌, Option, none, some, List, length, take, blit, ◌==◌,
  if◌then◌else◌,
}
use twopence.Buffer.{Buf, tailroom, advance_tail}
use twopence.Timeout.{Timeval}
use twopence.Socket.{Sock, send_queued, try_shutdown, mark_dead, shutdown_wanted}

-- The events that poll reports of a descriptor.
pub record Revents : Type 0 where
  pub pollnval : Bool
  pub pollout : Bool
  pub pollin : Bool
  pub pollhup : Bool

-- `twopence_sock_recv_buffer`: `arrived` is what the kernel has for `read`, none for an error; no more
-- than the tailroom is read. none is -1.
unfoldable pub recv_buffer : Buf → Option (List ℕ) → Option ℕ × Buf
recv_buffer bp none = (none, bp)
recv_buffer bp (some arrived) =
    let d = take (tailroom bp) arrived in
    let bp' = record bp { base = blit bp.base bp.tail d } in
    if tailroom bp == 0
    then (none, bp)
    else (some (length d), elim (advance_tail bp' (length d)) [ none ↦ bp' | some bp2 ↦ bp2 ])

-- The part of `twopence_sock_doio` that reads: the result, and the socket.
abbrev pub read_result : Sock → Bool → Option ℕ × Buf → Bool × Sock
read_result sock hup (none, bp) =
    if hup
    then (true, record sock { recv_buf = some bp; read_eof = true })
    else (false, record sock { recv_buf = some bp })
read_result sock hup (some n, bp) =
    (true, record sock { recv_buf = some bp; read_eof = if n == 0 then true else sock.read_eof })

unfoldable pub doio_read : Sock → Revents → Option (List ℕ) → Bool × Sock
doio_read sock revents arrived = elim sock.recv_buf [
  | none ↦ (true, sock)
  | some bp ↦
      if (revents.pollin || revents.pollhup) && not (tailroom bp == 0)
      then read_result sock revents.pollhup (recv_buffer bp arrived)
      else (true, sock)
]

abbrev pub doio_shutdown : Sock → Sock
doio_shutdown sock = if sock.write_eof == shutdown_wanted then (try_shutdown sock).1 else sock

abbrev pub doio_sent : Revents → Option (List ℕ) → Option (Option ℕ × Sock) → Option (Bool × Sock)
doio_sent revents arrived none = none
doio_sent revents arrived (some (none, sock)) = some (false, sock)
doio_sent revents arrived (some (some n, sock)) =
    some (doio_read (doio_shutdown sock) revents arrived)

-- `twopence_sock_doio` on a socket that has been polled: whether the result is 0, and the socket.
-- none is a failed assertion.
unfoldable pub doio : Timeval → Sock → Revents → Option (List ℕ) → Option (Bool × Sock)
doio now sock revents arrived =
    if revents.pollnval
    then some (false, mark_dead sock)
    else doio_sent revents arrived
        (if revents.pollout then send_queued now sock else some (some 0, sock))

-- What poll reports of an entry of the array, and what the kernel then has for `read`.
abbrev pub Events : Type 0
Events = ℕ → Revents × Option (List ℕ)

-- `twopence_sock_doio`: a socket that has no entry is left alone.
unfoldable pub doio_polled : Timeval → Events → Sock → Option (Bool × Sock)
doio_polled now events sock = elim sock.poll_data [
  | none ↦ some (true, sock)
  | some i ↦
      let (revents, arrived) = events i in
      doio now (record sock { poll_data = none }) revents arrived
]
