-- ===== src/Transaction/Forward.antt =====
-- How library/transaction.c sends the data of a local source to the peer, and what it does with a channel
-- after a poll.
use twopence.Prelude.{
  ℕ, zero, suc, ◌+◌, Bool, true, false, not, ◌&&◌, Option, none, some, List, [], ◌∷◌, length, blit,
  if◌then◌else◌,
}
use twopence.Buffer.{Buf, reserve_head, advance_tail, tailroom}
use twopence.Timeout.{Timeval}
use twopence.Iostream
use twopence.Iostream.{Iostream}
use twopence.Iostream.ReadAll.{pending}
use twopence.Socket.{Sock, mark_dead, take_recvbuf, queue_xmit, xmit_queue_allowed}
use twopence.Socket.Doio.{Events, doio_polled}
use twopence.Protocol.{State, header_size, command_buffer_new}
use twopence.Protocol.Build.{Built, packet, null, aborted, build_data_header}
use twopence.Transaction.{Channel, Trans, set_error, send_client, fail}
use twopence.Transaction.Channels.{reserved}

-- The state that the work on a channel passes on: the transaction, the transport, and the channel.
pub record Work : Type 0 where
  pub trans : Trans
  pub transport : Sock
  pub channel : Channel

-- What the callbacks for the end of the data of a source do: the transaction and the transport after it.
abbrev pub ReadEof : Type 0
ReadEof = Trans → Sock → ℕ → Option (Trans × Sock)

-- The end of `twopence_transaction_channel_forward`.
abbrev pub without_callback : Channel → Channel
without_callback channel = record channel { on_read_eof = false }

abbrev pub called : Work → Channel → Option (Trans × Sock) → Option Work
called w channel none = none
called w channel (some (trans, sock)) =
    some (record { trans = trans; transport = sock; channel = channel })

unfoldable pub forward_end : ReadEof → Work → Iostream → Option Work
forward_end callback w stream =
    if stream.eof && w.channel.on_read_eof
    then called w (record (without_callback w.channel) { stream = none })
        (callback w.trans w.transport w.channel.id)
    else some (record w { channel = record w.channel { stream = some stream } })

-- A packet of data from a buffer in which the bytes have been read.
unfoldable pub data_packet : Buf → List ℕ → State → ℕ → Built
data_packet bp d ps id =
    elim (advance_tail (record bp { base = blit bp.base bp.tail d }) (length d)) [
      | none ↦ aborted
      | some bp' ↦ build_data_header bp' ps id
    ]

unfoldable pub forward_buffer : Buf
unfolding command_buffer_new reserve_head
forward_buffer = reserved command_buffer_new (header_size + 2)

-- The loop of `twopence_transaction_channel_forward`, on fuel: a round that goes on takes a byte at
-- least. `again` tells whether an error is EAGAIN; a read that is interrupted is made again, and the
-- input of a descriptor does not show it. none is a failed assertion, or the end of the fuel.
unfoldable pub forward_loop : ℕ → Timeval → ReadEof → Bool → Work → Iostream → Option Work
forward_loop zero now callback again w stream = none
forward_loop (suc f) now callback again w stream =
    if not (xmit_queue_allowed w.transport && not stream.eof)
    then forward_end callback w stream
    else elim (Iostream.read stream (tailroom forward_buffer)).0 [
      | none ↦
          let channel = record w.channel {
            stream = some (Iostream.read stream (tailroom forward_buffer)).1;
          } in
          some
            (record w { trans = if again then w.trans else set_error w.trans 1; channel = channel })
      | some d ↦ elim d [
        | [] ↦ forward_end callback w (Iostream.read stream (tailroom forward_buffer)).1
        | c ∷ cs ↦
            elim (send_client now w.transport
              (data_packet forward_buffer (c ∷ cs) w.trans.ps w.channel.id)) [
                | none ↦ none
                | some sock ↦
                    forward_loop f now callback again (record w { transport = sock })
                      (Iostream.read stream (tailroom forward_buffer)).1
              ]
      ]
    ]

abbrev pub forward_from : Timeval → ReadEof → Bool → Work → Option Iostream → Bool → Option Work
forward_from now callback again w none plugged = some w
forward_from now callback again w (some stream) true = some w
forward_from now callback again w (some stream) false =
    forward_loop (suc (length (pending stream.substreams))) now callback again w stream

-- `twopence_transaction_channel_forward`
unfoldable pub forward : Timeval → ReadEof → Bool → Work → Option Work
forward now callback again w = forward_from now callback again w w.channel.stream w.channel.plugged

-- `twopence_transaction_channel_doio`: the error of a socket, the receive buffer that is sent, and the
-- callback at the end of the data.
abbrev pub sent_recvbuf : Timeval → Work → Sock → Built → Option Work
sent_recvbuf now w sock (packet bp) = some (record w {
  transport = (queue_xmit false now w.transport bp).1;
  channel = record w.channel { socket = some sock };
})
sent_recvbuf now w sock null = none
sent_recvbuf now w sock aborted = none

unfoldable pub doio_forward : Timeval → Work → Sock → Option Work
doio_forward now w sock = elim (take_recvbuf sock).0 [
  | none ↦ some (record w { channel = record w.channel { socket = some sock } })
  | some bp ↦
      sent_recvbuf now w (take_recvbuf sock).1 (build_data_header bp w.trans.ps w.channel.id)
]

unfoldable pub doio_eof : ReadEof → Sock → Work → Option Work
doio_eof callback sock w =
    if sock.read_eof && w.channel.on_read_eof
    then called w (without_callback w.channel) (callback w.trans w.transport w.channel.id)
    else some w

abbrev pub doio_failed : Work → Sock → Option (Trans × Sock) → Option Work
doio_failed w sock none = none
doio_failed w sock (some (trans, transport)) = some (record {
  trans = trans;
  transport = transport;
  channel = record w.channel { socket = some (mark_dead sock) };
})

-- `errno` is that of the failed call.
abbrev pub doio_done : Timeval → ReadEof → ℕ → Work → Option (Bool × Sock) → Option Work
doio_done now callback errno w none = none
doio_done now callback errno w (some (false, sock)) =
    doio_failed w sock (fail now w.trans w.transport errno)
doio_done now callback errno w (some (true, sock)) = elim (doio_forward now w sock) [
  | none ↦ none
  | some w' ↦ doio_eof callback sock w'
]

unfoldable pub channel_doio : Timeval → Events → ReadEof → ℕ → Work → Option Work
channel_doio now events callback errno w = elim w.channel.socket [
  | none ↦ some w
  | some sock ↦ doio_done now callback errno w (doio_polled now events sock)
]
