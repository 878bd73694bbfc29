-- ===== src/Transaction/Channels.antt =====
-- The channels of library/transaction.c: how they are attached, polled and flushed.
use twopence.Prelude.{
  ℕ, ◌+◌, Bool, false, ◌||◌, Option, none, some, List, ◌∷◌, length, ◌==◌, if◌then◌else◌,
}
use twopence.Buffer.{Buf, new, reserve_head}
use twopence.Timeout.{Timeval, Pollinfo}
use twopence.Iostream
use twopence.Iostream.{Iostream}
use twopence.Socket.{
  Sock, Mode, read_only, write_only, sock_new, is_dead, prepare_poll, fill_poll, post_recvbuf,
  xmit_queue_bytes, xmit_queue_flush,
}
use twopence.Protocol.{header_size, max_packet}
use twopence.Transaction.{Channel, Trans}

-- `twopence_transaction_channel_from_fd` and `twopence_transaction_channel_from_stream`
abbrev pub from_fd : ℕ → ℕ → List (Option ℕ) → Mode → Channel
from_fd id fd answers mode = record {
  id = id;
  socket = some (sock_new fd answers mode);
  stream = none;
  plugged = false;
  on_read_eof = false;
  on_write_eof = false;
}

abbrev pub from_stream : ℕ → Iostream → Channel
from_stream id stream = record {
  id = id;
  socket = none;
  stream = some stream;
  plugged = false;
  on_read_eof = false;
  on_write_eof = false;
}

-- `twopence_transaction_attach_local_sink` and `twopence_transaction_attach_local_source`. `answers` is
-- what the kernel will do with writes to the descriptor.
unfoldable pub attach_local_sink : Trans → ℕ → ℕ → List (Option ℕ) → Trans
attach_local_sink trans id fd answers = record trans {
  local_sink = from_fd id fd answers write_only ∷ trans.local_sink;
}

unfoldable pub attach_local_source : Trans → ℕ → ℕ → List (Option ℕ) → Trans
attach_local_source trans id fd answers = record trans {
  local_source = from_fd id fd answers read_only ∷ trans.local_source;
}

-- The forms with an iostream, which is passed by unless it is a single descriptor.
unfoldable pub attach_local_sink_stream : Trans → ℕ → Iostream → List (Option ℕ) → Trans
unfolding attach_local_sink
attach_local_sink_stream trans id stream answers = elim (Iostream.getfd (some stream)) [
  | some fd ↦ attach_local_sink trans id fd answers
  | none ↦ record trans { local_sink = from_stream id stream ∷ trans.local_sink }
]

unfoldable pub attach_local_source_stream : Trans → ℕ → Iostream → List (Option ℕ) → Trans
unfolding attach_local_source
attach_local_source_stream trans id stream answers = elim (Iostream.getfd (some stream)) [
  | some fd ↦ attach_local_source trans id fd answers
  | none ↦ record trans { local_source = from_stream id stream ∷ trans.local_source }
]

-- `twopence_transaction_num_channels`, in the range of unsigned int.
unfoldable pub num_channels : Trans → ℕ
num_channels trans = length trans.local_sink + length trans.local_source

-- `twopence_transaction_channel_is_read_eof`
unfoldable pub is_read_eof : Channel → Bool
is_read_eof channel = elim channel.socket [
  | some sock ↦ sock.read_eof
  | none ↦ elim channel.stream [ some stream ↦ stream.eof | none ↦ false ]
]

-- `twopence_transaction_channel_flush`: the outer none is a failed assertion, the inner one -1.
unfoldable pub channel_flush : Timeval → Channel → Option (Option ℕ × Channel)
channel_flush now sink = elim sink.socket [
  | none ↦ some (some 0, sink)
  | some sock ↦
      if xmit_queue_bytes sock == 0 then some (some 0, sink) else elim (xmit_queue_flush now sock) [
        | none ↦ none
        | some (n, sock') ↦ some (n, record sink { socket = some sock' })
      ]
]

-- The receive buffer that `twopence_transaction_channel_poll` posts: room for a header and the channel's
-- number is reserved in front.
abbrev pub reserved : Buf → ℕ → Buf
reserved bp n = elim (reserve_head bp n) [ none ↦ bp | some bp' ↦ bp' ]

unfoldable pub source_buffer : Buf
unfolding new reserve_head
source_buffer = reserved (new max_packet) (header_size + 2)

-- `twopence_transaction_channel_poll`: whether an entry has been added. none is the assertion of
-- `post_recvbuf`.
abbrev pub with_recvbuf : Channel → Sock → Option Sock
with_recvbuf channel sock =
    if channel.plugged || sock.read_eof
    then some sock
    else elim sock.recv_buf [ some bp ↦ some sock | none ↦ post_recvbuf sock source_buffer ]

abbrev pub poll_sock : Channel → Option Sock → Pollinfo → Option (Bool × Channel × Pollinfo)
poll_sock channel none pinfo = none
poll_sock channel (some sock) pinfo =
    let (added, sock', pinfo') = fill_poll sock pinfo in
    some (added, record channel { socket = some sock' }, pinfo')

unfoldable pub channel_poll : Channel → Pollinfo → Option (Bool × Channel × Pollinfo)
channel_poll channel pinfo = elim channel.socket [
  | none ↦ some (false, channel, pinfo)
  | some sock ↦
      if is_dead sock
      then some (false, channel, pinfo)
      else poll_sock channel (with_recvbuf channel (prepare_poll sock)) pinfo
]
