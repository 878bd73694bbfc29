-- ===== src/Transaction/Receive.antt =====
-- The packets that a transaction of library/transaction.c receives, and how data is given to a sink.
use twopence.Prelude.{ℕ, true, false, Option, none, some, List, ◌==◌, if◌then◌else◌, add_u32}
use twopence.Buffer.{Buf, count}
use twopence.Buffer.Contents.{contents}
use twopence.Timeout.{Timeval}
use twopence.Iostream
use twopence.Socket.{Sock, queue_xmit, shutdown_write}
use twopence.Protocol.{Header, type_chan_data, type_chan_eof}
use twopence.Protocol.Dissect.{decode_u16}
use twopence.Transaction.{Channel, Trans, find_channel, put_channel, fail}

-- `twopence_transaction_channel_write_data`: the result of `xmit_shared` is never negative.
-- none is the fault of a write to a buffer that is NULL.
unfoldable pub write_data : (ℕ → List ℕ) → Timeval → Channel → Buf → Option Channel
write_data fresh now sink payload = elim sink.socket [
  | some sock ↦ some (record sink { socket = some (queue_xmit true now sock payload).1 })
  | none ↦ elim sink.stream [
    | none ↦ some sink
    | some stream ↦ elim (Iostream.write fresh stream (contents payload)) [
      | none ↦ none
      | some (n, stream') ↦ some (record sink { stream = some stream' })
    ]
  ]
]

-- `twopence_transaction_channel_write_eof`, and the callback, which is called once.
unfoldable pub write_eof : Channel → Channel
write_eof sink = elim sink.socket [
  | some sock ↦ record sink { socket = some (shutdown_write sock); on_write_eof = false }
  | none ↦ record sink { on_write_eof = false }
]

-- The two kinds of packets that `twopence_transaction_recv_packet` handles itself.
abbrev pub stored : Trans → ℕ → Buf → Option Channel → Option Trans
stored trans id rest none = none
stored trans id rest (some sink) = some (record trans {
  nbytes_received = add_u32 trans.nbytes_received (count rest);
  local_sink = put_channel trans.local_sink id sink;
})

unfoldable pub recv_data : (ℕ → List ℕ) → Timeval → Trans → Buf → Option Trans
recv_data fresh now trans payload = elim (decode_u16 payload) [
  | none ↦ some trans
  | some (id, rest) ↦ elim (find_channel trans.local_sink id) [
    | none ↦ some trans
    | some sink ↦ stored trans id rest (write_data fresh now sink rest)
  ]
]

-- `eof` is the effect of the callback on the transaction.
unfoldable pub recv_eof : (Trans → ℕ → Trans) → Trans → Buf → Trans
recv_eof eof trans payload = elim (decode_u16 payload) [
  | none ↦ trans
  | some (id, rest) ↦ elim (find_channel trans.local_sink id) [
    | none ↦ trans
    | some sink ↦
        let trans' = record trans {
          local_sink = put_channel trans.local_sink id (write_eof sink);
        } in
        if sink.on_write_eof then eof trans' id else trans'
  ]
]

abbrev pub with_transport : Option Trans → Sock → Option (Trans × Sock)
with_transport none sock = none
with_transport (some trans) sock = some (trans, sock)

-- `twopence_transaction_recv_packet`: `recv` is the handler of the transaction, none if it is not set;
-- 71 is EPROTO.
unfoldable pub recv_packet :
    (ℕ → List ℕ)
    → Timeval
    → (Trans → ℕ → Trans)
    → Option (Trans → Sock → Header → Buf → Option (Trans × Sock))
    → Trans
    → Sock
    → Header
    → Buf
    → Option (Trans × Sock)
recv_packet fresh now eof recv trans sock hdr payload =
    if trans.done
    then some (trans, sock)
    else if hdr.type == type_chan_data
    then with_transport (recv_data fresh now trans payload) sock
    else if hdr.type == type_chan_eof
    then some (recv_eof eof trans payload, sock)
    else elim recv [ none ↦ fail now trans sock 71 | some f ↦ f trans sock hdr payload ]
