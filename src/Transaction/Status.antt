-- ===== src/Transaction/Status.antt =====
-- The status of a transaction in library/transaction.c: at most one major and one minor status is sent.
use twopence.Prelude.{
  ℕ, ◌+◌, ◌<◌, ◌≡◌, refl, ap, ◌∙◌, subst, true, false, Option, none, some, List, ◌++◌, length,
  append_assoc, u32_mod, arith, if◌then◌else◌, Bool-cases, inl, inr,
}
use twopence.Buffer.{Buf}
use twopence.Buffer.Bounds.{IsReadable, IsValid-IsReadable}
use twopence.Buffer.Contents.{length-contents}
use twopence.Timeout.{Timeval}
use twopence.Queue.Order.{IsOrdered}
use twopence.Socket.{Sock, queue_xmit}
use twopence.Socket.Stream.{stream}
use twopence.Socket.Transmit.{Accepted, queue_xmit-Accepted}
use twopence.Protocol.{State, be32, type_major, type_minor}
use twopence.Protocol.Build.{packet, build_uint32_packet, build_major_packet, build_minor_packet}
use twopence.Protocol.Frame.{header_of}
use twopence.Protocol.Encode.{encode_u32-Encodes}
use twopence.Protocol.RoundTrip.{IsFresh, command_buffer_new-IsFresh, IsPacket, finish-IsPacket}
use twopence.Transaction.{
  Trans, send_client, sent, send_major, send_minor, fail, then_minor, finished, fail2,
}

-- A packet with one word.
pub build_uint32-IsPacket :
    (ps : State) (type word : ℕ)
    → (p : Buf) × (build_uint32_packet ps type word ≡ packet p) × IsPacket p ps type (be32 word)
unfolding build_uint32_packet
build_uint32-IsPacket ps type word =
    let f : IsFresh _ = command_buffer_new-IsFresh in
    finish-IsPacket _ ps type (be32 word)
      (encode_u32-Encodes word f.valid (omega (arith, f.tail, f.size)))

-- A transport that takes the twelve bytes of a status packet.
pub record CanSend (sock : Sock) : Type 0 where
  pub ordered : IsOrdered sock.xmit_queue
  pub is_open : sock.write_eof ≡ 0
  pub room : sock.xmit_queue.bytes + 12 < u32_mod

-- The bytes of a status packet.
abbrev pub status_bytes : State → ℕ → ℕ → List ℕ
status_bytes ps type code = header_of type ps.cid ps.xid (be32 code) ++ be32 code

-- The packet has been accepted, and that is the new state of the transaction.
abbrev pub StatusSent : Trans → Sock → List ℕ → Option (Trans × Sock) → Type 0
StatusSent trans sock bytes o =
    (sock' : Sock) × (o ≡ some (trans, sock')) × Accepted sock bytes sock'

sent_status :
    (now : Timeval) (trans : Trans) (sock : Sock) (type code : ℕ)
    → CanSend sock
    → StatusSent trans sock
        (status_bytes trans.ps type code)
        (sent trans (send_client now sock (build_uint32_packet trans.ps type code)))
unfolding send_client
sent_status now trans sock type code c =
    let (p, built, k) = build_uint32-IsPacket trans.ps type code in
    let v : IsReadable p = IsValid-IsReadable k.valid in
    (
      (queue_xmit false now sock p).1,
      rw (built, send_client) refl,
      subst (λ d. Accepted sock d (queue_xmit false now sock p).1) k.bytes
          (queue_xmit-Accepted false now sock p c.ordered v
            (omega (arith, c.room, length-contents v, ap length k.bytes)) c.is_open),
    )

-- The step that `fail` takes: a major status, else a minor one, else an abort.
abbrev pub Failed : Trans → Sock → ℕ → Option (Trans × Sock) → Type 0
Failed trans sock code o =
    if trans.major_sent
    then if trans.minor_sent
      then o ≡ none
      else StatusSent (record trans { done = true; minor_sent = true }) sock
          (status_bytes trans.ps type_minor code) o
    else StatusSent (record trans { done = true; major_sent = true }) sock
        (status_bytes trans.ps type_major code) o

-- On a transport that can take a status packet, a failed transaction is done and sends its code as
-- the major status, or if that has been sent, as the minor status; if both have been sent it
-- aborts.
pub fail-Failed :
    (now : Timeval) (trans : Trans) (sock : Sock) (code : ℕ)
    → CanSend sock
    → Failed trans sock code (fail now trans sock code)
unfolding fail send_major send_minor build_major_packet build_minor_packet
fail-Failed now trans sock code c = elim (Bool-cases trans.major_sent) [
  | inl m ↦ elim (Bool-cases trans.minor_sent) [
    | inl n ↦ rw (m, n) refl
    | inr n ↦
        rw (m, n)
          (sent_status now (record trans { done = true; major_sent = true; minor_sent = true }) sock
            type_minor code c)
  ]
  | inr m ↦
      rw m
        (sent_status now (record trans { done = true; major_sent = true }) sock type_major code c)
]

send_major_lem :
    (now : Timeval) (trans : Trans) (sock : Sock) (code : ℕ)
    → trans.major_sent ≡ false
    → send_major now trans sock code
      ≡ sent
          (record trans { major_sent = true })
          (send_client now sock (build_uint32_packet trans.ps type_major code))
unfolding send_major build_major_packet
send_major_lem now trans sock code m = rw m refl

send_minor_lem :
    (now : Timeval) (trans : Trans) (sock : Sock) (code : ℕ)
    → trans.minor_sent ≡ false
    → send_minor now trans sock code
      ≡ sent
          (record trans { minor_sent = true })
          (send_client now sock (build_uint32_packet trans.ps type_minor code))
unfolding send_minor build_minor_packet
send_minor_lem now trans sock code n = rw n refl

-- On an open transport with an ordered queue and room for two status packets, fail2 on a
-- transaction that has sent no status sends the major and then the minor status, and the
-- transaction is done.
pub fail2_lem :
    (now : Timeval) (trans : Trans) (sock : Sock) (major minor : ℕ)
    → IsOrdered sock.xmit_queue
    → sock.write_eof ≡ 0
    → sock.xmit_queue.bytes + 24 < u32_mod
    → trans.major_sent ≡ false
    → trans.minor_sent ≡ false
    → StatusSent
        (record trans { done = true; major_sent = true; minor_sent = true })
        sock
        (status_bytes trans.ps type_major major ++ status_bytes trans.ps type_minor minor)
        (fail2 now trans sock major minor)
unfolding fail2
fail2_lem now trans sock major minor o eof room m n =
    let (sock1, e1, a1) =
      sent_status now (record trans { major_sent = true }) sock type_major major
        (record { ordered = o; is_open = eof; room = omega arith }) in
    let (sock2, e2, a2) =
      sent_status now (record trans { major_sent = true; minor_sent = true }) sock1 type_minor minor
        (record {
          ordered = a1.ordered;
          is_open = a1.same_eof ∙ eof;
          room = omega (arith, a1.grown);
        }) in
    (
      sock2,
      ap (λ r. finished (then_minor now minor r)) (send_major_lem now trans sock major m ∙ e1)
          ∙ ap finished
              (send_minor_lem now (record trans { major_sent = true }) sock1 minor n ∙ e2),
      record {
        ordered = a2.ordered;
        at_end =
            a2.at_end
            ∙ ap (λ l. l ++ status_bytes trans.ps type_minor minor) a1.at_end
            ∙ append_assoc (stream sock) (status_bytes trans.ps type_major major)
                (status_bytes trans.ps type_minor minor);
        same_eof = a2.same_eof ∙ a1.same_eof;
        grown = omega (arith, a1.grown, a2.grown);
      },
    )
