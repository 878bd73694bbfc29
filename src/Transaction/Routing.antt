-- ===== src/Transaction/Routing.antt =====
-- How library/transaction.c routes received data: to the first sink with the channel's id, and to no other.
use twopence.Prelude.{
  ℕ, ◌+◌, ◌<◌, ◌≡◌, ◌≢◌, refl, sym, ap, ◌∙◌, true, false, Option, none, some, List, [], ◌∷◌, ◌++◌,
  length, u32_mod, add_u32, arith, ◌==◌, if◌then◌else◌, Bool-cases, inl, inr, ==→eq, subst,
}
use twopence.Buffer.{Buf, count}
use twopence.Buffer.Bounds.{IsReadable}
use twopence.Buffer.Contents.{contents, length-contents}
use twopence.Timeout.{Timeval}
use twopence.Queue.Order.{IsOrdered}
use twopence.Socket.{Sock, queue_xmit}
use twopence.Socket.Transmit.{Accepted, queue_xmit-Accepted}
use twopence.Protocol.{be16}
use twopence.Protocol.Dissect.{decode_u16}
use twopence.Protocol.Decode.{decode_u16-Decodes}
use twopence.Transaction.{Channel, Trans, find_channel, put_channel}
use twopence.Transaction.Receive.{write_data, recv_data}

find-cons_hit :
    (x : Channel) (list : List Channel) (id : ℕ)
    → (x.id == id) ≡ true
    → find_channel (x ∷ list) id ≡ some x
unfolding find_channel
find-cons_hit x list id h = rw h refl

find-cons_miss :
    (x : Channel) (list : List Channel) (id : ℕ)
    → (x.id == id) ≡ false
    → find_channel (x ∷ list) id ≡ find_channel list id
unfolding find_channel
find-cons_miss x list id h = rw h refl

find-put_self :
    (list : List Channel) (id : ℕ) (c new : Channel)
    → find_channel list id ≡ some c
    → new.id ≡ id
    → find_channel (put_channel list id new) id ≡ some new
unfolding find_channel put_channel
find-put_self [] id c new e i = absurd (cc e)
find-put_self (x ∷ list) id c new e i = elim (Bool-cases (x.id == id)) [
  | inl h ↦ rw h (let k : (new.id == id) ≡ true = ground arith in rw k refl)
  | inr h ↦ rw h (rw h (find-put_self list id c new (sym (find-cons_miss x list id h) ∙ e) i))
]

find-put_other :
    (list : List Channel) (id other : ℕ) (new : Channel)
    → new.id ≡ id
    → id ≢ other
    → find_channel (put_channel list id new) other ≡ find_channel list other
unfolding find_channel put_channel
find-put_other [] id other new i ne = refl
find-put_other (x ∷ list) id other new i ne = elim (Bool-cases (x.id == id)) [
  | inl h ↦
      let k : (new.id == other) ≡ false = ground (arith, ne) in
      let k' : (x.id == other) ≡ false = ground (arith, ne, ==→eq x.id id h) in
      rw h (rw (k, k') refl)
  | inr h ↦
      rw h (ap (λ l. if x.id == other then some x else l) (find-put_other list id other new i ne))
]

abbrev id_or : ℕ → Option Channel → ℕ
id_or d none = d
id_or d (some c) = c.id

find-id : (list : List Channel) (id : ℕ) (c : Channel) → find_channel list id ≡ some c → c.id ≡ id
unfolding find_channel
find-id [] id c e = absurd (cc e)
find-id (x ∷ list) id c e = elim (Bool-cases (x.id == id)) [
  | inl h ↦ sym (ap (id_or id) (sym (find-cons_hit x list id h) ∙ e)) ∙ ==→eq x.id id h
  | inr h ↦ find-id list id c (sym (find-cons_miss x list id h) ∙ e)
]

write_data_socket :
    (fresh : ℕ → List ℕ) (now : Timeval) (sink : Channel) (sock : Sock) (payload : Buf)
    → sink.socket ≡ some sock
    → write_data fresh now sink payload
      ≡ some (record sink { socket = some (queue_xmit true now sock payload).1 })
unfolding write_data
write_data_socket fresh now sink sock payload e = rw e refl

recv_data_lem :
    (fresh : ℕ → List ℕ) (now : Timeval) (trans : Trans) (payload : Buf) (id : ℕ)
    (sink new : Channel) (rest : Buf)
    → decode_u16 payload ≡ some (id, rest)
    → find_channel trans.local_sink id ≡ some sink
    → write_data fresh now sink rest ≡ some new
    → recv_data fresh now trans payload
      ≡ some (record trans {
        nbytes_received = add_u32 trans.nbytes_received (count rest);
        local_sink = put_channel trans.local_sink id new;
      })
unfolding recv_data
recv_data_lem fresh now trans payload id sink new rest decoded found stored =
    rw (decoded, recv_data) (rw found (rw stored refl))

-- The first channel of that id has a socket, whose stream has grown by `d`; every other id finds the
-- channel that it found.
pub record Routed (trans : Trans) (id : ℕ) (sock : Sock) (d : List ℕ) (trans' : Trans)
    : Type 0 where
  pub same_id : trans'.id ≡ trans.id
  pub same_done : trans'.done ≡ trans.done
  pub sink : Channel
  pub found : find_channel trans'.local_sink id ≡ some sink
  pub after : Sock
  pub socket : sink.socket ≡ some after
  pub accepted : Accepted sock d after
  pub others :
      (other : ℕ)
      → id ≢ other
      → find_channel trans'.local_sink other ≡ find_channel trans.local_sink other

-- A data packet that a transaction receives for a channel whose first sink has an open socket with
-- an ordered queue and a count that does not wrap goes to that sink: the bytes behind the channel
-- number are put at the end of its stream, and every other channel number finds the sink that it
-- found before.
pub recv_data-Routed :
    (fresh : ℕ → List ℕ) (now : Timeval) (trans : Trans) (payload : Buf) (id : ℕ) (d : List ℕ)
    (sink : Channel) (sock : Sock)
    → IsReadable payload
    → id < 65536
    → contents payload ≡ be16 id ++ d
    → find_channel trans.local_sink id ≡ some sink
    → sink.socket ≡ some sock
    → IsOrdered sock.xmit_queue
    → sock.write_eof ≡ 0
    → sock.xmit_queue.bytes + length d < u32_mod
    → (trans' : Trans) × (recv_data fresh now trans payload ≡ some trans')
      × Routed trans id sock d trans'
recv_data-Routed fresh now trans payload id d sink sock v small e found has o eof room =
    let (rest, decoded, left) = decode_u16-Decodes id d v small e in
    let new : Channel = record sink { socket = some (queue_xmit true now sock rest).1 } in
    let same : new.id ≡ id = find-id trans.local_sink id sink found in
    (
      _,
      recv_data_lem fresh now trans payload id sink new rest decoded found
          (write_data_socket fresh now sink sock rest has),
      record {
        same_id = refl;
        same_done = refl;
        sink = new;
        found = find-put_self trans.local_sink id sink new found same;
        after = (queue_xmit true now sock rest).1;
        socket = refl;
        accepted =
            subst (λ l. Accepted sock l (queue_xmit true now sock rest).1) left.bytes
              (queue_xmit-Accepted true now sock rest o left.readable
                (omega (arith, room, length-contents left.readable, ap length left.bytes)) eof);
        others = λ other ne. find-put_other trans.local_sink id other new same ne;
      },
    )
