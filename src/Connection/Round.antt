-- ===== src/Connection/Round.antt =====
-- One data packet of a peer, as library/connection.c processes it: its bytes come to the sink of the
-- transaction.
use twopence.Prelude.{
  ℕ, suc, ◌+◌, ◌<◌, ◌≡◌, refl, sym, ap, ◌∙◌, true, false, Option, none, some, List, [], ◌∷◌, ◌++◌,
  length, append_assoc, u32_mod, arith, Bool-cases, inl, inr, ==→eq, ◌==◌,
}
use twopence.Buffer.{Buf}
use twopence.Buffer.Bounds.{IsReadable}
use twopence.Buffer.Contents.{contents}
use twopence.Timeout.{Timeval}
use twopence.Queue.Order.{IsOrdered}
use twopence.Socket.{Sock}
use twopence.Socket.Transmit.{Accepted}
use twopence.Protocol.{State, Header, be16, header_size, type_chan_data, type_hello, type_keepalive}
use twopence.Protocol.Dissect.{dissect, dissect_ps, buffer_complete}
use twopence.Protocol.Frame.{dissect-packet, header_of}
use twopence.Protocol.Framing.{is_some, buffer_complete-dissect}
use twopence.Transaction.{Channel, Trans, find_channel}
use twopence.Transaction.Receive.{recv_data, recv_packet}
use twopence.Transaction.Routing.{recv_data-Routed}
use twopence.Transaction.Framed.{data_frame}
use twopence.Connection.{
  Conn, Handlers, find_transaction, put_transaction, process_one, process_loop,
  update_recv_keepalive,
}

abbrev id_or : ℕ → Option Trans → ℕ
id_or d none = d
id_or d (some t) = t.id

find-cons_hit :
    (x : Trans) (list : List Trans) (xid : ℕ)
    → (x.id == xid) ≡ true
    → find_transaction (x ∷ list) xid ≡ some x
unfolding find_transaction
find-cons_hit x list xid h = rw h refl

pub find-cons_miss :
    (x : Trans) (list : List Trans) (xid : ℕ)
    → (x.id == xid) ≡ false
    → find_transaction (x ∷ list) xid ≡ find_transaction list xid
unfolding find_transaction
find-cons_miss x list xid h = rw h refl

pub find-id :
    (list : List Trans) (xid : ℕ) (t : Trans) → find_transaction list xid ≡ some t → t.id ≡ xid
unfolding find_transaction
find-id [] xid t e = absurd (cc e)
find-id (x ∷ list) xid t e = elim (Bool-cases (x.id == xid)) [
  | inl h ↦ sym (ap (id_or xid) (sym (find-cons_hit x list xid h) ∙ e)) ∙ ==→eq x.id xid h
  | inr h ↦ find-id list xid t (sym (find-cons_miss x list xid h) ∙ e)
]

pub find-put_self :
    (list : List Trans) (xid : ℕ) (t new : Trans)
    → find_transaction list xid ≡ some t
    → new.id ≡ xid
    → find_transaction (put_transaction list xid new) xid ≡ some new
unfolding find_transaction put_transaction
find-put_self [] xid t new e i = absurd (cc e)
find-put_self (x ∷ list) xid t new e i = elim (Bool-cases (x.id == xid)) [
  | inl h ↦ rw h (let k : (new.id == xid) ≡ true = ground arith in rw k refl)
  | inr h ↦ rw h (rw h (find-put_self list xid t new (sym (find-cons_miss x list xid h) ∙ e) i))
]

-- A transaction that runs and has a sink with an open socket.
pub record IsReceiving (conn : Conn) (xid id : ℕ) (sock : Sock) : Type 0 where
  pub trans : Trans
  pub found : find_transaction conn.transactions xid ≡ some trans
  pub running : trans.done ≡ false
  pub sink : Channel
  pub attached : find_channel trans.local_sink id ≡ some sink
  pub socket : sink.socket ≡ some sock
  pub ordered : IsOrdered sock.xmit_queue
  pub is_open : sock.write_eof ≡ 0

recv_packet_data :
    (fresh : ℕ → List ℕ) (now : Timeval) (eof : Trans → ℕ → Trans)
    (recv : Option (Trans → Sock → Header → Buf → Option (Trans × Sock))) (trans trans' : Trans)
    (sock : Sock) (hdr : Header) (payload : Buf)
    → trans.done ≡ false
    → hdr.type ≡ type_chan_data
    → recv_data fresh now trans payload ≡ some trans'
    → recv_packet fresh now eof recv trans sock hdr payload ≡ some (trans', sock)
unfolding recv_packet
recv_packet_data fresh now eof recv trans trans' sock hdr payload running t e =
    let d : (hdr.type == type_chan_data) ≡ true = ground arith in simp (running, d, e)

keepalive_same :
    (now : Timeval) (conn : Conn)
    → let conn' = update_recv_keepalive now conn in
      (conn'.transactions ≡ conn.transactions) × (conn'.client_id ≡ conn.client_id)
unfolding update_recv_keepalive
keepalive_same now conn = ground arith

-- A data packet for the transaction is processed.
process_one_data :
    (now : Timeval) (h : Handlers) (conn : Conn) (hdr : Header) (payload : Buf) (ps : State)
    (trans trans' : Trans)
    → hdr.type ≡ type_chan_data
    → conn.client_id ≡ ps.cid
    → find_transaction conn.transactions ps.xid ≡ some trans
    → trans.done ≡ false
    → recv_data h.fresh now trans payload ≡ some trans'
    → (conn' : Conn) × (process_one now h conn hdr payload ps ≡ some conn')
      × (conn'.transactions ≡ put_transaction conn.transactions ps.xid trans')
      × (conn'.client_id ≡ conn.client_id)
unfolding process_one
process_one_data now h conn hdr payload ps trans trans' t cid found running e =
    let conn2 = update_recv_keepalive now conn in
    let same = keepalive_same now conn in
    let not_hello : (hdr.type == type_hello) ≡ false = ground arith in
    let not_keepalive : (hdr.type == type_keepalive) ≡ false = ground arith in
    let ours : (conn.client_id == ps.cid) ≡ true = ground arith in
    let found2 : find_transaction conn2.transactions ps.xid ≡ some trans =
      ap (λ l. find_transaction l ps.xid) same.0 ∙ found in
    let got : recv_packet h.fresh now h.eof (h.recv trans) trans conn2.client_sock hdr payload
        ≡ some (trans', conn2.client_sock) =
      recv_packet_data h.fresh now h.eof (h.recv trans) trans trans' conn2.client_sock hdr payload
        running t e in
    (
      record conn2 { transactions = put_transaction conn2.transactions ps.xid trans' },
      simp (not_hello, ours, not_keepalive, found2, got),
      ap (λ l. put_transaction l ps.xid trans') same.0,
      same.1,
    )

-- One round of the loop, on a data packet at the front of the buffer.
pub record Round (now : Timeval) (h : Handlers) (conn : Conn) (bp : Buf) (xid id : ℕ) (sock : Sock)
    (d rest : List ℕ) : Type 0 where
  pub conn' : Conn
  pub bp' : Buf
  pub sock' : Sock
  pub stepped : (f : ℕ) → process_loop (suc f) now h conn bp ≡ process_loop f now h conn' bp'
  pub readable : IsReadable bp'
  pub behind : contents bp' ≡ rest
  pub receiving : IsReceiving conn' xid id sock'
  pub accepted : Accepted sock d sock'
  pub same_client : conn'.client_id ≡ conn.client_id

process_loop-step :
    (f : ℕ) (now : Timeval) (h : Handlers) (conn conn' : Conn) (bp bp' : Buf) (hdr : Header)
    (payload : Buf) (ps : State)
    → buffer_complete bp ≡ true
    → dissect_ps bp ≡ (some (hdr, payload, ps), bp')
    → process_one now h conn hdr payload ps ≡ some conn'
    → process_loop (suc f) now h conn bp ≡ process_loop f now h conn' bp'
unfolding process_loop
process_loop-step f now h conn conn' bp bp' hdr payload ps complete dissected done =
    rw (complete, process_loop)
      (rw (ap (λ r. r.0) dissected) (rw done (rw (ap (λ r. r.1) dissected) refl)))

dissect_ps-dissect :
    (bp : Buf) (hdr : Header) (payload bp' : Buf)
    → dissect bp ≡ (some (hdr, payload), bp')
    → dissect_ps bp ≡ (some (hdr, payload, record { cid = hdr.cid; xid = hdr.xid }), bp')
unfolding dissect_ps
dissect_ps-dissect bp hdr payload bp' e =
    rw (ap (λ r. r.0) e, dissect_ps) (rw (ap (λ r. r.1) e) refl)

pub round_lem :
    (now : Timeval) (h : Handlers) (conn : Conn) (bp : Buf) (ps : State) (id : ℕ) (sock : Sock)
    (d rest : List ℕ)
    → ps.cid < 65536
    → ps.xid < 65536
    → id < 65536
    → header_size + 2 + length d < 65536
    → IsReadable bp
    → contents bp ≡ data_frame ps id d ++ rest
    → conn.client_id ≡ ps.cid
    → IsReceiving conn ps.xid id sock
    → sock.xmit_queue.bytes + length d < u32_mod
    → Round now h conn bp ps.xid id sock d rest
round_lem now h conn bp ps id sock d rest hc hx hi small v e ours r room =
    let body = be16 id ++ d in
    let hdr : Header = record {
      type = type_chan_data;
      pad = 0;
      cid = ps.cid;
      xid = ps.xid;
      len = header_size + length body;
    } in
    let split : contents bp ≡ header_of type_chan_data ps.cid ps.xid body ++ (body ++ rest) =
      e ∙ append_assoc (header_of type_chan_data ps.cid ps.xid body) body rest in
    let (payload, bp', k) =
      dissect-packet type_chan_data ps.cid ps.xid body rest v hc hx (omega arith) split in
    let complete : buffer_complete bp ≡ true =
      buffer_complete-dissect v ∙ ap (λ x. is_some x.0) k.result in
    let (trans', stored, routed) =
      recv_data-Routed h.fresh now r.trans payload id d r.sink sock k.payload_ok hi k.payload
        r.attached r.socket r.ordered r.is_open room in
    let (conn', done, transactions, client) =
      process_one_data now h conn hdr payload ps r.trans trans' refl ours r.found r.running
        stored in
    let same : trans'.id ≡ ps.xid =
      routed.same_id ∙ find-id conn.transactions ps.xid r.trans r.found in
    record {
      conn' = conn';
      bp' = bp';
      sock' = routed.after;
      stepped = λ f.
          process_loop-step f now h conn conn' bp bp' hdr payload ps complete
            (dissect_ps-dissect bp hdr payload bp' k.result) done;
      readable = k.behind_ok;
      behind = k.behind;
      receiving = record {
        trans = trans';
        found =
            ap (λ l. find_transaction l ps.xid) transactions
            ∙ find-put_self conn.transactions ps.xid r.trans trans' r.found same;
        running = routed.same_done ∙ r.running;
        sink = routed.sink;
        attached = routed.found;
        socket = routed.socket;
        ordered = routed.accepted.ordered;
        is_open = routed.accepted.same_eof ∙ r.is_open;
      };
      accepted = routed.accepted;
      same_client = client;
    }
