-- ===== src/Connection/Keepalive.antt =====
-- The negotiation of keepalives in library/connection.c, by the HELLO packet.
use twopence.Prelude.{
  ℕ, ◌/◌, ◌<◌, ◌≡◌, refl, sym, ap, ◌∙◌, subst, false, not, Option, some, List, ◌∷◌, ◌++◌, length,
  arith, ◌==◌, if◌then◌else◌, Bool-cases, inl, inr,
}
use twopence.Buffer.{Buf, append}
use twopence.Buffer.Bounds.{IsValid, IsReadable, IsValid-IsReadable}
use twopence.Buffer.Contents.{contents, length-contents, append_fits}
use twopence.Timeout.{Timeval, never}
use twopence.Queue.Order.{IsOrdered, bytes_of}
use twopence.Socket.Stream.{stream}
use twopence.Socket.{queue_xmit, enable_xmit_ts}
use twopence.Socket.Transmit.{Accepted, queue_xmit-Accepted}
use twopence.Protocol.{be16, type_hello, command_buffer_new, vers_major, vers_minor}
use twopence.Protocol.Build.{packet, build_hello_packet}
use twopence.Protocol.Dissect.{dissect_hello_packet}
use twopence.Protocol.Frame.{header_of, raise_header-contents}
use twopence.Protocol.RoundTrip.{IsFresh, command_buffer_new-IsFresh}
use twopence.Transaction.{send_client}
use twopence.Transaction.Status.{CanSend}
use twopence.Connection.{
  Conn, update_send_keepalive, update_recv_keepalive, later, keepalive_period, enabled,
  set_keepalive, his_keepalive, my_keepalive, process_hello,
}

-- The body of a HELLO packet, and the packet.
abbrev pub hello_body : ℕ → List ℕ
hello_body keepalive = vers_major ∷ vers_minor ∷ be16 keepalive

abbrev pub hello_bytes : ℕ → ℕ → List ℕ
hello_bytes cid keepalive =
    header_of type_hello cid 0 (hello_body keepalive) ++ hello_body keepalive

build_hello_lem :
    (cid keepalive : ℕ)
    → (p : Buf) × (build_hello_packet cid keepalive ≡ packet p)
      × (contents p ≡ hello_bytes cid keepalive)
      × IsValid p
unfolding build_hello_packet
build_hello_lem cid keepalive =
    let f : IsFresh command_buffer_new = command_buffer_new-IsFresh in
    let b : Buf = (append command_buffer_new (hello_body keepalive) 4).1 in
    let (done, bytes, head, tail, size, valid) =
      append_fits {bp = command_buffer_new} (hello_body keepalive) 4 f.valid refl
        (omega (arith, f.tail, f.size)) in
    let body : contents b ≡ hello_body keepalive =
      bytes ∙ ap (λ l. l ++ hello_body keepalive) f.bytes in
    let (p, made, c, v, _, _) =
      raise_header-contents b type_hello cid 0
        (record { valid = valid; reserved = head ∙ f.head; short = omega (arith, tail, f.tail) }) in
    (p, rw made refl, c ∙ ap (λ l. header_of type_hello cid 0 l ++ l) body, v)

-- The period that goes with a negotiated value: off, or ten seconds at least.
abbrev pub period : ℕ → ℕ
period k = if k == 0 then 0 else keepalive_period (some k)

pub record Set (now : Timeval) (conn : Conn) (k : ℕ) (conn' : Conn) : Type 0 where
  pub recv_timeout : conn'.recv_timeout ≡ period k
  pub send_timeout : conn'.send_timeout ≡ period k / 4
  pub recv_deadline : conn'.recv_deadline ≡ (if k == 0 then never else later now (period k))
  pub queue : conn'.client_sock.xmit_queue ≡ conn.client_sock.xmit_queue
  pub wire : conn'.client_sock.wire ≡ conn.client_sock.wire
  pub eof : conn'.client_sock.write_eof ≡ conn.client_sock.write_eof

update_send_lem :
    (conn : Conn)
    → ((update_send_keepalive conn).client_sock ≡ conn.client_sock)
      × ((update_send_keepalive conn).recv_timeout ≡ conn.recv_timeout)
      × ((update_send_keepalive conn).send_timeout ≡ conn.send_timeout)
unfolding update_send_keepalive
update_send_lem conn = elim (Bool-cases (conn.send_timeout == 0)) [
  | inl e ↦ rw e (refl, refl, refl)
  | inr e ↦ elim (Bool-cases (not conn.client_sock.ts_enabled)) [
    | inl t ↦ rw (e, t) (refl, refl, refl)
    | inr t ↦ elim (Bool-cases (conn.client_sock.ts_when.sec == 0)) [
      | inl z ↦ rw (e, t, z) (refl, refl, refl)
      | inr z ↦ rw (e, t, z) (refl, refl, refl)
    ]
  ]
]

update_recv_lem :
    (now : Timeval) (conn : Conn)
    → 0 < conn.recv_timeout
    → update_recv_keepalive now conn ≡ record conn { recv_deadline = later now conn.recv_timeout }
unfolding update_recv_keepalive
update_recv_lem now conn h = let e : (conn.recv_timeout == 0) ≡ false = ground arith in rw e refl

-- The keepalives switched on, for a period `p`.
record Enabled (now : Timeval) (conn : Conn) (p : ℕ) (conn' : Conn) : Type 0 where
  recv_timeout : conn'.recv_timeout ≡ p
  send_timeout : conn'.send_timeout ≡ p / 4
  recv_deadline : conn'.recv_deadline ≡ later now p
  queue : conn'.client_sock.xmit_queue ≡ conn.client_sock.xmit_queue
  wire : conn'.client_sock.wire ≡ conn.client_sock.wire
  eof : conn'.client_sock.write_eof ≡ conn.client_sock.write_eof

enabled-Enabled :
    (now : Timeval) (conn : Conn) (p : ℕ) → 0 < p → Enabled now conn p (enabled now conn p)
unfolding enable_xmit_ts
enabled-Enabled now conn p h =
    let base : Conn = record conn {
      send_timeout = p / 4;
      client_sock = enable_xmit_ts conn.client_sock;
      recv_timeout = p;
    } in
    let (s, r, t) = update_send_lem base in
    subst (Enabled now conn p)
      (sym (update_recv_lem now (update_send_keepalive base) (omega (arith, r))))
      (record {
        recv_timeout = r;
        send_timeout = t;
        recv_deadline = ap (later now) r;
        queue = ap (λ k. k.xmit_queue) s;
        wire = ap (λ k. k.wire) s;
        eof = ap (λ k. k.write_eof) s;
      })

pub set_keepalive-Set :
    (now : Timeval) (conn : Conn) (k : ℕ) → Set now conn k (set_keepalive now conn (some k))
unfolding set_keepalive
set_keepalive-Set now conn k = elim (Bool-cases (k == 0)) [
  | inl e ↦ rw e (record {
    recv_timeout = rw e refl;
    send_timeout = rw e refl;
    recv_deadline = rw e refl;
    queue = refl;
    wire = refl;
    eof = refl;
  })
  | inr e ↦
      let p : ℕ = keepalive_period (some k) in
      let n : Enabled now conn p (enabled now conn p) = enabled-Enabled now conn p (ground arith) in
      rw e (record {
        recv_timeout = n.recv_timeout ∙ rw e refl;
        send_timeout = n.send_timeout ∙ rw e refl;
        recv_deadline = n.recv_deadline ∙ rw e refl;
        queue = n.queue;
        wire = n.wire;
        eof = n.eof;
      })
]

-- The smaller of the two periods.
abbrev pub negotiated : Conn → Buf → ℕ
negotiated conn payload =
    my_keepalive (his_keepalive (dissect_hello_packet payload)) conn.recv_timeout

-- What processing a HELLO packet leads to.
pub record Negotiated (now : Timeval) (conn : Conn) (k : ℕ) (o : Option Conn) : Type 0 where
  pub after : Conn
  pub returns : o ≡ some after
  pub recv_timeout : after.recv_timeout ≡ period k
  pub send_timeout : after.send_timeout ≡ period k / 4
  pub recv_deadline : after.recv_deadline ≡ (if k == 0 then never else later now (period k))
  pub replied : stream after.client_sock ≡ stream conn.client_sock ++ hello_bytes conn.client_id k
  pub ordered : IsOrdered after.client_sock.xmit_queue

-- The HELLO packet of a client, with the value that the code computes.
pub process_hello_lem :
    (now : Timeval) (conn : Conn) (payload : Buf)
    → CanSend conn.client_sock
    → Negotiated now conn (negotiated conn payload) (process_hello now conn payload)
unfolding process_hello send_client
process_hello_lem now conn payload c =
    let k : ℕ = negotiated conn payload in
    let conn' : Conn = set_keepalive now conn (some k) in
    let s : Set now conn k conn' = set_keepalive-Set now conn k in
    let (p, built, bytes, valid) = build_hello_lem conn.client_id k in
    let v : IsReadable p = IsValid-IsReadable valid in
    let a : Accepted conn'.client_sock (contents p) (queue_xmit false now conn'.client_sock p).1 =
      queue_xmit-Accepted false now conn'.client_sock p (subst IsOrdered (sym s.queue) c.ordered) v
        (omega (arith, c.room, ap (λ q. q.bytes) s.queue, length-contents v, ap length bytes))
        (s.eof ∙ c.is_open) in
    record {
      after = record conn' { client_sock = (queue_xmit false now conn'.client_sock p).1 };
      returns = rw (built, send_client) refl;
      recv_timeout = s.recv_timeout;
      send_timeout = s.send_timeout;
      recv_deadline = s.recv_deadline;
      replied =
          a.at_end
          ∙ ap (λ w. (w ++ bytes_of conn'.client_sock.xmit_queue.packets) ++ contents p) s.wire
          ∙ ap (λ q. (conn.client_sock.wire ++ bytes_of q.packets) ++ contents p) s.queue
          ∙ ap (◌++◌ (stream conn.client_sock)) bytes;
      ordered = a.ordered;
    }
