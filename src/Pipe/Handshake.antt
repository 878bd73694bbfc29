-- ===== src/Pipe/Handshake.antt =====
-- The exchange of HELLO packets in library/pipe.c: the reply of the server, in whatever pieces it arrives.
use twopence.Prelude.{
  ℕ, zero, suc, ◌+◌, ◌*◌, ◌≤◌, ◌<◌, ◌≡◌, refl, sym, ap, ◌∙◌, true, false, none, some, List, [], ◌∷◌,
  ◌++◌, length, length-append, append_assoc, append-nil, drop, get_or, ◌==◌, if◌then◌else◌,
  take-all, arith, Bool-cases, inl, inr, ◌||◌, ltb, ◌⊎◌,
}
use twopence.Buffer.{Buf, tailroom, advance_tail, new}
use twopence.Buffer.Bounds.{IsValid, IsReadable, IsValid-IsReadable, tailroom_lem, new-IsValid}
use twopence.Buffer.Contents.{contents}
use twopence.Timeout.{Timeval}
use twopence.Iostream.Parts.{leftover}
use twopence.Iostream.ReadAll.{pieces}
use twopence.Socket.{Sock, post_recvbuf_if_needed}
use twopence.Socket.Doio.{recv_buffer}
use twopence.Socket.Received.{filled, filled-IsValid, filled-contents}
use twopence.Protocol.{Header, header_size, max_packet, type_hello, word16}
use twopence.Protocol.Build.{build_hello_packet}
use twopence.Protocol.Dissect.{buffer_complete, dissect_ps, dissect_hello_packet}
use twopence.Protocol.Decode.{get-Decodes}
use twopence.Protocol.Frame.{header_of, word16_lem, dissect-packet}
use twopence.Protocol.Framing.{need_to_recv-partial}
use twopence.Transaction.Doio.{xmit_built}
use twopence.Connection.Keepalive.{hello_body, hello_bytes}
use twopence.Pipe.{
  Incoming, Packet, complete, ok, failed, shaken, accepted, answered, greeted, replied, posted,
  recv_blocking, read_packet, handshake,
}

drop-all : (xs : List ℕ) (n : ℕ) → length xs ≤ n → drop n xs ≡ []
drop-all [] zero h = refl
drop-all [] (suc n) h = refl
drop-all (x ∷ xs) zero h = absurd (omega arith)
drop-all (x ∷ xs) (suc n) h = drop-all xs n (omega arith)

recv_buffer-filled :
    {bp : Buf} (d : List ℕ)
    → IsValid bp
    → 0 < length d
    → bp.tail + length d ≤ bp.size
    → recv_buffer bp (some d) ≡ (some (length d), filled bp d)
unfolding recv_buffer filled advance_tail
recv_buffer-filled {bp} d v p h =
    rw (take-all d (tailroom bp) (omega (arith, tailroom_lem v))) (ground (arith, tailroom_lem v))

recv_blocking-filled :
    {bp : Buf} (c : ℕ) (cs : List ℕ) (rest : Incoming)
    → IsValid bp
    → bp.tail + length (c ∷ cs) ≤ bp.size
    → recv_blocking bp (some (c ∷ cs) ∷ rest) ≡ (some (length (c ∷ cs)), filled bp (c ∷ cs), rest)
unfolding recv_blocking
recv_blocking-filled {bp} c cs rest v h =
    ap (λ r. (r.0, r.1, leftover (drop (tailroom bp) (c ∷ cs)) rest))
      (recv_buffer-filled (c ∷ cs) v (omega arith) h)
    ∙ ap (λ l. (some (length (c ∷ cs)), filled bp (c ∷ cs), leftover l rest))
        (drop-all (c ∷ cs) (tailroom bp) (omega (arith, tailroom_lem v)))

-- A packet is complete exactly if nothing of it is missing.
complete_nil :
    {bp : Buf} (type cid xid : ℕ) (body missing : List ℕ)
    → IsReadable bp
    → header_size + length body < 65536
    → contents bp ++ missing ≡ header_of type cid xid body ++ body
    → buffer_complete bp ≡ true
    → missing ≡ []
unfolding buffer_complete
complete_nil type cid xid body [] v hl e h = refl
complete_nil {bp} type cid xid body (m ∷ ms) v hl e h =
    absurd (ground (arith, need_to_recv-partial type cid xid body (m ∷ ms) v hl e, h))

nil_complete :
    {bp : Buf} (type cid xid : ℕ) (body : List ℕ)
    → IsReadable bp
    → header_size + length body < 65536
    → contents bp ++ [] ≡ header_of type cid xid body ++ body
    → buffer_complete bp ≡ true
unfolding buffer_complete
nil_complete {bp} type cid xid body v hl e = ground (
  arith,
  need_to_recv-partial type cid xid body [] v hl e,
  ap length e,
  length-append (contents bp) [],
  length-append (header_of type cid xid body) body,
)

-- What the loop returns: a buffer that holds the packet and nothing else.
abbrev Arrives : List ℕ → Packet → Type 0
Arrives d r = (bp : Buf) × (r ≡ complete bp) × (contents bp ≡ d) × IsReadable bp

read_packet-here :
    (f : ℕ) (bp : Buf) (incoming : Incoming)
    → buffer_complete bp ≡ true
    → read_packet (suc f) bp incoming ≡ complete bp
unfolding read_packet
read_packet-here f bp incoming e = rw e refl

read_packet-next :
    (f n : ℕ) (bp bp' : Buf) (incoming rest : Incoming)
    → buffer_complete bp ≡ false
    → recv_blocking bp incoming ≡ (some (suc n), bp', rest)
    → read_packet (suc f) bp incoming ≡ read_packet f bp' rest
unfolding read_packet
read_packet-next f n bp bp' incoming rest partial e =
    rw (partial, read_packet)
      (rw (ap (λ r. r.0) e) (rw (ap (λ r. r.1) e) (rw (ap (λ r. r.2) e) refl)))

section_room :
    (c : ℕ) (cs : List ℕ) (rest : Incoming) (bp : Buf)
    → bp.tail + length (pieces (some (c ∷ cs) ∷ rest)) ≤ bp.size
    → bp.tail + length (c ∷ cs) ≤ bp.size
section_room c cs rest bp h = omega (arith, length-append (c ∷ cs) (pieces rest))

read_packet-Arrives :
    (f : ℕ) (bp : Buf) (incoming : Incoming) (type cid xid : ℕ) (body : List ℕ)
    → IsValid bp
    → header_size + length body < 65536
    → bp.tail + length (pieces incoming) ≤ bp.size
    → length (pieces incoming) < f
    → contents bp ++ pieces incoming ≡ header_of type cid xid body ++ body
    → Arrives (header_of type cid xid body ++ body) (read_packet f bp incoming)
unfolding filled
read_packet-Arrives zero bp incoming type cid xid body v hl room enough e = absurd (omega arith)
read_packet-Arrives (suc f) bp incoming type cid xid body v hl room enough e =
    elim (Bool-cases (buffer_complete bp)) [
      | inl whole ↦
          let none_left : pieces incoming ≡ [] =
            complete_nil type cid xid body (pieces incoming) (IsValid-IsReadable v) hl e whole in
          (
            bp,
            read_packet-here f bp incoming whole,
            sym (append-nil (contents bp)) ∙ sym (ap (◌++◌ (contents bp)) none_left) ∙ e,
            IsValid-IsReadable v,
          )
      | inr partial ↦
          next
            (λ b rest v' room' enough' e'.
              read_packet-Arrives f b rest type cid xid body v' hl room' enough' e')
            incoming room enough e partial
            (λ none_left.
              nil_complete type cid xid body (IsValid-IsReadable v) hl
                (sym (ap (◌++◌ (contents bp)) none_left) ∙ e))
    ]
  where
    next :
        ((b : Buf) (rest : Incoming)
          → IsValid b
          → b.tail + length (pieces rest) ≤ b.size
          → length (pieces rest) < f
          → contents b ++ pieces rest ≡ header_of type cid xid body ++ body
          → Arrives (header_of type cid xid body ++ body) (read_packet f b rest))
        → (incoming : Incoming) → bp.tail + length (pieces incoming) ≤ bp.size
        → length (pieces incoming) < suc f
        → contents bp ++ pieces incoming ≡ header_of type cid xid body ++ body
        → buffer_complete bp ≡ false
        → (pieces incoming ≡ [] → buffer_complete bp ≡ true)
        → Arrives (header_of type cid xid body ++ body) (read_packet (suc f) bp incoming)
    next later [] room enough e partial done = absurd (cc (done refl, partial))
    next later (none ∷ rest) room enough e partial done = absurd (cc (done refl, partial))
    next later (some [] ∷ rest) room enough e partial done = absurd (cc (done refl, partial))
    next later (some (c ∷ cs) ∷ rest) room enough e partial done =
        let len = length-append (c ∷ cs) (pieces rest) in
        let small = section_room c cs rest bp room in
        let b : Buf = filled bp (c ∷ cs) in
        let (bp', q, w, ok') =
          later b rest (filled-IsValid (c ∷ cs) v small) (omega (arith, len)) (omega (arith, len)) (
            ap (λ l. l ++ pieces rest) (filled-contents (c ∷ cs) v small)
            ∙ append_assoc (contents bp) (c ∷ cs) (pieces rest)
            ∙ e) in
        (
          bp',
          read_packet-next f (length cs) bp b (some (c ∷ cs) ∷ rest) rest partial
                (recv_blocking-filled c cs rest v small)
              ∙ q,
          w,
          ok',
        )

-- The reply is taken apart.
pub dissect_hello_lem :
    {p : Buf} (keepalive : ℕ)
    → IsReadable p
    → keepalive < 65536
    → contents p ≡ hello_body keepalive
    → (rest : Buf) × (dissect_hello_packet p ≡ some ((3, 0, keepalive), rest))
unfolding dissect_hello_packet
dissect_hello_lem {p} keepalive v h e =
    let (rest, done, left) =
      get-Decodes (λ d. (get_or d 0 0, get_or d 1 0, word16 d 2)) (hello_body keepalive) [] 4 v refl
        (e ∙ sym (append-nil (hello_body keepalive))) in
    (rest, done ∙ ap (λ k. some ((3, 0, k), rest)) (word16_lem keepalive h))

dissect_hello :
    {bp : Buf} (cid keepalive : ℕ)
    → IsReadable bp
    → cid < 65536
    → keepalive < 65536
    → contents bp ≡ hello_bytes cid keepalive
    → (hdr : Header) × (p bp' rest : Buf) × (dissect_ps bp
        ≡ (some (hdr, p, record { cid = cid; xid = 0 }), bp'))
      × (hdr.type ≡ type_hello)
      × (dissect_hello_packet p ≡ some ((3, 0, keepalive), rest))
unfolding dissect_ps
dissect_hello {bp} cid keepalive v hc hk e =
    let body = hello_body keepalive in
    let (p, bp', d) =
      dissect-packet type_hello cid 0 body [] v hc (omega arith) (omega arith)
        (e ∙ ap (◌++◌ (header_of type_hello cid 0 body)) (sym (append-nil body))) in
    let (rest, done) = dissect_hello_lem keepalive d.payload_ok hk d.payload in
    let hdr : Header = record {
      type = type_hello;
      pad = 0;
      cid = cid;
      xid = 0;
      len = header_size + length body;
    } in
    (
      hdr,
      p,
      bp',
      rest,
      rw (ap (λ r. r.0) (d.result), dissect_ps) (rw (ap (λ r. r.1) (d.result)) refl),
      refl,
      done,
    )

greeted_lem :
    (sock : Sock) (line_timeout cid keepalive : ℕ) (bp : Buf)
    → IsReadable bp
    → cid < 65536
    → keepalive < 65536
    → contents bp ≡ hello_bytes cid keepalive
    → (sock' : Sock) × (replied sock line_timeout (complete bp)
        ≡ some (record {
          rc = ok 0;
          sock = sock';
          client_id = cid;
          line_timeout = accepted line_timeout keepalive;
        }))
greeted_lem sock line_timeout cid keepalive bp v hc hk e =
    let (hdr, p, bp', rest, done, type, hello) = dissect_hello cid keepalive v hc hk e in
    let sock' : Sock = record sock { recv_buf = some bp' } in
    let t : (hdr.type == type_hello) ≡ true = ground (arith, type) in
    (
      sock',
      ap (λ r. some (answered (record sock { recv_buf = some r.1 }) line_timeout r.0)) done
          ∙ ap
              (λ b. some (
                if b
                then greeted sock' line_timeout (record { cid = cid; xid = 0 })
                    (dissect_hello_packet p)
                else shaken sock' line_timeout (failed 16)))
              t
          ∙ ap (λ o. some (greeted sock' line_timeout (record { cid = cid; xid = 0 }) o)) hello,
    )

post_lem :
    (sock : Sock)
    → sock.recv_buf ≡ none
    → sock.read_eof ≡ false
    → (post_recvbuf_if_needed sock (4 * max_packet)).1.recv_buf ≡ some (new (4 * max_packet))
unfolding post_recvbuf_if_needed
post_lem sock e o = rw (e, post_recvbuf_if_needed) (rw o refl)

-- The handshake with the value that the code computes.
pub handshake_lem :
    (now : Timeval) (sock sock1 : Sock) (incoming : Incoming) (line_timeout cid keepalive : ℕ)
    → xmit_built now sock (build_hello_packet 0 line_timeout) ≡ some (true, sock1)
    → sock1.recv_buf ≡ none
    → sock1.read_eof ≡ false
    → cid < 65536
    → keepalive < 65536
    → pieces incoming ≡ hello_bytes cid keepalive
    → (sock' : Sock) × (handshake now sock incoming line_timeout
        ≡ some (record {
          rc = ok 0;
          sock = sock';
          client_id = cid;
          line_timeout = accepted line_timeout keepalive;
        }))
unfolding handshake new
handshake_lem now sock sock1 incoming line_timeout cid keepalive sent empty is_open hc hk e =
    let sock2 = (post_recvbuf_if_needed sock1 (4 * max_packet)).1 in
    let (bp, arrived, w, v) =
      read_packet-Arrives (suc (length (pieces incoming))) (new (4 * max_packet)) incoming
        type_hello cid 0 (hello_body keepalive) (new-IsValid (4 * max_packet) (omega arith))
        (omega arith) (omega (arith, ap length e)) (omega arith) e in
    let (sock', done) = greeted_lem sock2 line_timeout cid keepalive bp v hc hk w in
    (
      sock',
      rw (sent, handshake)
          (ap (posted sock2 incoming line_timeout) (post_lem sock1 empty is_open)
            ∙ ap (replied sock2 line_timeout) arrived
            ∙ done),
    )

-- The period that a client which asks for `line` waits, when the server says `server`: 0 asks for none.
pub record Shorter (line server period : ℕ) : Type 0 where
  pub unasked : line ≡ 0 → period ≡ server
  pub within : 0 < line → (period ≤ line) × (period ≤ server)
  pub one_of : (period ≡ line) ⊎ (period ≡ server)

accepted-Shorter : (line server : ℕ) → Shorter line server (accepted line server)
accepted-Shorter line server = record {
  unasked = λ e. ground (arith, e);
  within = λ h. (ground arith, ground arith);
  one_of = elim (Bool-cases (line == 0 || ltb server line)) [
    | inl e ↦ inr (ap (λ b. if b then server else line) e)
    | inr e ↦ inl (ap (λ b. if b then server else line) e)
  ];
}

-- If the HELLO packet of the client has been sent on a socket that has no receive buffer and is
-- not at its end, and a HELLO packet of the server of this version arrives, whatever the pieces in
-- which it is read, its id and its timeout fitting 16 bits, the handshake ends and succeeds, with
-- the id of the server and the smaller of the two timeouts, where 0 of the client counts as none.
pub handshake-Greets :
    (now : Timeval) (sock sock1 : Sock) (incoming : Incoming) (line_timeout cid keepalive : ℕ)
    → xmit_built now sock (build_hello_packet 0 line_timeout) ≡ some (true, sock1)
    → sock1.recv_buf ≡ none
    → sock1.read_eof ≡ false
    → cid < 65536
    → keepalive < 65536
    → pieces incoming ≡ hello_bytes cid keepalive
    → (sock' : Sock) × (period : ℕ) × (handshake now sock incoming line_timeout
        ≡ some (record { rc = ok 0; sock = sock'; client_id = cid; line_timeout = period }))
      × Shorter line_timeout keepalive period
handshake-Greets now sock sock1 incoming line_timeout cid keepalive sent empty is_open hc hk e =
    let (sock', done) =
      handshake_lem now sock sock1 incoming line_timeout cid keepalive sent empty is_open hc hk e in
    (sock', accepted line_timeout keepalive, done, accepted-Shorter line_timeout keepalive)
