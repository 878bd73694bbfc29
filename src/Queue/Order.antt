-- ===== src/Queue/Order.antt =====
-- The invariant of the transmit queue of library/socket.c, and the bytes that wait in it.
use twopence.Prelude.{
  ℕ, ◌+◌, ◌-◌, ◌<◌, ◌≡◌, refl, sym, ap, ◌∙◌, some, List, [], ◌∷◌, ◌++◌, append_assoc, append-nil,
  arith, u32_mod, add_u32, ◌≤◌,
}
use twopence.Buffer.{Buf, count}
use twopence.Buffer.Bounds.{IsReadable, count_lem}
use twopence.Buffer.Contents.{contents}
use twopence.Queue.{Packet, Queue, packet_new, queue_append, queue_dequeue}

-- The bytes of the packets, in order.
abbrev pub bytes_of : List Packet → List ℕ
bytes_of [] = []
bytes_of (p ∷ ps) = contents p.buffer ++ bytes_of ps

-- The sum of the byte counts.
abbrev pub total : List Packet → ℕ
total [] = 0
total (p ∷ ps) = p.bytes + total ps

-- The packets are numbered from one number up to another, and hold readable buffers with at least
-- a byte.
abbrev pub Numbered : ℕ → List Packet → ℕ → Type 0
Numbered s [] t = s ≡ t
Numbered s (p ∷ ps) t =
    (p.seq ≡ s)
    × IsReadable p.buffer
    × (p.buffer.head < p.buffer.tail)
    × Numbered (add_u32 s 1) ps t

pub record IsOrdered (q : Queue) : Type 0 where
  pub numbered : Numbered q.seq_head q.packets q.seq_tail
  pub counted : q.bytes ≡ total q.packets
  pub narrow : q.bytes < u32_mod

bytes_of-append :
    (ps : List Packet) (p : Packet) → bytes_of (ps ++ p ∷ []) ≡ bytes_of ps ++ contents p.buffer
bytes_of-append [] p = append-nil (contents p.buffer)
bytes_of-append (x ∷ ps) p =
    ap (◌++◌ (contents x.buffer)) (bytes_of-append ps p)
    ∙ sym (append_assoc (contents x.buffer) (bytes_of ps) (contents p.buffer))

total-append : (ps : List Packet) (p : Packet) → total (ps ++ p ∷ []) ≡ total ps + p.bytes
total-append [] p = omega arith
total-append (x ∷ ps) p = omega (arith, total-append ps p)

Numbered-append :
    (s t : ℕ) (ps : List Packet) (p : Packet)
    → Numbered s ps t
    → p.seq ≡ t
    → IsReadable p.buffer
    → p.buffer.head < p.buffer.tail
    → Numbered s (ps ++ p ∷ []) (add_u32 t 1)
Numbered-append s t [] p n e v h = (e ∙ sym n, v, h, ap (λ k. add_u32 k 1) n)
Numbered-append s t (x ∷ ps) p n e v h =
    (n.0, n.1, n.2, Numbered-append (add_u32 s 1) t ps p (n.3) e v h)

-- Appending a readable buffer with at least one byte keeps a queue ordered, if the count of bytes
-- does not wrap, and puts its bytes behind those that are queued.
pub append-IsOrdered :
    {q : Queue} (bp : Buf)
    → IsOrdered q
    → IsReadable bp
    → bp.head < bp.tail
    → q.bytes + (bp.tail - bp.head) < u32_mod
    → IsOrdered (queue_append q (packet_new bp))
      × (bytes_of (queue_append q (packet_new bp)).packets ≡ bytes_of q.packets ++ contents bp)
unfolding queue_append packet_new
append-IsOrdered {q} bp o v h small =
    let pkt : Packet = record { seq = q.seq_tail; bytes = count bp; buffer = bp } in
    (
      record {
        numbered = Numbered-append q.seq_head q.seq_tail q.packets pkt o.numbered refl v h;
        counted = omega (arith, total-append q.packets pkt, o.counted, count_lem v);
        narrow = omega arith;
      },
      bytes_of-append q.packets pkt,
    )

pub append-bytes :
    (q : Queue) (bp : Buf)
    → IsReadable bp
    → (queue_append q (packet_new bp)).bytes ≤ q.bytes + (bp.tail - bp.head)
unfolding queue_append packet_new
append-bytes q bp v = omega (arith, count_lem v)

-- The assertions of `dequeue` hold.
pub dequeue-IsOrdered :
    (q : Queue) (pkt : Packet) (rest : List Packet)
    → pkt.seq ≡ q.seq_head
    → Numbered (add_u32 q.seq_head 1) rest q.seq_tail
    → q.bytes ≡ total (pkt ∷ rest)
    → q.bytes < u32_mod
    → (q' : Queue) × (queue_dequeue (record q { packets = pkt ∷ rest }) ≡ some (some pkt, q'))
      × IsOrdered q'
      × (q'.packets ≡ rest)
unfolding queue_dequeue
dequeue-IsOrdered q pkt rest e n counted narrow = (
  record q { bytes = q.bytes - pkt.bytes; packets = rest; seq_head = add_u32 q.seq_head 1 },
  ground arith,
  record { numbered = n; counted = omega arith; narrow = omega arith },
  refl,
)
