-- ===== src/Socket/Flush.antt =====
-- The flush of the transmit queue of library/socket.c: the assertions hold, the fuel is enough, and no
-- byte is lost, doubled or moved.
use twopence.Prelude.{
  ℕ, zero, suc, ◌+◌, ◌-◌, ◌≤◌, ◌<◌, ◌≡◌, refl, sym, ap, ◌∙◌, subst, Option, none, some, List, [],
  ◌∷◌, ◌++◌, length, take, drop, append_assoc, arith, ◌==◌, Bool-cases, inl, inr, u32_mod, ==→eq,
  ==→ne,
}
use twopence.Buffer.{Buf, count}
use twopence.Buffer.Bounds.{IsReadable, count_lem}
use twopence.Buffer.Contents.{contents}
use twopence.Timeout.{Timeval}
use twopence.Queue.{Packet, Queue, queue_dequeue}
use twopence.Queue.Order.{bytes_of, total, Numbered, IsOrdered, dequeue-IsOrdered}
use twopence.Socket.{Sock, sent_head, with_head, dequeued, send_queued, flush_loop, flush_fuel}
use twopence.Socket.Stream.{stream, Sent, write_lem}

abbrev pub with_packets : Sock → List Packet → Sock
with_packets sock ps = record sock { xmit_queue = record sock.xmit_queue { packets = ps } }

-- What a step or several of the flush do.
pub record Flushed (sock : Sock) (r : Option ℕ) (sock' : Sock) : Type 0 where
  pub ordered : IsOrdered sock'.xmit_queue
  pub same_stream : stream sock' ≡ stream sock
  pub same_eof : sock'.write_eof ≡ sock.write_eof
  pub fewer : sock'.xmit_queue.bytes ≤ sock.xmit_queue.bytes

-- Each step uses up an answer or a packet, unless it fails.
abbrev work : Sock → ℕ
work sock = length sock.answers + length sock.xmit_queue.packets

abbrev Progress : Sock → Option ℕ → Sock → Type 0
Progress sock r sock' = (n : ℕ) → r ≡ some n → work sock' < work sock

-- The queue of a socket whose packets are given.
record Waiting (q : Queue) (pkt : Packet) (rest : List Packet) : Type 0 where
  numbered : Numbered q.seq_head (pkt ∷ rest) q.seq_tail
  counted : q.bytes ≡ total (pkt ∷ rest)
  narrow : q.bytes < u32_mod

pub empty_contents : {bp : Buf} → IsReadable bp → count bp ≡ 0 → contents bp ≡ []
empty_contents {bp} v e =
    ap (λ n. take n (drop bp.head bp.base))
      (let z : bp.tail - bp.head ≡ 0 = omega (arith, count_lem v) in z)

record HeadSent (sock : Sock) (pkt : Packet) (rest : List Packet) (o : Option (Option ℕ × Sock))
    : Type 0 where
  result : Option ℕ
  after : Sock
  returns : o ≡ some (result, after)
  flushed : Flushed (with_packets sock (pkt ∷ rest)) result after
  progress : Progress (with_packets sock (pkt ∷ rest)) result after

dequeued_lem :
    (n : Option ℕ) (sock : Sock) (pkt : Option Packet) (q : Queue)
    → queue_dequeue sock.xmit_queue ≡ some (pkt, q)
    → dequeued n sock ≡ some (n, record sock { xmit_queue = q })
dequeued_lem n sock pkt q e = rw (e, dequeued) refl

sent_head_lem :
    (sock : Sock) (pkt : Packet) (rest : List Packet) (n : Option ℕ) (sock' : Sock) (bp : Buf)
    → Waiting sock.xmit_queue pkt rest
    → Sent (with_packets sock (pkt ∷ rest)) pkt.buffer (n, sock', bp)
    → HeadSent sock pkt rest (sent_head pkt rest (n, sock', bp))
sent_head_lem sock pkt rest n sock' bp w s = elim (Bool-cases (count bp == 0)) [
  | inl e ↦
      let (q, d, o, left) =
        dequeue-IsOrdered sock'.xmit_queue (record pkt { buffer = bp }) rest (w'.numbered.0)
          (w'.numbered.3) w'.counted w'.narrow in
      record {
        result = n;
        after = record (with_head sock' pkt bp rest) { xmit_queue = q };
        returns = rw e (dequeued_lem n (with_head sock' pkt bp rest) _ q d);
        flushed = record {
          ordered = o;
          same_stream =
              ap (λ ps. sock'.wire ++ bytes_of ps) left
              ∙ ap (λ l. sock'.wire ++ (l ++ bytes_of rest))
                  (sym (empty_contents s.readable (==→eq (count bp) 0 e)))
              ∙ joined;
          same_eof = s.same_eof;
          fewer = omega (arith, o.counted, ap total left, w.counted);
        };
        progress = λ m r. omega (arith, s.used m r (w.numbered.2), ap length left);
      }
  | inr e ↦ record {
    result = n;
    after = with_head sock' pkt bp rest;
    returns = rw e refl;
    flushed = record {
      ordered = record {
        numbered = (
          w'.numbered.0,
          s.readable,
          ground (arith, count_lem s.readable, ==→ne (count bp) 0 e),
          w'.numbered.3,
        );
        counted = w'.counted;
        narrow = w'.narrow;
      };
      same_stream = joined;
      same_eof = s.same_eof;
      fewer = omega (arith, w'.counted, w.counted);
    };
    progress = λ m r. omega (arith, s.used m r (w.numbered.2));
  }
]
  where
    w' : Waiting sock'.xmit_queue pkt rest
    w' =
        subst (λ q. Waiting q pkt rest) (sym s.same_queue)
          (record { numbered = w.numbered; counted = w.counted; narrow = w.narrow })

    joined :
        sock'.wire ++ (contents bp ++ bytes_of rest)
        ≡ sock.wire ++ (contents pkt.buffer ++ bytes_of rest)
    joined =
        sym (append_assoc sock'.wire (contents bp) (bytes_of rest))
        ∙ ap (λ l. l ++ bytes_of rest) s.moved
        ∙ append_assoc sock.wire (contents pkt.buffer) (bytes_of rest)

record StepSent (sock : Sock) (o : Option (Option ℕ × Sock)) : Type 0 where
  result : Option ℕ
  after : Sock
  returns : o ≡ some (result, after)
  flushed : Flushed sock result after
  progress : 0 < length sock.xmit_queue.packets → Progress sock result after

send_queued_lem :
    (now : Timeval) (sock : Sock) (ps : List Packet)
    → IsOrdered (record sock.xmit_queue { packets = ps })
    → StepSent (with_packets sock ps) (send_queued now (with_packets sock ps))
unfolding send_queued
send_queued_lem now sock [] o = record {
  result = some 0;
  after = with_packets sock [];
  returns = refl;
  flushed = record { ordered = o; same_stream = refl; same_eof = refl; fewer = omega arith };
  progress = λ h. absurd (omega arith);
}
send_queued_lem now sock (pkt ∷ rest) o =
    let h : HeadSent sock pkt rest _ =
      sent_head_lem sock pkt rest _ _ _
        (record { numbered = o.numbered; counted = o.counted; narrow = o.narrow })
        (write_lem now (with_packets sock (pkt ∷ rest)) (o.numbered.1)) in
    record {
      result = h.result;
      after = h.after;
      returns = h.returns;
      flushed = h.flushed;
      progress = λ p. h.progress;
    }

-- A pass over the queue ends, and what it sends is flushed in the order of the queue.
pub send_queued-Flushed :
    (now : Timeval) (sock : Sock)
    → IsOrdered sock.xmit_queue
    → (r : Option ℕ) × (sock' : Sock) × (send_queued now sock ≡ some (r, sock'))
      × Flushed sock r sock'
send_queued-Flushed now sock o =
    let s : StepSent sock (send_queued now sock) =
      send_queued_lem now sock sock.xmit_queue.packets o in
    (s.result, s.after, s.returns, s.flushed)

Flushed-trans : {a b c : Sock} {r r' : Option ℕ} → Flushed a r b → Flushed b r' c → Flushed a r' c
Flushed-trans f g = record {
  ordered = g.ordered;
  same_stream = g.same_stream ∙ f.same_stream;
  same_eof = g.same_eof ∙ f.same_eof;
  fewer = omega (arith, f.fewer, g.fewer);
}

-- A flush that ends: it has failed, or nothing is left in the queue.
pub record FlushEnd (sock : Sock) (o : Option (Option ℕ × Sock)) : Type 0 where
  pub result : Option ℕ
  pub after : Sock
  pub returns : o ≡ some (result, after)
  pub flushed : Flushed sock result after
  pub empty : (m : ℕ) → result ≡ some m → after.xmit_queue.packets ≡ []

abbrev Flushes : ℕ → Timeval → Type 0
Flushes f now =
    (n : ℕ) (sock : Sock)
    → IsOrdered sock.xmit_queue
    → work sock < f
    → FlushEnd sock (flush_loop f now n sock)

flush_step :
    (f : ℕ) (now : Timeval) (n : ℕ) (sock : Sock) (ps : List Packet)
    → Flushes f now
    → IsOrdered (record sock.xmit_queue { packets = ps })
    → work (with_packets sock ps) < suc f
    → FlushEnd (with_packets sock ps) (flush_loop (suc f) now n (with_packets sock ps))
unfolding flush_loop
flush_step f now n sock [] rec o h = record {
  result = some n;
  after = with_packets sock [];
  returns = refl;
  flushed = record { ordered = o; same_stream = refl; same_eof = refl; fewer = omega arith };
  empty = λ m e. refl;
}
flush_step f now n sock (pkt ∷ rest) rec o h = go s.result refl
  where
    s : StepSent (with_packets sock (pkt ∷ rest)) (send_queued now (with_packets sock (pkt ∷ rest)))
    s = send_queued_lem now sock (pkt ∷ rest) o

    go :
        (r : Option ℕ)
        → s.result ≡ r
        → FlushEnd
            (with_packets sock (pkt ∷ rest))
            (flush_loop (suc f) now n (with_packets sock (pkt ∷ rest)))
    go none e = record {
      result = none;
      after = s.after;
      returns = rw (s.returns ∙ ap (λ r. some (r, s.after)) e, flush_loop) refl;
      flushed = subst (λ r. Flushed (with_packets sock (pkt ∷ rest)) r s.after) e s.flushed;
      empty = λ m q. absurd (cc q);
    }
    go (some m) e =
        let ended : FlushEnd s.after (flush_loop f now m s.after) =
          rec m s.after s.flushed.ordered (omega (arith, s.progress (omega arith) m e)) in
        record {
          result = ended.result;
          after = ended.after;
          returns = rw (s.returns ∙ ap (λ r. some (r, s.after)) e, flush_loop) ended.returns;
          flushed = Flushed-trans s.flushed ended.flushed;
          empty = ended.empty;
        }

flush_loop_lem : (f : ℕ) (now : Timeval) → Flushes f now
flush_loop_lem zero now n sock o h = absurd (omega arith)
flush_loop_lem (suc f) now n sock o h =
    flush_step f now n sock sock.xmit_queue.packets (flush_loop_lem f now) o h

-- The flush of an ordered queue ends for every sequence of results of the kernel, fails no
-- assertion and keeps the stream; where the result is not -1 the queue is empty.
pub flush_loop-FlushEnd :
    (now : Timeval) (n : ℕ) (sock : Sock)
    → IsOrdered sock.xmit_queue
    → FlushEnd sock (flush_loop (flush_fuel sock) now n sock)
flush_loop-FlushEnd now n sock o = flush_loop_lem (flush_fuel sock) now n sock o (omega arith)
