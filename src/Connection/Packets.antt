-- ===== src/Connection/Packets.antt =====
-- The loop of `twopence_conn_process_packet` in library/connection.c: it ends, and takes every complete
-- packet out of the buffer.
use twopence.Prelude.{
  ℕ, zero, suc, ◌+◌, ◌-◌, ◌≤◌, ◌<◌, ◌≡◌, refl, sym, ap, ◌∙◌, subst, true, false, ◌⊎◌, inl, inr,
  none, some, arith, Bool-cases, Option-cases,
}
use twopence.Buffer.{Buf, count, pull}
use twopence.Buffer.Bounds.{IsReadable, count_lem}
use twopence.Timeout.{Timeval}
use twopence.Protocol.{State, Header}
use twopence.Protocol.Dissect.{dissect, dissect_ps, buffer_complete}
use twopence.Protocol.Framing.{is_some, buffer_complete-dissect}
use twopence.Connection.{
  Conn, Handlers, process_one, Outcome, abort, returned, process_loop, process_packet,
}

dissect-IsReadable : {bp : Buf} → IsReadable bp → IsReadable (dissect bp).1
unfolding dissect pull
dissect-IsReadable {bp} v = ground (arith, count_lem v)

dissect-shorter :
    {bp : Buf}
    → IsReadable bp
    → is_some (dissect bp).0 ≡ true
    → (dissect bp).1.tail - (dissect bp).1.head + 8 ≤ bp.tail - bp.head
unfolding dissect pull
dissect-shorter {bp} v e = ground (arith, count_lem v)

-- `dissect_ps` of a complete packet.
dissect_ps_lem :
    (bp : Buf)
    → is_some (dissect bp).0 ≡ true
    → (hdr : Header) × (payload : Buf) × (ps : State) × (dissect_ps bp
        ≡ (some (hdr, payload, ps), (dissect bp).1))
unfolding dissect_ps
dissect_ps_lem bp e = elim (Option-cases (dissect bp).0) [
  | inl n ↦ absurd (cc (e, ap is_some n))
  | inr ((hdr, payload), s) ↦
      (hdr, payload, record { cid = hdr.cid; xid = hdr.xid }, rw (s, dissect_ps) refl)
]

-- A callee has aborted, or the loop has returned true, and no complete packet is left.
abbrev pub Processed : Outcome → Type 0
Processed o =
    (o ≡ abort)
    ⊎ ((conn' : Conn) × (bp' : Buf) × (o ≡ returned true conn' bp')
        × IsReadable bp'
        × (buffer_complete bp' ≡ false))

-- The three ways of a round.
step_done :
    (f : ℕ) (now : Timeval) (h : Handlers) (conn : Conn) (bp : Buf)
    → buffer_complete bp ≡ false
    → process_loop (suc f) now h conn bp ≡ returned true conn bp
unfolding process_loop
step_done f now h conn bp e = rw e refl

step_abort :
    (f : ℕ) (now : Timeval) (h : Handlers) (conn : Conn) (bp : Buf) (hdr : Header) (payload : Buf)
    (ps : State)
    → buffer_complete bp ≡ true
    → dissect_ps bp ≡ (some (hdr, payload, ps), (dissect bp).1)
    → process_one now h conn hdr payload ps ≡ none
    → process_loop (suc f) now h conn bp ≡ abort
unfolding process_loop
step_abort f now h conn bp hdr payload ps e d n = rw e (rw d (rw n refl))

step_next :
    (f : ℕ) (now : Timeval) (h : Handlers) (conn conn' : Conn) (bp : Buf) (hdr : Header)
    (payload : Buf) (ps : State)
    → buffer_complete bp ≡ true
    → dissect_ps bp ≡ (some (hdr, payload, ps), (dissect bp).1)
    → process_one now h conn hdr payload ps ≡ some conn'
    → process_loop (suc f) now h conn bp ≡ process_loop f now h conn' (dissect bp).1
unfolding process_loop
step_next f now h conn conn' bp hdr payload ps e d s =
    rw e (rw d (rw s (ap (λ r. process_loop f now h conn' r.1) d)))

process_loop_lem :
    (f : ℕ) (now : Timeval) (h : Handlers) (conn : Conn) {bp : Buf}
    → IsReadable bp
    → bp.tail - bp.head < f
    → Processed (process_loop f now h conn bp)
process_loop_lem zero now h conn v lt = absurd (omega arith)
process_loop_lem (suc f) now h conn {bp} v lt = elim (Bool-cases (buffer_complete bp)) [
  | inl e ↦
      let some_packet : is_some (dissect bp).0 ≡ true = sym (buffer_complete-dissect v) ∙ e in
      let (hdr, payload, ps, d) = dissect_ps_lem bp some_packet in
      elim (Option-cases (process_one now h conn hdr payload ps)) [
        | inl n ↦ inl (step_abort f now h conn bp hdr payload ps e d n)
        | inr (conn', s) ↦
            subst Processed (sym (step_next f now h conn conn' bp hdr payload ps e d s)) (
              process_loop_lem f now h conn' (dissect-IsReadable v)
                (omega (arith, dissect-shorter v some_packet)))
      ]
  | inr e ↦ inr (conn, bp, step_done f now h conn bp e, v, e)
]

-- Processing the packets of a readable buffer ends: either a callee aborts, or the result is true,
-- what is left of the buffer is readable, and it holds no complete packet.
pub process_packet-Processed :
    (now : Timeval) (h : Handlers) (conn : Conn) (bp : Buf)
    → IsReadable bp
    → Processed (process_packet now h conn bp)
unfolding process_packet
process_packet-Processed now h conn bp v =
    process_loop_lem (suc (count bp)) now h conn v (omega (arith, count_lem v))
