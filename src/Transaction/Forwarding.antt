-- ===== src/Transaction/Forwarding.antt =====
-- How library/transaction.c forwards a local source: the bytes of the stream go out in data packets, in
-- order, until the stream ends or the transport's queue is full.
use twopence.Prelude.{
  ℕ, zero, suc, ◌+◌, ◌-◌, ◌≤◌, ◌<◌, ◌≡◌, refl, sym, ap, ap₂, ◌∙◌, subst, Bool, true, false, not,
  ◌&&◌, ◌⊎◌, inl, inr, Option, some, List, [], ◌∷◌, ◌++◌, length, length-append, append_assoc,
  append-nil, arith, Bool-cases,
}
use twopence.Buffer.{tailroom}
use twopence.Buffer.Bounds.{tailroom_lem}
use twopence.Timeout.{Timeval}
use twopence.Iostream
use twopence.Iostream.{Iostream}
use twopence.Iostream.Parts.{Substream}
use twopence.Iostream.ReadAll.{pending}
use twopence.Iostream.Reading.{AllSources, AllClosed, Reads, at_end, brings, read-Reads}
use twopence.Socket.{Sock, xmit_queue_allowed}
use twopence.Socket.Stream.{stream}
use twopence.Protocol.{header_size, max_packet}
use twopence.Transaction.{send_client}
use twopence.Transaction.Forward.{
  Work, ReadEof, data_packet, forward_buffer, forward_loop, forward_end, forward, forward_from,
}
use twopence.Transaction.Piece.{CanTake, send_piece}
use twopence.Transaction.Framed.{AllShort, data_frame, frames, flat, forward_buffer-IsRoomy}

-- No piece is empty.
abbrev pub AllFull : List (List ℕ) → Type 0
AllFull [] = Unit {0}
AllFull (d ∷ ds) = (0 < length d) × AllFull ds

pub AllFull-length : (ds : List (List ℕ)) → AllFull ds → length ds ≤ length (flat ds)
AllFull-length [] a = omega arith
AllFull-length (d ∷ ds) a = omega (arith, a.0, AllFull-length ds (a.1), length-append d (flat ds))

-- What the loop has done before it ends as `forward_end` does: the pieces that have been sent.
pub record Sends (callback : ReadEof) (w : Work) (source : Iostream) (o : Option Work)
    : Type 0 where
  pub transport : Sock
  pub left : Iostream
  pub pieces : List (List ℕ)
  pub done : o ≡ forward_end callback (record w { transport = transport }) left
  pub sent : stream transport ≡ stream w.transport ++ frames w.trans.ps w.channel.id pieces
  pub kept : pending source.substreams ≡ flat pieces ++ pending left.substreams
  pub ended : left.eof ≡ true → pending left.substreams ≡ []
  pub short : AllShort pieces
  pub full : AllFull pieces
  pub why : (left.eof ≡ true) ⊎ (left.substreams ≡ []) ⊎ (xmit_queue_allowed transport ≡ false)
  pub can_take : CanTake transport

-- One more piece in front.
Sends-cons :
    {callback : ReadEof} {w : Work} {source next : Iostream} {o : Option Work} (d : List ℕ)
    (sock : Sock)
    → pending source.substreams ≡ d ++ pending next.substreams
    → stream sock ≡ stream w.transport ++ data_frame w.trans.ps w.channel.id d
    → header_size + 2 + length d < 65536
    → 0 < length d
    → Sends callback (record w { transport = sock }) next o
    → Sends callback w source o
Sends-cons {w = w} d sock p e l n s = record {
  transport = s.transport;
  left = s.left;
  pieces = d ∷ s.pieces;
  done = s.done;
  sent =
      s.sent
      ∙ ap (λ l. l ++ frames w.trans.ps w.channel.id s.pieces) e
      ∙ append_assoc (stream w.transport) (data_frame w.trans.ps w.channel.id d)
          (frames w.trans.ps w.channel.id s.pieces);
  kept = p ∙ ap (◌++◌ d) s.kept ∙ sym (append_assoc d (flat s.pieces) (pending s.left.substreams));
  ended = s.ended;
  short = (l, s.short);
  full = (n, s.full);
  why = s.why;
  can_take = s.can_take;
}

room_lem : tailroom forward_buffer ≡ max_packet - (header_size + 2)
room_lem = omega (
  arith,
  tailroom_lem (forward_buffer-IsRoomy.valid),
  forward_buffer-IsRoomy.tail,
  forward_buffer-IsRoomy.size,
)

AllClosed-pending : (subs : List Substream) → AllClosed subs → pending subs ≡ []
AllClosed-pending [] c = refl
AllClosed-pending (sub ∷ rest) c = rw (c.0) (AllClosed-pending rest c.1)

goes_on :
    (w : Work) (source : Iostream)
    → xmit_queue_allowed w.transport ≡ true
    → source.eof ≡ false
    → not (xmit_queue_allowed w.transport && not source.eof) ≡ false
goes_on w source a o = ground (arith, a, o)

no_substreams :
    (source left : Iostream)
    → source.substreams ≡ []
    → length left.substreams ≡ length source.substreams
    → left.substreams ≡ []
no_substreams source left e n = nil_of left.substreams (n ∙ ap length e)
  where
    nil_of : (subs : List Substream) → length subs ≡ 0 → subs ≡ []
    nil_of [] z = refl
    nil_of (sub ∷ rest) z = absurd (omega arith)

forward-eq :
    (now : Timeval) (callback : ReadEof) (again : Bool) (w : Work) (source : Iostream)
    → w.channel.stream ≡ some source
    → w.channel.plugged ≡ false
    → forward now callback again w
      ≡ forward_loop (suc (length (pending source.substreams))) now callback again w source
unfolding forward
forward-eq now callback again w source has plugged =
    ap₂ (forward_from now callback again w) has plugged

-- A round that goes on: what the read brings decides how.
round_end :
    (f : ℕ) (now : Timeval) (callback : ReadEof) (again : Bool) (w : Work) (source left : Iostream)
    → not (xmit_queue_allowed w.transport && not source.eof) ≡ false
    → Iostream.read source (tailroom forward_buffer) ≡ (some [], left)
    → forward_loop (suc f) now callback again w source ≡ forward_end callback w left
unfolding forward_loop
round_end f now callback again w source left t e =
    rw (t, forward_loop) (rw (ap (λ x. x.0) e) (rw (ap (λ x. x.1) e) refl))

round_next :
    (f : ℕ) (now : Timeval) (callback : ReadEof) (again : Bool) (w : Work) (source left : Iostream)
    (c : ℕ) (cs : List ℕ) (sock : Sock)
    → not (xmit_queue_allowed w.transport && not source.eof) ≡ false
    → Iostream.read source (tailroom forward_buffer) ≡ (some (c ∷ cs), left)
    → send_client now w.transport (data_packet forward_buffer (c ∷ cs) w.trans.ps w.channel.id)
      ≡ some sock
    → forward_loop (suc f) now callback again w source
      ≡ forward_loop f now callback again (record w { transport = sock }) left
unfolding forward_loop
round_next f now callback again w source left c cs sock t e sent =
    rw (t, forward_loop) (rw (ap (λ x. x.0) e) (rw sent (rw (ap (λ x. x.1) e) refl)))

-- What the rest of the loop does, from any state on.
abbrev Onward : ℕ → Timeval → ReadEof → Bool → Type 0
Onward f now callback again =
    (w : Work) (source : Iostream)
    → source.eof ≡ false
    → AllSources source.substreams
    → length (pending source.substreams) < f
    → CanTake w.transport
    → Sends callback w source (forward_loop f now callback again w source)

round_lem :
    (f : ℕ) (now : Timeval) (callback : ReadEof) (again : Bool) (w : Work) (source : Iostream)
    (r : Option (List ℕ) × Iostream)
    → source.eof ≡ false
    → length (pending source.substreams) < suc f
    → CanTake w.transport
    → xmit_queue_allowed w.transport ≡ true
    → Iostream.read source (tailroom forward_buffer) ≡ r
    → Reads source (tailroom forward_buffer) r
    → Onward f now callback again
    → Sends callback w source (forward_loop (suc f) now callback again w source)
round_lem f now callback again w source r o enough c a e (at_end left p m q n) onward =
    let none_left : pending left.substreams ≡ [] = AllClosed-pending left.substreams q in
    record {
      transport = w.transport;
      left = left;
      pieces = [];
      done = round_end f now callback again w source left (goes_on w source a o) e;
      sent = sym (append-nil (stream w.transport));
      kept = p ∙ sym none_left;
      ended = λ h. none_left;
      short = tt;
      full = tt;
      why = elim m [ inl h ↦ inl h | inr h ↦ inr (inl (no_substreams source left h n)) ];
      can_take = c;
    }
round_lem f now callback again w source r o enough c a e (brings x xs left p s o' n l) onward =
    let small : length (x ∷ xs) ≤ max_packet - (header_size + 2) = omega (arith, room_lem) in
    let (sock, sent, c', bytes) =
      send_piece now w.transport (x ∷ xs) w.trans.ps w.channel.id forward_buffer-IsRoomy small c
        a in
    let len : length (pending source.substreams)
        ≡ length (x ∷ xs) + length (pending left.substreams) =
      ap length p ∙ length-append (x ∷ xs) (pending left.substreams) in
    let rest : Sends callback (record w { transport = sock }) left _ =
      onward (record w { transport = sock }) left o' s (omega (arith, len)) c' in
    subst (Sends callback w source)
      (sym (round_next f now callback again w source left x xs sock (goes_on w source a o) e sent))
      (Sends-cons (x ∷ xs) sock p bytes (omega arith) (omega arith) rest)

forward_loop-Sends :
    (f : ℕ) (now : Timeval) (callback : ReadEof) (again : Bool) → Onward f now callback again
unfolding forward_loop
forward_loop-Sends zero now callback again w source o s enough c = absurd (omega arith)
forward_loop-Sends (suc f) now callback again w source o s enough c =
    elim (Bool-cases (xmit_queue_allowed w.transport)) [
      | inl a ↦
          round_lem f now callback again w source _ o enough c a refl
            (read-Reads source (tailroom forward_buffer) o s (omega (arith, room_lem)))
            (forward_loop-Sends f now callback again)
      | inr full ↦ rw full (record {
        transport = w.transport;
        left = source;
        pieces = [];
        done = refl;
        sent = sym (append-nil (stream w.transport));
        kept = refl;
        ended = λ e. absurd (cc (o, e));
        short = tt;
        full = tt;
        why = inr (inr full);
        can_take = c;
      })
    ]

-- Forwarding a source whose channel is not plugged, on an open transport with an ordered queue
-- whose limit is at most 2^31 bytes, from a stream not at its end whose substreams can be read
-- without an error, ends as the end of the loop does: data packets have been put on the transport,
-- each with a piece of at least one byte that leaves the packet below 2^16, and the pieces and
-- what is left in the source are the bytes that it had. It stops only where the source is at its
-- end, where the source has no substreams, or where the queue is full; a source at its end has
-- nothing left.
pub forward-Sends :
    (now : Timeval) (callback : ReadEof) (again : Bool) (w : Work) (source : Iostream)
    → w.channel.stream ≡ some source
    → w.channel.plugged ≡ false
    → source.eof ≡ false
    → AllSources source.substreams
    → CanTake w.transport
    → Sends callback w source (forward now callback again w)
unfolding forward
forward-Sends now callback again w source has plugged o s c =
    let r =
      forward_loop-Sends (suc (length (pending source.substreams))) now callback again w source o s
        (omega arith) c in
    subst (Sends callback w source) (sym (forward-eq now callback again w source has plugged)) r
