-- ===== src/Socket/Received.antt =====
-- What a read of library/socket.c adds to the receive buffer.
use twopence.Prelude.{
  ℕ, ◌+◌, ◌-◌, ◌≤◌, ◌≡◌, refl, sym, ap, ◌∙◌, subst, Bool, true, false, not, ◌&&◌, ◌||◌, Option,
  none, some, List, [], ◌++◌, length, take, ◌==◌, if◌then◌else◌, append-nil, length-take, blit,
  length-blit, arith, Bool-cases, inl, inr,
}
use twopence.Buffer.{Buf, tailroom, advance_tail}
use twopence.Buffer.Bounds.{IsValid, tailroom_lem}
use twopence.Buffer.Contents.{contents, slice-blit_end}
use twopence.Socket.{Sock}
use twopence.Socket.Doio.{Revents, recv_buffer, read_result, doio_read}

-- The buffer after a read of `d`.
unfoldable pub filled : Buf → List ℕ → Buf
filled bp d = record bp { base = blit bp.base bp.tail d; tail = bp.tail + length d }

pub filled-IsValid :
    {bp : Buf} (d : List ℕ) → IsValid bp → bp.tail + length d ≤ bp.size → IsValid (filled bp d)
unfolding filled
filled-IsValid {bp} d v h = omega (arith, length-blit bp.base bp.tail d)

pub filled-contents :
    {bp : Buf} (d : List ℕ)
    → IsValid bp
    → bp.tail + length d ≤ bp.size
    → contents (filled bp d) ≡ contents bp ++ d
unfolding filled
filled-contents {bp} d v h =
    slice-blit_end bp.base bp.head bp.tail (bp.tail + length d - bp.head) d (omega arith)
      (omega arith) (omega arith)

-- A buffer that has `more` behind what it had.
pub record Longer (bp : Buf) (bp' : Buf) : Type 0 where
  pub more : List ℕ
  pub valid : IsValid bp'
  pub behind : contents bp' ≡ contents bp ++ more

pub Longer-same : {bp : Buf} → IsValid bp → Longer bp bp
Longer-same {bp} v = record { more = []; valid = v; behind = sym (append-nil (contents bp)) }

recv_some :
    {bp : Buf} (d : List ℕ)
    → IsValid bp
    → (tailroom bp == 0) ≡ false
    → (recv_buffer bp (some d)).1 ≡ filled bp (take (tailroom bp) d)
unfolding recv_buffer filled advance_tail
recv_some {bp} d v h = ground (arith, h, tailroom_lem v, length-take (tailroom bp) d)

recv_buffer-Longer :
    {bp : Buf} (arrived : Option (List ℕ))
    → IsValid bp
    → (tailroom bp == 0) ≡ false
    → Longer bp (recv_buffer bp arrived).1
unfolding recv_buffer
recv_buffer-Longer none v h = Longer-same v
recv_buffer-Longer {bp} (some d) v h =
    let fits : bp.tail + length (take (tailroom bp) d) ≤ bp.size =
      omega (arith, tailroom_lem v, length-take (tailroom bp) d, v.roomy) in
    subst (Longer bp) (sym (recv_some d v h)) (record {
      more = take (tailroom bp) d;
      valid = filled-IsValid (take (tailroom bp) d) v fits;
      behind = filled-contents (take (tailroom bp) d) v fits;
    })

-- The socket with this buffer, and with or without the end of its data.
abbrev pub sock_with : Sock → Bool → Buf → Sock
sock_with sock eof bp = record sock { recv_buf = some bp; read_eof = eof }

read_result-with :
    (sock : Sock) (eof : Bool) (bp : Buf) (hup : Bool) (r : Option ℕ × Buf)
    → (ok : Bool) × (eof' : Bool) × (read_result (sock_with sock eof bp) hup r
        ≡ (ok, sock_with sock eof' r.1))
read_result-with sock eof bp true (none, bp') = (_, _, refl)
read_result-with sock eof bp false (none, bp') = (_, _, refl)
read_result-with sock eof bp hup (some n, bp') = (_, _, refl)

-- Whatever poll reports and arrives, a socket that has a buffer keeps it, with more behind.
pub doio_read-Longer :
    (sock : Sock) (eof : Bool) (bp : Buf) (revents : Revents) (arrived : Option (List ℕ))
    → IsValid bp
    → (ok : Bool) × (eof' : Bool) × (bp' : Buf) × (doio_read (sock_with sock eof bp) revents arrived
        ≡ (ok, sock_with sock eof' bp'))
      × Longer bp bp'
unfolding doio_read
doio_read-Longer sock eof bp revents arrived v =
    elim (Bool-cases ((revents.pollin || revents.pollhup) && not (tailroom bp == 0))) [
      | inl e ↦
          let room : (tailroom bp == 0) ≡ false =
            not_full (revents.pollin || revents.pollhup) (tailroom bp == 0) e in
          let (ok, eof', done) =
            read_result-with sock eof bp revents.pollhup (recv_buffer bp arrived) in
          (
            ok,
            eof',
            (recv_buffer bp arrived).1,
            ap
                  (λ b.
                    if b
                    then read_result (sock_with sock eof bp) revents.pollhup
                        (recv_buffer bp arrived)
                    else (true, sock_with sock eof bp))
                  e
                ∙ done,
            recv_buffer-Longer arrived v room,
          )
      | inr e ↦ (
        true,
        eof,
        bp,
        ap
            (λ b.
              if b
              then read_result (sock_with sock eof bp) revents.pollhup (recv_buffer bp arrived)
              else (true, sock_with sock eof bp))
            e,
        Longer-same v,
      )
    ]
  where
    not_full : (a full : Bool) → (a && not full) ≡ true → full ≡ false
    not_full a false e = refl
    not_full true true e = absurd (cc e)
    not_full false true e = absurd (cc e)
