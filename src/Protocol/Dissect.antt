-- ===== src/Protocol/Dissect.antt =====
-- How library/protocol.c takes packets apart.
use twopence.Prelude.{
  ℕ, zero, suc, ◌+◌, ◌-◌, Bool, false, not, Option, none, some, List, length, take, drop, get_or,
  ltb, ◌==◌, if◌then◌else◌,
}
use twopence.Buffer.{Buf, head_mem, init_static, count, pull, get, gets, advance_head}
use twopence.Env
use twopence.Env.{Env}
use twopence.Protocol.{State, Header, header_size, header_at, word16, word32}
use twopence.Protocol.Build.{Command, Transfer}

-- `twopence_protocol_buffer_need_to_recv`: none is -1.
unfoldable pub need_to_recv : Buf → Option ℕ
unfolding count
need_to_recv bp =
    let len = count bp in
    let total = word16 (head_mem bp) 6 in
    if ltb len header_size
    then some (header_size - len)
    else if ltb total header_size
    then none
    else if ltb len total
    then some (total - len)
    else some 0

-- `twopence_protocol_buffer_complete`
unfoldable pub buffer_complete : Buf → Bool
unfolding need_to_recv
buffer_complete bp = elim (need_to_recv bp) [ none ↦ false | some n ↦ n == 0 ]

-- `twopence_protocol_dissect`: the header and the payload, or NULL; the buffer behind it. The payload
-- lies in the memory of the buffer. (The assertion of `advance_head` is the test before it.)
unfoldable pub dissect_payload : Buf → Header → Option (Header × Buf) × Buf
unfolding count init_static advance_head
dissect_payload bp hdr =
    if ltb hdr.len header_size
    then (none, bp)
    else let len = hdr.len - header_size in
      if ltb (count bp) len then (none, bp) else elim (advance_head bp len) [
        | none ↦ (none, bp)
        | some bp' ↦ (some (hdr, init_static (head_mem bp) len), bp')
      ]

unfoldable pub dissect_from : Option (List ℕ) × Buf → Option (Header × Buf) × Buf
unfolding dissect_payload
dissect_from (none, bp) = (none, bp)
dissect_from (some mem, bp) = dissect_payload bp (header_at mem)

unfoldable pub dissect : Buf → Option (Header × Buf) × Buf
unfolding dissect_from
dissect bp = dissect_from (pull bp header_size)

-- `twopence_protocol_dissect_ps`
unfoldable pub dissect_ps : Buf → Option (Header × Buf × State) × Buf
unfolding dissect
dissect_ps bp =
    let (out, bp') = dissect bp in
    elim out [
      | none ↦ (none, bp')
      | some (hdr, payload) ↦ (some (hdr, payload, record { cid = hdr.cid; xid = hdr.xid }), bp')
    ]

-- A decoder returns what it read and the payload behind it; none is false or NULL, after which no
-- caller reads on.
abbrev pub Decoder : Type 0 → Type 0
Decoder A = Buf → Option (A × Buf)

infixl 5 ◌>>=◌
abbrev pub ◌>>=◌ : {A B : Type 0} → Decoder A → (A → Decoder B) → Decoder B
◌>>=◌ m f bp = elim (m bp) [ none ↦ none | some (a, bp') ↦ f a bp' ]

abbrev pub pure : {A : Type 0} → A → Decoder A
pure a bp = some (a, bp)

abbrev pub got : {A : Type 0} → (List ℕ → A) → Option (List ℕ) × Buf → Option (A × Buf)
got f (none, bp) = none
got f (some d, bp) = some (f d, bp)

unfoldable pub decode_u16 : Decoder ℕ
decode_u16 bp = got (λ d. word16 d 0) (get bp 2)

unfoldable pub decode_u32 : Decoder ℕ
decode_u32 bp = got (λ d. word32 d 0) (get bp 4)

unfoldable pub decode_string : Decoder (List ℕ)
decode_string bp = got (λ d. d) (gets bp)

-- `twopence_protocol_dissect_major_packet`, and the same for minor: the 32 bits of the status.
unfoldable pub dissect_status_packet : Decoder ℕ
dissect_status_packet = decode_u32

unfoldable pub dissect_eof_packet : Decoder ℕ
dissect_eof_packet = decode_u16

-- `twopence_protocol_dissect_hello_packet`: the two version bytes and the keepalive.
unfoldable pub dissect_hello_packet : Decoder (ℕ × ℕ × ℕ)
dissect_hello_packet bp = got (λ d. (get_or d 0 0, get_or d 1 0, word16 d 2)) (get bp 4)

unfoldable pub dissect_inject_packet : Transfer → Decoder Transfer
dissect_inject_packet xfer = do
  user ← decode_string
  file ← decode_string
  mode ← decode_u32
  pure (record xfer { user = some user; name = some file; mode = mode })

unfoldable pub dissect_extract_packet : Transfer → Decoder Transfer
dissect_extract_packet xfer = do
  user ← decode_string
  file ← decode_string
  pure (record xfer { user = some user; name = some file })

-- One variable of the environment: split at the first `=`, or ignored. (The code cuts the string by
-- a NUL in the payload; that byte is not read again.)
unfoldable pub accept_var : Env → List ℕ → Env
unfolding Env.name_length Env.set
accept_var env var =
    let n = Env.name_length var in
    if ltb n (length var) then Env.set env (take n var) (some (drop (n + 1) var)) else env

-- The loop over the rest of the payload, on fuel: a round takes a byte or more of the memory.
unfoldable pub read_env : ℕ → Buf → Env → Env
read_env zero bp env = env
read_env (suc f) bp env = elim (decode_string bp) [
  | none ↦ env
  | some (var, bp') ↦ read_env f bp' (accept_var env var)
]

unfoldable pub decode_command : Decoder (List ℕ × List ℕ × ℕ × ℕ)
decode_command = do
  user ← decode_string
  command ← decode_string
  timeout ← decode_u32
  request_tty ← decode_u32
  reserved ← decode_u32
  reserved' ← decode_u32
  pure (user, command, timeout, request_tty)

unfoldable pub dissect_command_packet : Command → Buf → Option Command
dissect_command_packet cmd bp = elim (decode_command bp) [
  | none ↦ none
  | some ((user, command, timeout, request_tty), bp') ↦ some (record {
    user = some user;
    command = some command;
    timeout = timeout;
    request_tty = not (request_tty == 0);
    env = read_env (suc (length (head_mem bp'))) bp' cmd.env;
  })
]
