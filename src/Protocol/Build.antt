-- ===== src/Protocol/Build.antt =====
-- The packet builders of library/protocol.c.
use twopence.Prelude.{
  ℕ, ◌+◌, Bool, true, false, Option, none, some, List, [], ◌∷◌, blit, ◌==◌, if◌then◌else◌, sub_u32,
}
use twopence.Buffer.{Buf, append, puts}
use twopence.Env.{Env}
use twopence.Protocol.{
  State, be16, be32, vers_major, vers_minor, type_hello, type_inject, type_extract, type_command,
  type_chan_data, type_chan_eof, type_major, type_minor, raise_header, push_header, push_header_ps,
  command_buffer_new, header_size,
}

-- What a builder returns: a packet, the NULL pointer, or a failed assertion.
pub data Built : Type 0 where
  packet : Buf → Built
  null aborted : Built

-- A C string, or NULL.
abbrev pub Text : Type 0
Text = Option (List ℕ)

-- What a command packet and a transfer packet carry: of `twopence_command_t` the fields that are
-- sent, of `twopence_file_xfer_t` the user and the remote file.
pub record Command : Type 0 where
  pub user : Text
  pub command : Text
  pub timeout : ℕ
  pub request_tty : Bool
  pub env : Env

pub record Transfer : Type 0 where
  pub user : Text
  pub name : Text
  pub mode : ℕ

infixl 5 ◌>>=◌
abbrev pub ◌>>=◌ : Option Buf → (Buf → Option Buf) → Option Buf
none >>= f = none
some bp >>= f = f bp

-- One step of a chain of encoders, `!encode(...) || ...`.
abbrev pub check : Bool × Buf → Option Buf
check (true, bp) = some bp
check (false, bp) = none

unfoldable pub encode_u16 : Buf → ℕ → Bool × Buf
encode_u16 bp word = append bp (be16 word) 2

unfoldable pub encode_u32 : Buf → ℕ → Bool × Buf
encode_u32 bp word = append bp (be32 word) 4

unfoldable pub encode_string : Buf → Text → Bool × Buf
encode_string bp none = (false, bp)
encode_string bp (some s) = puts bp (some s)

-- After a failed encoder the buffer is freed and NULL returned; else the header is pushed.
unfoldable pub finish : Option Buf → State → ℕ → Built
finish none ps type = null
finish (some bp) ps type = elim (push_header_ps bp ps type) [ none ↦ aborted | some p ↦ packet p ]

abbrev pub made : Option Buf → Built
made none = aborted
made (some bp) = packet bp

-- `twopence_protocol_build_simple_packet_ps`: without a state the ids are 0.
unfoldable pub build_simple_packet : Option State → ℕ → Built
unfolding push_header push_header_ps
build_simple_packet none type = made (push_header command_buffer_new type)
build_simple_packet (some ps) type = made (push_header_ps command_buffer_new ps type)

-- `twopence_protocol_build_data_header`
unfoldable pub build_data_header : Buf → State → ℕ → Built
unfolding push_header_ps
build_data_header bp ps channel =
    let h = sub_u32 bp.head 2 in
    let bp' = record bp { head = h; base = blit bp.base h (be16 channel) } in
    if bp.head == header_size + 2 then made (push_header_ps bp' ps type_chan_data) else aborted

-- `twopence_protocol_build_uint32_packet`
unfoldable pub build_uint32_packet : State → ℕ → ℕ → Built
build_uint32_packet ps type word = finish (check (encode_u32 command_buffer_new word)) ps type

-- The status is an int; here its 32 bits.
unfoldable pub build_major_packet : State → ℕ → Built
build_major_packet ps status = build_uint32_packet ps type_major status

unfoldable pub build_minor_packet : State → ℕ → Built
build_minor_packet ps status = build_uint32_packet ps type_minor status

-- `twopence_protocol_build_eof_packet` does not look at the encoder's result.
unfoldable pub build_eof_packet : State → ℕ → Built
unfolding push_header_ps
build_eof_packet ps channel =
    made (push_header_ps (encode_u16 command_buffer_new channel).1 ps type_chan_eof)

-- `twopence_protocol_build_hello_packet`
unfoldable pub build_hello_packet : ℕ → ℕ → Built
unfolding raise_header
build_hello_packet cid keepalive = made (
    raise_header (append command_buffer_new (vers_major ∷ vers_minor ∷ be16 keepalive) 4).1
      type_hello cid 0)

-- `twopence_protocol_build_uint_packet` and its `_ps` form, with the text of `snprintf("%u")`.
unfoldable pub build_uint_packet : Option State → ℕ → List ℕ → Built
unfolding push_header push_header_ps
build_uint_packet none type digits =
    made (push_header (puts command_buffer_new (some digits)).1 type)
build_uint_packet (some ps) type digits =
    made (push_header_ps (puts command_buffer_new (some digits)).1 ps type)

unfoldable pub encode_transfer : Buf → Transfer → Option Buf
encode_transfer bp xfer = do
  bp1 ← check (encode_string bp xfer.user)
  bp2 ← check (encode_string bp1 xfer.name)
  check (encode_u32 bp2 xfer.mode)

unfoldable pub build_inject_packet : State → Transfer → Built
build_inject_packet ps xfer = finish (encode_transfer command_buffer_new xfer) ps type_inject

unfoldable pub encode_names : Buf → Transfer → Option Buf
encode_names bp xfer = do
  bp1 ← check (encode_string bp xfer.user)
  check (encode_string bp1 xfer.name)

unfoldable pub build_extract_packet : State → Transfer → Built
build_extract_packet ps xfer = finish (encode_names command_buffer_new xfer) ps type_extract

-- The loop over the environment.
unfoldable pub encode_env : Buf → Env → Option Buf
encode_env bp [] = some bp
encode_env bp (var ∷ env) = do bp' ← check (encode_string bp (some var)); encode_env bp' env

-- Two words are reserved for future extensions.
unfoldable pub encode_command : Buf → Command → Option Buf
encode_command bp cmd = do
  bp1 ← check (encode_string bp cmd.user)
  bp2 ← check (encode_string bp1 cmd.command)
  bp3 ← check (encode_u32 bp2 cmd.timeout)
  bp4 ← check (encode_u32 bp3 (if cmd.request_tty then 1 else 0))
  bp5 ← check (encode_u32 bp4 0)
  bp6 ← check (encode_u32 bp5 0)
  encode_env bp6 cmd.env

unfoldable pub build_command_packet : State → Command → Built
build_command_packet ps cmd = finish (encode_command command_buffer_new cmd) ps type_command
