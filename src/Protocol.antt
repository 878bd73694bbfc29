-- ===== src/Protocol.antt =====
-- library/protocol.h and the header part of library/protocol.c: the packet types, the eight bytes
-- of a packet's header, and how a header is put in front of a payload.
pub mod Build
pub mod Dissect
pub mod Encode
pub mod Decode
pub mod Frame
pub mod Framing
pub mod RoundTrip
pub mod Transfer
pub mod Variables
pub mod Command
pub mod Data
mod Tests
use twopence.Prelude.{
  ℕ, ◌+◌, ◌*◌, ◌/◌, ◌%◌, Bool, true, false, Option, none, some, List, [], ◌∷◌, ◌++◌, get_or, blit,
  ltb, ◌==◌, if◌then◌else◌,
}
use twopence.Buffer.{Buf, new, count}

-- `twopence_protocol_state_t`: two uint16_t, the client's id and the transaction's.
pub record State : Type 0 where
  pub cid : ℕ
  pub xid : ℕ

-- `struct header`, in host byte order.
pub record Header : Type 0 where
  pub type : ℕ
  pub pad : ℕ
  pub cid : ℕ
  pub xid : ℕ
  pub len : ℕ

abbrev pub header_size : ℕ
header_size = 8

abbrev pub max_packet : ℕ
max_packet = 32768

abbrev pub vers_major : ℕ
vers_major = 3

abbrev pub vers_minor : ℕ
vers_minor = 0

abbrev pub type_hello : ℕ
type_hello = b'h'

abbrev pub type_inject : ℕ
type_inject = b'i'

abbrev pub type_extract : ℕ
type_extract = b'e'

abbrev pub type_command : ℕ
type_command = b'c'

abbrev pub type_quit : ℕ
type_quit = b'q'

abbrev pub type_chan_data : ℕ
type_chan_data = b'D'

abbrev pub type_chan_eof : ℕ
type_chan_eof = b'E'

abbrev pub type_intr : ℕ
type_intr = b'I'

abbrev pub type_major : ℕ
type_major = b'M'

abbrev pub type_minor : ℕ
type_minor = b'm'

abbrev pub type_timeout : ℕ
type_timeout = b'T'

abbrev pub type_keepalive : ℕ
type_keepalive = b'K'

-- The two bytes of `htons(w)` in memory, for a `w` that is cut to 16 bits, and the four of `htonl(w)`.
abbrev pub be16 : ℕ → List ℕ
be16 w = (w / 256 % 256) ∷ (w % 256) ∷ []

abbrev pub be32 : ℕ → List ℕ
be32 w = (w / 16777216 % 256) ∷ (w / 65536 % 256) ∷ (w / 256 % 256) ∷ (w % 256) ∷ []

-- `ntohs` and `ntohl` of the bytes at index `i`.
abbrev pub word16 : List ℕ → ℕ → ℕ
word16 mem i = get_or mem i 0 * 256 + get_or mem (i + 1) 0

abbrev pub word32 : List ℕ → ℕ → ℕ
word32 mem i = word16 mem i * 65536 + word16 mem (i + 2)

-- The bytes of a header.
abbrev pub header_bytes : ℕ → ℕ → ℕ → ℕ → List ℕ
header_bytes type cid xid len = type ∷ 0 ∷ be16 cid ++ (be16 xid ++ be16 len)

-- The header that stands at a pointer.
abbrev pub header_at : List ℕ → Header
header_at mem = record {
  type = get_or mem 0 0;
  pad = get_or mem 1 0;
  cid = word16 mem 2;
  xid = word16 mem 4;
  len = word16 mem 6;
}

-- `__twopence_protocol_build_header`: none is its assertion.
unfoldable pub fill_header : Buf → ℕ → ℕ → ℕ → Option Buf
unfolding count
fill_header bp type cid xid =
    let len = count bp in
    if ltb len 65536
    then some (record bp { base = blit bp.base bp.head (header_bytes type cid xid len) })
    else none

-- `twopence_protocol_build_header`
unfoldable pub build_header : Buf → ℕ → Option Buf
unfolding fill_header
build_header bp type = fill_header bp type 0 0

-- `__twopence_protocol_push_header`: none is its assertion that the space of a header is reserved.
unfoldable pub raise_header : Buf → ℕ → ℕ → ℕ → Option Buf
unfolding fill_header
raise_header bp type cid xid =
    if bp.head == header_size then fill_header (record bp { head = 0 }) type cid xid else none

-- `twopence_protocol_push_header`
unfoldable pub push_header : Buf → ℕ → Option Buf
unfolding raise_header
push_header bp type = raise_header bp type 0 0

-- `twopence_protocol_push_header_ps`
unfoldable pub push_header_ps : Buf → State → ℕ → Option Buf
unfolding raise_header
push_header_ps bp ps type = raise_header bp type ps.cid ps.xid

-- `twopence_protocol_command_buffer_new`
unfoldable pub command_buffer_new : Buf
unfolding new
command_buffer_new = record (new max_packet) { head = header_size; tail = header_size }

-- `twopence_protocol_recv_buffer_new`
unfoldable pub recv_buffer_new : Buf
unfolding new
recv_buffer_new = new max_packet

-- `twopence_protocol_packet_type_to_string`, with the text of the default case from the caller.
unfoldable pub type_name : (ℕ → List ℕ) → ℕ → List ℕ
type_name other t =
    if t == type_hello
    then b'h' ∷ b'e' ∷ b'l' ∷ b'l' ∷ b'o' ∷ []
    else if t == type_inject
    then b'i' ∷ b'n' ∷ b'j' ∷ b'e' ∷ b'c' ∷ b't' ∷ []
    else if t == type_extract
    then b'e' ∷ b'x' ∷ b't' ∷ b'r' ∷ b'a' ∷ b'c' ∷ b't' ∷ []
    else if t == type_command
    then b'c' ∷ b'o' ∷ b'm' ∷ b'm' ∷ b'a' ∷ b'n' ∷ b'd' ∷ []
    else if t == type_quit
    then b'q' ∷ b'u' ∷ b'i' ∷ b't' ∷ []
    else if t == type_chan_data
    then b'd' ∷ b'a' ∷ b't' ∷ b'a' ∷ []
    else if t == type_chan_eof
    then b'e' ∷ b'o' ∷ b'f' ∷ []
    else if t == type_intr
    then b'i' ∷ b'n' ∷ b't' ∷ b'r' ∷ []
    else if t == type_major
    then b'm' ∷ b'a' ∷ b'j' ∷ b'o' ∷ b'r' ∷ []
    else if t == type_minor
    then b'm' ∷ b'i' ∷ b'n' ∷ b'o' ∷ b'r' ∷ []
    else if t == type_timeout
    then b't' ∷ b'i' ∷ b'm' ∷ b'e' ∷ b'o' ∷ b'u' ∷ b't' ∷ []
    else if t == type_keepalive
    then b'k' ∷ b'e' ∷ b'e' ∷ b'p' ∷ b'a' ∷ b'l' ∷ b'i' ∷ b'v' ∷ b'e' ∷ []
    else other t
