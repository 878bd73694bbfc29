-- ===== src/Protocol/Tests.antt =====
-- The packets of library/protocol.c on concrete data, and the theorems applied.
use twopence.Prelude.{ℕ, ◌≡◌, refl, sym, ap, true, false, none, some, List, [], ◌∷◌, ◌++◌, arith}
use twopence.Buffer.{Buf, init}
use twopence.Buffer.Bounds.{IsReadable}
use twopence.Buffer.Contents.{contents}
use twopence.Buffer.Strings.{IsText}
use twopence.Env.Merge.{entry}
use twopence.Protocol.{State, type_inject, type_command, type_major, type_hello}
use twopence.Protocol.Build.{packet, Transfer, Command, build_inject_packet, build_command_packet}
use twopence.Protocol.Dissect.{
  dissect, dissect_inject_packet, dissect_command_packet, need_to_recv, buffer_complete,
}
use twopence.Protocol.Frame.{IsReserved, Dissected, dissect-packet}
use twopence.Protocol.Framing.{is_some, buffer_complete-dissect}
use twopence.Protocol.RoundTrip.{IsPacket, read_header, IsNarrow}
use twopence.Protocol.Transfer.{transfer, inject_body, build_inject-IsPacket, inject_roundtrip}
use twopence.Protocol.Variables.{IsSendable}
use twopence.Protocol.Command.{command, command_body, build_command-IsPacket, command_roundtrip}

abbrev ps : State
ps = record { cid = 1; xid = 300 }

-- A major status 7 for ids 1 and 300, and a byte of the next packet.
abbrev stream : List ℕ
stream = type_major ∷ 0 ∷ 0 ∷ 1 ∷ 1 ∷ 44 ∷ 0 ∷ 12 ∷ 0 ∷ 0 ∷ 0 ∷ 7 ∷ type_hello ∷ []

-- A receive buffer with the first `n` bytes of it.
abbrev received : ℕ → Buf
received n = record init { base = stream; tail = n; size = 13 }

whole-IsReadable : IsReadable (received 13)
whole-IsReadable = omega arith

part-IsReadable : IsReadable (received 9)
part-IsReadable = omega arith

-- A header whose length field says 3.
abbrev bad : Buf
bad = record init { base = b'i' ∷ 0 ∷ 0 ∷ 1 ∷ 0 ∷ 2 ∷ 0 ∷ 3 ∷ 5 ∷ []; tail = 9; size = 9 }

bad-IsReadable : IsReadable bad
bad-IsReadable = omega arith

-- A payload of one byte behind the space of a header.
abbrev payload : Buf
payload = record init {
  base = 0 ∷ 0 ∷ 0 ∷ 0 ∷ 0 ∷ 0 ∷ 0 ∷ 0 ∷ 5 ∷ [];
  head = 8;
  tail = 9;
  size = 9;
}

payload-IsReserved : IsReserved payload
payload-IsReserved = record { valid = omega arith; reserved = refl; short = omega arith }

need_to_recv-stream :
    (need_to_recv (received 5) ≡ some 3)
    × (need_to_recv (received 9) ≡ some 3)
    × (need_to_recv (received 13) ≡ some 0)
unfolding need_to_recv
need_to_recv-stream = (refl, refl, refl)

dissect-packet_example :
    (p bp' : Buf) × Dissected
      (received 13)
      (record { type = type_major; pad = 0; cid = 1; xid = 300; len = 12 })
      (0 ∷ 0 ∷ 0 ∷ 7 ∷ [])
      (type_hello ∷ [])
      p
      bp'
dissect-packet_example =
    dissect-packet type_major 1 300 (0 ∷ 0 ∷ 0 ∷ 7 ∷ []) (type_hello ∷ []) whole-IsReadable
      (omega arith) (omega arith) (omega arith) refl

buffer_complete-dissect_example : buffer_complete (received 13) ≡ is_some (dissect (received 13)).0
buffer_complete-dissect_example = buffer_complete-dissect whole-IsReadable

-- "u", "f"; "u", "ls", A=1
abbrev user : List ℕ
user = b'u' ∷ []

abbrev file : List ℕ
file = b'f' ∷ []

abbrev line : List ℕ
line = b'l' ∷ b's' ∷ []

abbrev var : List ℕ
var = b'A' ∷ b'=' ∷ b'1' ∷ []

user-IsText : IsText user
user-IsText = (omega arith, tt)

file-IsText : IsText file
file-IsText = (omega arith, tt)

line-IsText : IsText line
line-IsText = (omega arith, (omega arith, tt))

var-IsSendable : IsSendable var
var-IsSendable = record {
  entry = entry (b'A' ∷ []) (b'1' ∷ []) (omega arith, omega arith, tt) refl;
  text = (omega arith, (omega arith, (omega arith, tt)));
  short = omega arith;
}

ps-IsNarrow : IsNarrow ps
ps-IsNarrow = omega arith

-- A receive buffer that holds an inject packet and one byte more, and one with a command packet.
abbrev inject_bytes : List ℕ
inject_bytes =
    b'i' ∷ 0 ∷ 0 ∷ 1 ∷ 1 ∷ 44 ∷ 0 ∷ 16 ∷ b'u' ∷ 0 ∷ b'f' ∷ 0 ∷ 0 ∷ 0 ∷ 1 ∷ 164 ∷ b'K' ∷ []

abbrev inject_buffer : Buf
inject_buffer = record init { base = inject_bytes; tail = 17; size = 17 }

inject_buffer-IsReadable : IsReadable inject_buffer
inject_buffer-IsReadable = omega arith

abbrev old_transfer : Transfer
old_transfer = record { user = none; name = none; mode = 0 }

abbrev old_command : Command
old_command = record { user = none; command = none; timeout = 0; request_tty = false; env = [] }

inject_packet :
    (p : Buf) × (build_inject_packet ps (transfer user file 420) ≡ packet p)
    × IsPacket p ps type_inject (inject_body user file 420)
inject_packet = build_inject-IsPacket ps user file 420 (omega arith)

command_packet :
    (p : Buf) × (build_command_packet ps (command user line 60 true (var ∷ [])) ≡ packet p)
    × IsPacket p ps type_command (command_body user line 60 true (var ∷ []))
command_packet = build_command-IsPacket ps user line 60 true (var ∷ []) (omega arith)

inject_roundtrip_example :
    (pl bp' pl' : Buf) × Dissected inject_buffer
      (read_header ps type_inject (inject_body user file 420))
      (inject_body user file 420)
      (b'K' ∷ [])
      pl
      bp'
    × (dissect_inject_packet old_transfer pl ≡ some (transfer user file 420, pl'))
    × (contents pl' ≡ [])
inject_roundtrip_example =
    inject_roundtrip {p = inject_packet.0} ps old_transfer user file 420 (b'K' ∷ []) (omega arith)
      user-IsText file-IsText (omega arith) ps-IsNarrow inject_packet.1 inject_buffer-IsReadable
      (sym (ap (λ l. l ++ b'K' ∷ []) inject_packet.2.bytes))

abbrev command_bytes : List ℕ
command_bytes =
    b'c' ∷ 0 ∷ 0 ∷ 1 ∷ 1 ∷ 44 ∷ 0 ∷ 33 ∷ b'u' ∷ 0 ∷ b'l' ∷ b's' ∷ 0 ∷ 0 ∷ 0 ∷ 0 ∷ 60 ∷ 0 ∷ 0 ∷ 0 ∷ 1
    ∷ 0 ∷ 0 ∷ 0 ∷ 0 ∷ 0 ∷ 0 ∷ 0 ∷ 0 ∷ b'A' ∷ b'=' ∷ b'1' ∷ 0 ∷ []

abbrev command_buffer : Buf
command_buffer = record init { base = command_bytes; tail = 33; size = 33 }

command_buffer-IsReadable : IsReadable command_buffer
command_buffer-IsReadable = omega arith

command_roundtrip_example :
    (pl bp' : Buf) × Dissected command_buffer
      (read_header ps type_command (command_body user line 60 true (var ∷ [])))
      (command_body user line 60 true (var ∷ []))
      []
      pl
      bp'
    × (dissect_command_packet old_command pl ≡ some (command user line 60 true (var ∷ [])))
command_roundtrip_example =
    command_roundtrip {p = command_packet.0} ps old_command user line 60 true (var ∷ []) []
      (omega arith) user-IsText line-IsText (omega arith) (var-IsSendable, tt) ps-IsNarrow
      command_packet.1 command_buffer-IsReadable (sym (ap (λ l. l ++ []) command_packet.2.bytes))
