-- ===== src/Pipe/Receive.antt =====
-- What library/pipe.c does with the packets of a transaction of the client, and at the ends of its data.
use twopence.Prelude.{ℕ, Bool, true, false, Option, none, some, List, [], ◌∷◌, ◌==◌, if◌then◌else◌}
use twopence.Buffer.{Buf}
use twopence.Timeout.{Timeval}
use twopence.Socket.{Sock}
use twopence.Protocol.{
  type_timeout, type_major, type_minor, type_chan_eof, type_command, type_inject, type_extract,
}
use twopence.Protocol.Build.{build_eof_packet}
use twopence.Protocol.Dissect.{dissect_status_packet}
use twopence.Transaction.{Channel, Trans, set_error}
use twopence.Transaction.Doio.{xmit_built}

-- `__twopence_pipe_local_source_eof`: a transmission that fails returns -1.
abbrev pub eof_sent : Trans → Option (Bool × Sock) → Option (Trans × Sock)
eof_sent trans none = none
eof_sent trans (some (sent, sock)) = some (if sent then trans else set_error trans 1, sock)

unfoldable pub local_source_eof : Timeval → Trans → Sock → ℕ → Option (Trans × Sock)
local_source_eof now trans sock id =
    eof_sent trans (xmit_built now sock (build_eof_packet trans.ps id))

-- The status of a packet is stored, or the error is set.
abbrev pub with_major : ℕ → Trans → Option (ℕ × Buf) → Trans
with_major error trans none = set_error trans error
with_major error trans (some (n, rest)) = record trans { status_major = n }

abbrev pub with_minor : ℕ → Trans → Option (ℕ × Buf) → Trans
with_minor error trans none = set_error trans error
with_minor error trans (some (n, rest)) = record trans { status_minor = n; done = true }

-- `__twopence_pipe_command_recv`: 6 is TWOPENCE_COMMAND_TIMEOUT_ERROR, 5
-- TWOPENCE_RECEIVE_RESULTS_ERROR.
unfoldable pub command_recv : Trans → ℕ → Buf → Trans
command_recv trans type payload =
    if type == type_timeout
    then set_error trans 6
    else if type == type_major
    then with_major 5 trans (dissect_status_packet payload)
    else if type == type_minor
    then with_minor 5 trans (dissect_status_packet payload)
    else set_error trans 5

-- `__twopence_pipe_inject_recv`: 10 is TWOPENCE_RECEIVE_FILE_ERROR. The first source is unplugged.
abbrev pub first_source : (Channel → Channel) → List Channel → List Channel
first_source f [] = []
first_source f (c ∷ cs) = f c ∷ cs

abbrev pub unplugged : Trans → Trans
unplugged trans = record trans {
  local_source = first_source (λ c. record c { plugged = false }) trans.local_source;
}

abbrev pub inject_major : Trans → Option (ℕ × Buf) → Trans
inject_major trans none = set_error trans 10
inject_major trans (some (n, rest)) =
    let trans' = record trans { status_major = n } in
    if n == 0 then unplugged trans' else set_error trans' 10

unfoldable pub inject_recv : Trans → ℕ → Buf → Trans
inject_recv trans type payload =
    if type == type_major
    then inject_major trans (dissect_status_packet payload)
    else if type == type_minor
    then with_minor 10 trans (dissect_status_packet payload)
    else set_error trans 10

-- `__twopence_pipe_extract_recv`
abbrev pub extract_major : Trans → Option (ℕ × Buf) → Trans
extract_major trans none = set_error trans 10
extract_major trans (some (n, rest)) = set_error (record trans { status_major = n }) 10

unfoldable pub extract_recv : Trans → ℕ → Buf → Trans
extract_recv trans type payload =
    if type == type_major
    then extract_major trans (dissect_status_packet payload)
    else if type == type_chan_eof
    then record trans { done = true }
    else set_error trans 10

-- `__twopence_pipe_extract_eof`
abbrev pub extract_eof : Trans → Trans
extract_eof trans = record trans { done = true }

-- The callbacks of the transactions that the functions of this client start, by their type.
unfoldable pub recv_of : ℕ → Option (Trans → ℕ → Buf → Trans)
recv_of type =
    if type == type_command
    then some command_recv
    else if type == type_inject
    then some inject_recv
    else if type == type_extract
    then some extract_recv
    else none
