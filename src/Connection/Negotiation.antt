-- ===== src/Connection/Negotiation.antt =====
-- The period that both sides of library/connection.c agree on, from the bytes of the HELLO packet of a
-- client.
use twopence.Prelude.{
  ℕ, ◌+◌, ◌*◌, ◌/◌, ◌≤◌, ◌<◌, ◌≡◌, ◌⊎◌, Option, some, List, [], ◌∷◌, ◌++◌, ◌==◌, if◌then◌else◌,
}
use twopence.Timeout.{Timeval, never}
use twopence.Queue.Order.{IsOrdered}
use twopence.Socket.Stream.{stream}
use twopence.Connection.{Conn, later}
use twopence.Connection.Keepalive.{hello_bytes, period}

-- What the payload of a HELLO packet asks for, in seconds: two bytes of version, and a word. Sixty is the
-- default.
abbrev pub in_seconds : ℕ → ℕ
in_seconds word = if word == 65535 then 60 else word

abbrev pub asked_for : List ℕ → ℕ
asked_for [] = 0
asked_for (major ∷ []) = 0
asked_for (major ∷ minor ∷ []) = 0
asked_for (major ∷ minor ∷ hi ∷ []) = 0
asked_for (major ∷ minor ∷ hi ∷ lo ∷ rest) = in_seconds (hi * 256 + lo)

-- The smaller of what is asked for and what the server has set.
pub record Smaller (asked mine k : ℕ) : Type 0 where
  pub within_asked : k ≤ asked
  pub within_mine : k ≤ mine
  pub one_of : (k ≡ asked) ⊎ (k ≡ mine)

-- The period of the keepalives: none for 0, and ten seconds at least.
pub record Lasts (k period : ℕ) : Type 0 where
  pub off : k ≡ 0 → period ≡ 0
  pub raised : 0 < k → k < 10 → period ≡ 10
  pub as_it_is : 10 ≤ k → period ≡ k

pub record Agreed (now : Timeval) (conn : Conn) (asked : ℕ) (o : Option Conn) : Type 0 where
  pub after : Conn
  pub k : ℕ
  pub returns : o ≡ some after
  pub smaller : Smaller asked conn.recv_timeout k
  pub lasts : Lasts k after.recv_timeout
  pub send_timeout : after.send_timeout ≡ after.recv_timeout / 4
  pub off : k ≡ 0 → after.recv_deadline ≡ never
  pub deadline : 0 < k → after.recv_deadline ≡ later now after.recv_timeout
  pub replied : stream after.client_sock ≡ stream conn.client_sock ++ hello_bytes conn.client_id k
  pub ordered : IsOrdered after.client_sock.xmit_queue
