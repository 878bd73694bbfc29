-- ===== src/Queue.antt =====
-- The transmit queue of library/socket.c: `twopence_queue_t`, a linked list of packets with a count of
-- their bytes and two sequence numbers. The list is given by its packets in order; `tail`, the place
-- of the last link, is its end.
pub mod Order
use twopence.Prelude.{
  ℕ, ◌+◌, ◌*◌, Bool, true, false, ◌&&◌, ◌||◌, Option, none, some, List, [], ◌∷◌, ◌++◌, leb, ◌==◌,
  if◌then◌else◌, u32_mod, add_u32, sub_u32,
}
use twopence.Buffer.{Buf, count}

-- `struct twopence_packet`
pub record Packet : Type 0 where
  pub seq : ℕ
  pub bytes : ℕ
  pub buffer : Buf

-- `struct twopence_queue`
pub record Queue : Type 0 where
  pub seq_head : ℕ
  pub seq_tail : ℕ
  pub bytes : ℕ
  pub max_bytes : ℕ
  pub packets : List Packet

-- `twopence_packet_new`
unfoldable pub packet_new : Buf → Packet
packet_new bp = record { seq = 0; bytes = count bp; buffer = bp }

-- `twopence_queue_init`, on memory that calloc has cleared.
abbrev pub queue_init : Queue
queue_init = record { seq_head = 0; seq_tail = 0; bytes = 0; max_bytes = 1048576; packets = [] }

-- `twopence_queue_destroy` takes the packets, and leaves the numbers.
unfoldable pub queue_destroy : Queue → Queue
queue_destroy q = record q { packets = [] }

-- `twopence_queue_empty`
unfoldable pub queue_empty : Queue → Bool
queue_empty q = elim q.packets [ [] ↦ true | p ∷ ps ↦ false ]

-- `twopence_queue_append`
unfoldable pub queue_append : Queue → Packet → Queue
queue_append q pkt = record q {
  packets = q.packets ++ record pkt { seq = q.seq_tail } ∷ [];
  bytes = add_u32 q.bytes pkt.bytes;
  seq_tail = add_u32 q.seq_tail 1;
}

-- `twopence_queue_head`
unfoldable pub queue_head : Queue → Option Packet
queue_head q = elim q.packets [ [] ↦ none | p ∷ ps ↦ some p ]

-- `twopence_queue_full`
unfoldable pub queue_full : Queue → Bool
queue_full q = q.max_bytes == 0 || leb q.max_bytes q.bytes

-- `twopence_queue_dequeue`: none is a failed assertion.
unfoldable pub queue_dequeue : Queue → Option (Option Packet × Queue)
queue_dequeue q = elim q.packets [
  | [] ↦ some (none, q)
  | pkt ∷ rest ↦
      if pkt.seq == q.seq_head && leb pkt.bytes q.bytes
      then some (
        some pkt,
        record q {
          bytes = sub_u32 q.bytes pkt.bytes;
          packets = rest;
          seq_head = add_u32 q.seq_head 1;
        },
      )
      else none
]
