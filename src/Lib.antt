-- ===== src/Lib.antt =====
-- The parts of twopence that its client library, its test server and its plugins share, modelled
-- after library/*.c: byte buffers, the environment of a command, the wire protocol, timers and
-- timeouts, sockets with a transmit queue, streams, transactions, and connections.
--
-- How the parts interact: a connection reads bytes into the receive buffer of its socket, and the
-- wire protocol takes packets out of that buffer. A HELLO packet sets the keepalive times of the
-- connection, a request starts a transaction, and every other packet goes to the transaction with
-- its id, which gives data to the channel with the number in the packet. Replies and status
-- packets are built in buffers by the wire protocol and transmitted by the socket, which keeps in
-- its queue what the kernel does not take at once. Timers, the deadlines of the connection and the
-- delays of queued packets bound the time that a poll waits.
--
-- - Prelude: what the other modules share. Prelude.Tests has the Boolean tests of numbers and
--   strings, Prelude.Lists cuts lists by native numbers, Prelude.Memory is memcpy in a block of
--   memory, and Prelude.Words has unsigned 32-bit sums and differences and the two byte orders.
-- - Buffer: library/buffer.c and buffer.h. `twopence_buf_x` is `x` (`twopence_buf_get` is `get`,
--   `twopence_buf_gets` is `gets`, `twopence_buf_index` is `index`, and so on),
--   `__twopence_buf_resize` is `resize` with the choice of the block in `pick_size`.
-- - Env: the functions `twopence_env_x` of library/twopence.c, each as `x`, over the list of the
--   name=value strings.
-- - Protocol: library/protocol.h and protocol.c. `__twopence_protocol_build_header` is
--   `fill_header` and `__twopence_protocol_push_header` is `raise_header`; Protocol.Build has the
--   functions `twopence_protocol_build_x` as `build_x`, and Protocol.Dissect the functions
--   `twopence_protocol_dissect_x` as `dissect_x`, the readers of the environment, and the two
--   functions that look for a complete packet in a receive buffer.
-- - Timeout: library/utils.c and utils.h, the `twopence_timeout_t` of a poll and the array of poll
--   descriptors.
-- - Timer: library/timer.c, the global list of timers with `twopence_timers_run` as `run`.
-- - Queue and Socket: library/socket.c. Queue has `twopence_queue_t`; Socket has `twopence_sock_x`
--   as `x`, where `flush_loop` and `send_all` are the loops of a flush and of a blocking
--   transmission; Socket.Doio has `twopence_sock_doio`, and Socket.Received the lemmas on what it
--   reads.
-- - Iostream: library/iostream.c, `twopence_iostream_x` as `x`; Iostream.Parts has the substreams,
--   a buffer or a descriptor with what the kernel has for its coming calls, and Iostream.ReadAll
--   `twopence_iostream_read_all`.
-- - Transaction: library/transaction.c, `twopence_transaction_x` as `x`, the channels of a
--   transaction as lists. Transaction.Receive has the packets received, Transaction.Channels the
--   attaching and polling of channels, Transaction.Forward the forwarding of a source and the work
--   on one channel, and Transaction.Doio the loops over the channels and the packets that start a
--   transaction. Transaction.Framed and Transaction.Piece have the lemmas on one data packet.
-- - Connection: library/connection.c, `twopence_conn_x` as `x`, `twopence_conn_process_packet`
--   with its loop `process_loop`. Connection.Link has the lists of transactions and
--   `process_incoming`, Connection.Doio `twopence_conn_fill_poll` and `twopence_conn_doio`, and
--   Connection.Pool `twopence_conn_pool_poll`. Connection.Round has the lemmas on one received
--   data packet, Connection.Negotiation describes the bytes of a HELLO packet, and
--   Connection.Stuck rounds of reading and processing.
-- - Pipe: library/pipe.c, the client of a server over one connection. Pipe has the link and the
--   handshake, Pipe.Receive the packets that a client receives, Pipe.Run the loops that wait, and
--   Pipe.Commands the calls of the plugin interface; `start` is the part that
--   `__twopence_pipe_command` and the two transfers share.
-- - Target: library/twopence.c, the functions `twopence_chat_x` as `chat_x`, with the results of
--   the plugin's chat_recv as a list.
--
-- State is passed from call to call: a C function that changes an object returns the new object
-- beside its result. A failed assertion, an abort and a NULL result are `none`; fields that C
-- declares as unsigned int wrap at 2 ^ 32. Bytes and lengths are native numbers. Times are counted
-- from the epoch and are not negative. An object that several others share, such as the transport
-- of the transactions, is an argument and a result.
--
-- Loops run on fuel, and the fuel given is enough: the size of a block starts at 128 and doubles
-- at most ten times until it is past every size that the first branch takes; a search for a string
-- tries each start once; a pass over the environment list is no longer than the list; reading an
-- environment consumes at least a byte for each entry; a flush ends with each answer of the kernel
-- and each packet used up, a blocking transmission with each answer used up; the loop over
-- received packets takes at least the eight bytes of a header in each round; and reading all of a
-- stream and forwarding one take at least a byte in each round but the last; the read of the first
-- packet takes at least a byte in each round. A wait of a client goes through a list of what its
-- polls find, and says so where that list ends first.
--
-- The kernel is part of the state: `answers` of a socket lists the results of its coming calls of
-- write, any list at all, and `wire` what it has taken. A stream on a descriptor has `incoming`,
-- the pieces of its coming reads. A read from the descriptor of a socket, the events of a poll and
-- errno are arguments, which Connection.Doio has in a record `Env`. The bytes that malloc leaves
-- in a new block are the argument `fresh`. The callbacks of the semantics of a connection are the
-- functions of `Handlers`.
--
-- Not modelled: what only frees memory or prints (twopence_buf_free, the dumps,
-- library/logging.c), the calls of poll, ppoll, accept and fcntl, the table of signal names, and
-- what a timer's callback does to other timers. The rest of the front end in library/twopence.c is
-- left out so far, and so are the connections that other targets of a process have in the pool of
-- library/pipe.c. twopence_pipe_chat_send attaches one stream to two channels, which then share
-- its position; here a stream belongs to its channel, so that call is left out. The plugins that
-- only open a descriptor or call other libraries (library/tcp.c, virtio.c, serial.c, ssh.c,
-- chroot.c), the server's processes and terminals (server/), the tools (shell/) and the bindings
-- (python/, ruby/) are calls of the system and of libraries.
pub mod Buffer
pub mod Connection
pub mod Env
pub mod Iostream
pub mod Pipe
pub mod Prelude
pub mod Protocol
pub mod Queue
pub mod Socket
pub mod Target
pub mod Timeout
pub mod Timer
pub mod Transaction
