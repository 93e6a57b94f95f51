-- ===== src/Lib.antt =====
-- Verification of the packet queues, the link emulation, the HTTP parsers and the event loop of
-- mahimahi, with the changes for Octopus.
--
-- The program. A shell (src/frontend/linkshell.cc) passes each packet of a TUN device to a link
-- (src/frontend/link_queue.cc). The link reads a trace, which says at which milliseconds it can
-- carry 1504 bytes, and keeps the waiting packets in a queue that it knows by an abstract class
-- (src/packet/abstract_packet_queue.hh). The queues differ in which packet they drop. Those with
-- limits share a base class (src/packet/dropping_packet_queue.cc), which counts bytes and packets
-- and asserts that the limits are met; some read the transport header that the sender puts in each
-- packet (src/packet/packet_header.hh). The shells run an event loop (src/util/event_loop.cc) over
-- the actions of a poller, which calls back for a descriptor that is ready, and the replay server
-- answers requests from stored ones.
--
-- The files.
--   Common         tests, lists, 32-bit and 64-bit words, and results: a value, or the fault that ends
--                  the process or has no meaning in C++
--   Packet         src/packet/queued_packet.hh and packet_header.hh, in the layout that UDT4_PKT
--                  selects; a payload is a list of bytes, and a read past its end is a fault
--   Queue          DroppingPacketQueue: its state as a record, one function for each method, with the
--                  log as a list of lines
--     Fifo         the specification: a bounded FIFO
--     Counts       the sizes are those of the packets held
--     Limits       the limits are met
--     Abstract     AbstractPacketQueue as a record of operations, and the laws that the link relies on
--     DropTail, DropHead, Infinite, Codel, Pie, ActiveNet, Bitrate
--                  one for each class derived; Bitrate is DropBitrateDequeueQueue
--     Construct    the constructors, with get_arg and to_string; New what they make
--   Link           LinkQueue over any queue; State has its fields, Held and Trace the invariants,
--                  Deliver one delivery opportunity, Rationalize the loop over the trace, Arrivals
--                  read_packet and wait_time, Construct the constructor
--   Delay          src/frontend/delay_queue.cc; Runs has its runs as a data type
--   Loss           src/frontend/loss_queue.cc and src/frontend/meter_queue.cc; Switching has SwitchingLink, and
--                  Waits when its loop ends
--   Chunked        src/http/chunked_parser.cc, and myatoi of src/util/ezio.cc
--   Header         src/http/http_header.cc, without protocol buffers
--   Http           messages and their parsers: Message, Request and Response are http_message.cc,
--                  http_request.cc and http_response.cc of src/http, Tokenize tokenize.hh and
--                  mime_type.cc, and Sequence http_message_sequence.hh
--     Sequence     Rounds counts the rounds of the parsing loop, Steps and Bodies say what a round
--                  does, Follows and Streams what more bytes change
--     Response     Stops says that no part runs out of rounds, Kept that a response keeps its
--                  request, Matching which request a response belongs to, InChunks how a body in
--                  chunks is read
--     Request      Demands is the size of a body, Streams, RoundTrip and Safe the parser of requests
--   Replay         src/frontend/replayserver.cc: the stored request that matches best
--   Poller         src/util/poller.cc: Counts says what the loop of poll does to the counts of reads and
--                  writes, Progress what a call does
--   EventLoop      handle_signal of src/util/event_loop.cc, and src/util/child_process.cc; Children
--                  says what a signal does to the children
--   ByteStream     src/util/bytestream_queue.cc, a ring of bytes; Ring says how the bytes held lie in it
--
-- Numbers are natural numbers. An `unsigned int` and an `int` are bit patterns below 2^32, of
-- which an `int` is negative from 2^31; a `uint64_t` is below 2^64. The wrap-around is written
-- out.
--
-- The clock. Where an operation reads the clock, the model takes the readings as a function from
-- the place of the reading in the operation to its value.
--
-- Fuel. The loops of drophead, of CoDel and of the bitrate queue take a packet out in each round
-- and have one round more than there are packets. The loop of PIE over the periods that it has
-- missed has a round for each millisecond of them. The loop of one delivery opportunity sends a
-- byte or more in each round and has PACKET_SIZE + 1 rounds. The parser of chunks takes two bytes
-- or more out of its buffer in each round. The loop of the parsers of messages takes a line in each
-- round or moves from a body to the next message, so that two rounds for each byte held and three
-- more are enough. The loop over the trace in the constructor goes down from each member to the start
-- and once over it. The loop over the trace moves to the next opportunity in each round, and a pass
-- through the trace takes a millisecond or more, so that a round for each member of the trace in
-- each millisecond up to now is enough. The loop of the switching link need not end; its rounds are
-- an argument, one for each draw.
--
-- Not modelled. The doubles of the measured rate, of the switching link, of CoDel's control law and
-- of PIE are parameters, and so are strtol, random draws, what descriptors read and take, and what
-- the system calls of the event loop return. An `int` that overflows wraps around. Left out are the
-- conversions of messages to protocol buffers, the graphs, the shells, the descriptors and sockets,
-- the signal mask, how a child process starts and ends, and what the replay server reads from files.
pub mod Common
pub mod Packet
pub mod Queue
pub mod Link
pub mod ByteStream
pub mod Chunked
pub mod Delay
pub mod EventLoop
pub mod Header
pub mod Http
pub mod Loss
pub mod Poller
pub mod Replay
