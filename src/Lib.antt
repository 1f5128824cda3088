-- ===== src/Lib.antt =====
-- The collector of DNS traffic in src/: packets are read from a capture, requests are paired with
-- their responses, and the pairs are written out. The program is a chain of threads that hand frames
-- of packets to one another through bounded queues. The development follows the parts:
--
-- * Packet (src/packet.c, src/packet.h): the packet structure and its getters (SockAddr, Packet).
--   Packet/Match has dns_packet_primary_match and dns_packet_qname_match, Packet/HashValue has
--   dns_packet_primary_hash; Packet/Key describes a match by a key, Packet/SameHash goes from a
--   match to the hash. Packet/Create has dns_packet_create_from_libtrace, Create/Spec what a
--   capture says of the message in it, Create/Copied that the copied data are these bytes,
--   Create/Checks, Accepted and Returns when a packet is made, and Create/Total when the function
--   comes to an end. What libtrace answers about a packet and libknot's two parsers are records of
--   values and functions. Create/Spec writes out the packet that is to be made, field by field. Of
--   a parsed message the model keeps what libknot's getters return to this code. The comparison of
--   names by libknot is a parameter.
-- * PacketHash (src/packet_hash.c): the table of the requests that wait for a response. A chain of
--   buckets is a list; a pointer to a pointer to a bucket is a chain's number and a place in the
--   chain. PacketHash/Chain is about one chain, Inv about where buckets stand, Resize about the loops
--   of dns_packet_hash_resize, Valid about the invariant, Spot about the place that
--   dns_packet_hash_find_bucket returns, and Insert, Remove and Match about the three operations.
--   The invariant bounds the numbers of buckets and chains by 2^50, so that the products in the
--   tests of the load fit in 64 bits; memory ends long before. The clause on the load says that the
--   table is neither too full nor too empty. Its seed must be above 256, as the hash asserts.
-- * Frame (src/packet_frame.c): a frame of packets with its count, size and times. A time is a
--   natural number of microseconds or unset; times before the Epoch are not modelled.
-- * FrameQueue (src/frame_queue.c): the queue as a circular array (FrameQueue, FrameQueue/Ring), as
--   a bounded list (Refine), its two threads as a step relation (Monitor), and what is freed at the
--   end (Destroy). A wait on a condition variable ends the run of a function; a step of Monitor is
--   one run under the mutex. The loop that makes room runs on fuel, one round more than there are
--   frames.
-- * Matcher (src/worker_packet_matcher.c): the thread that pairs requests with responses. The
--   queues on both sides are lists of frames. Matcher/Waiting says what the hash table holds,
--   Advance, Round and Loop are about dns_worker_packet_matcher_advance_time_to, Pairing and Handle
--   about the loop body of dns_worker_packet_matcher_main (handle_packet), Spec says what the
--   thread does with neither frames nor table, and Live, Stream, Run and Conserve are about the
--   whole run of dns_worker_packet_matcher_main, over frames as Input makes them. Its fuel is the
--   number of packets and one. The fuel of the loop that advances the time is the length of the
--   packet queue, the time to reach and two: a round takes a packet from the queue, moves the start
--   of the frame on, or is the last one. req->response = pkt goes to the request with the same
--   address in the queue; addresses in the queue are all different. Sums of times are taken to fit
--   in 64 bits. The maximum size of a frame is the int after its conversion to size_t. A response
--   looks at 33 requests at most, as in the code, where packet_hash.h says 32.
-- * Config (src/config.c): the checks of dns_collector_conf_commit, on the fields that it reads.
--   A char is signed, as where the collector is built for.
-- * Input (src/input.c): the thread that reads a trace (dns_input_process) and frames its packets.
--   What comes from libtrace and the clock is a list of events and a record of functions, Reader;
--   the parser of packets and the dump are in that record, too. Input/Frames is about
--   dns_input_advance_time_to, Input/Run about the loop and dns_input_finish, Input/Open about
--   opening a trace. The fuel of the loop in dns_input_advance_time_to is the time and two, as each
--   round moves the start of the frame on by at least one microsecond. Rates are only logged.
-- * Dump (src/dump.c): the packets that could not be parsed go to trace files. A trace file is its
--   name and its packets; libtrace's output and the operations on double are records of functions.
--   Dump/Spec, Steps and Files are about the files of a dump without a rate limit, Unwritten is
--   about a write that fails while the file is open and within its period. A period is a natural
--   number.
-- * Output (src/output.c, src/output.h): the thread that writes packets to files (dns_output_main),
--   with Clock for dns_next_rotation and the other times of src/common.c. The system, that is
--   strftime, fopen, the start of a subprocess and waitpid, is a record of functions on a state of
--   any type; a stream keeps what was written to it. die and a failed assertion end the thread:
--   there is no result. Output/Spec describes the files as groups of consecutive packets;
--   Output/Counters is about their counters, Output/Steps and Output/Files are about the thread's steps and its whole run. The counters of
--   packets and of bytes, with their wrap-around at 2^64, are modelled. A stream is one opening of
--   a file; that a later file of the same name replaces an earlier one is not modelled. A period is
--   a natural number; times are not negative.
-- * Csv (src/output_csv.c): write_packet, with its macros, as a sequence of pieces that are written
--   to a buffer of 2048 bytes, and the hooks dns_output_csv_start_file and
--   dns_output_csv_write_packet (Csv/Hooks). Csv/Columns has the fields in the source's order.
--   Csv/Fits and Csv/Written are about the text of a line, Csv/Clean, Csv/Cells and Csv/Fields
--   about its fields. Print has what snprintf prints for a number; 20 digits are enough for 64
--   bits. For the list of understood algorithms the model reads the byte that the source reads.
-- * Cbor (src/output_cbor.c): write_packet as the list of the items that the encoder is given, and
--   the two hooks (Cbor/Hooks). The encoder of tinycbor is a function of the size of the buffer,
--   the announced length and the items; its laws are in Cbor/Written. Cbor/Count is about their
--   number.
-- * Escape (src/common.c): dns_snescape, with its bounds, reading back, and the fields of a line.
--
-- * Pipeline (src/main.c): the three threads in a row over one capture file (collect), with the
--   frames of each as the next one's input.
--
-- Prelude has the shared types, operators and lemmas; Tests has concrete packets, tables, queues and
-- texts. Sizes are native numbers with their wrap-around at 2^64 written out.
--
-- Not modelled: the child process of a pipe, the
-- reading of the configuration, the start and stop of the threads, and all freeing of memory but that
-- of a queue; libucw, tinycbor, libtrace and libknot are libraries.
pub mod Prelude
pub mod Packet
pub mod Frame
pub mod FrameQueue
pub mod Escape
pub mod PacketHash
pub mod Matcher
pub mod Clock
pub mod Config
pub mod Dump
pub mod Input
pub mod Output
pub mod Print
pub mod Csv
pub mod Cbor
pub mod Pipeline
pub mod Tests
