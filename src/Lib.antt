-- ===== src/Lib.antt =====
-- A peer-to-peer file transfer with congestion control. A node asks every other node for the chunks
-- of a file (WHOHAS), hears who has them (IHAVE), asks one of those for each chunk (GET), and takes
-- it in 512 packets of 1024 bytes (DATA), each of which it acknowledges (ACK). The sender keeps a
-- window of unacknowledged packets, which grows and shrinks with what is acknowledged or lost.
--
-- The parts, the files of the source and the modules that model them:
--   Clock          lib.c: get_time_diff
--   Config         bt_parse.c, bt_parse.h: the list of peers and the searches in it;
--                  Config.Options (bt_init, bt_parse_command_line, and set_debug of debug.c),
--                  Config.Ready (what a configuration satisfies)
--   Spiffy         spiffy.c, spiffy.h: datagrams by way of a router; Spiffy.Delivers
--   Packet         packet.c, packet.h: headers, byte order, validation, send_packet; Packet.Laws
--   Control        control.c, control.h: the window, the threshold, the phases, duplicate
--                  acknowledgments and timeouts of a provider connection; Control.Invariant,
--                  Control.Acks (runs of acknowledgments), Control.Timeouts, Control.Refinement (the
--                  textbook window)
--   Connection     connection.h: the two kinds of connection
--     Provider     connection.c: opening, searching, removing, send_data_packet; Connection.Sending
--     Receiver     connection.c: IHAVE lists, start_connection, save_data_packet, save_chunk,
--                  reset_receiver_connection, cancel_receiver_connection; Connection.Kept,
--                  Connection.Saving, Connection.Cancelling
--     Table        what a list of connections of either kind has to satisfy; Connection.Providers
--                  and Connection.Receivers are the two lists
--   Hex            chunk.c: binary2hex and hex2binary
--   Chunks         chunk.c, make_chunks.c: make_chunks and what it prints; Chunks.Hashes,
--                  Chunks.Described (the job that is made of it)
--   Input          input_buffer.c, input_buffer.h: the lines of standard input; Input.Lines (what
--                  they are), Input.Loop, Input.Calls (one read after the other), Input.Bounds
--   Job            job.c, job.h: jobs, chunks and the packets made of them; Job.Payload (the bytes
--                  of a list of hashes), Job.Whohas, Job.Ihave, Job.Answers
--   Store          the memory that pointers to chunks lead to; Store.Writes
--   Peer           peer.c, peer.h: the globals, process_inbound_udp with a function for each type
--                  of packet; Peer.Flooding (flood_whohas, process_get and finish_job), Peer.Data
--                  (what a DATA packet does to the chunk and is answered with), Peer.Round (the end
--                  of a round of peer_run: timeouts, sending, flooding), Peer.Loop (the loop of
--                  peer_run and handle_user_input), Peer.Start (init_hasChunks); Peer.Invariant,
--                  Serving, Downloading, Dispatch and Rounds: what holds of the connections of a node
--   Downloads      job.h, connection.c and peer.c together: the status of a chunk against the lists
--                  of the receiver connections, which are counted; Downloads.Grows (IHAVE), Starts
--                  (GET), Claimed, Resets and Taking (DATA), Cancels (timeouts), Packets (any
--                  packet), Finish (the end of a round), NewJob (a GET command), Loop; Preserved
--                  (what every write to a chunk keeps), Steady (what the handlers leave as it was);
--                  Written and Verified (finished chunks against the writes to files), Outcome (what
--                  finish_job announces), Asked, Announced and Got (what was asked for and what was
--                  announced, over all rounds), Described (together with make_chunks)
--   Transfer       send_data_packet, provider_control_by_ack and provider_control_by_timeout of one
--                  node and the DATA branch of process_inbound_udp of another, as steps of a system
--                  with the packets between them; Transfer.Arrival (a packet as it stands in the
--                  buffer), Receiving, Invariant, Delivery, Progress, Completion, Stall; Requests
--                  (the GET packet that opens the connection)
--   Wire           packet.h, packet.c, peer.c: a packet as the bytes that send_packet gives to
--                  spiffy_sendto, and the buffer of process_inbound_udp taken for a packet;
--                  Wire.Delivers
--   Program        peer.c: main and peer_run, from the options to the rounds of the loop;
--                  Program.Rounds (its rounds are those of Peer.Loop), Program.Exits, Program.Runs
--   Handshake      WHOHAS and IHAVE between two nodes: Handshake.Offers (the list of a connection),
--                  Arrivals (packets as they arrive), Claims
--   Uploads        the chunks that a node serves: Uploads.Loading (load_chunk), Tables (the provider
--                  connections), Handlers, Served (along the loop)
--   Base           helpers: tests, lists, integers, words and memory blocks; Tests has examples
--
-- How the source is modelled:
--   A pointer to a peer is its place in the list of peers, and NULL is `none`. A provider's chunk is
--   its place in the chunks that the node has; a receiver's is the place of its job among the jobs
--   allocated so far and its index there, so that chunks are shared as in the source. A connection
--   is known by its id or its address, and the `next` links are those of a list.
--   The fields of a header are bit patterns of 8, 16 or 32 bits, read as signed numbers where the
--   source reads a `char`, `short` or `int`. A counter that starts at 0 or 1 and is only raised,
--   halved or set back is a natural number: it stays far below 2 ^ 31. Differences that can be
--   negative are integers.
--   What fresh memory holds is a parameter (`blank`, `fresh_provider`, `fresh_receiver`), and so is
--   what the receive buffer holds behind a packet (`stale`).
--   The clock is read once in a handler, and `now` is that time; a difference of times is exact
--   where the source computes in `double`.
--   The buffer of process_user_input is the list of its bytes; its size is a parameter.
--   What is sent, logged and written to files is a value: datagrams, log entries, writes.
--   SHA-1, opening and writing the output file, the data files, sscanf, atoi, getopt, getenv,
--   inet_aton and gethostbyname are parameters.
--   Loops are recursions on the list or on the number of iterations left. Two take a number of rounds
--   that they have at most: that of process_user_input, as many as its buffer has bytes, and that of
--   make_chunks, as many as the file has; Input.Bounds and Chunks.Hashes show that this is enough.
--   Where the source follows the link of a connection that it has just freed, the model goes on
--   with the next connection; where it would read through a pointer to NULL, the model does nothing.
--
-- The transfer: a system is a provider connection, the chunk that is received, and all the DATA and
-- ACK packets sent so far, each of which the network may deliver at any time, again or never. The
-- receiver takes data until the chunk is complete.
--
-- The loop of peer_run is a recursion on the list of what happens in its rounds. In Peer.Loop that is
-- a packet and the commands; in Program it is what select finds, a datagram as recvfrom gives it and
-- the bytes on standard input, from which the packet and the commands are read. Text files stay as
-- they are while the program runs.
--
-- Not modelled: the sockets, `select` and the other calls of the system, of which what they give is
-- an argument; printing; SHA-1 (sha.c, a copy of another project's library) and the sample client.c
-- and server.c. Nowhere does `malloc` fail. The mode "a+" in which save_chunk opens the output file
-- is left out: a write has the offset that fseek went to.
pub mod Base
pub mod Clock
pub mod Config
pub mod Packet
pub mod Connection
pub mod Control
pub mod Hex
pub mod Chunks
pub mod Input
pub mod Job
pub mod Spiffy
pub mod Store
pub mod Peer
pub mod Downloads
pub mod Transfer
pub mod Wire
pub mod Program
pub mod Handshake
pub mod Uploads
mod Tests
