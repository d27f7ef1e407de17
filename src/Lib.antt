-- ===== src/Lib.antt =====
-- Verification of a selective reject file copy over UDP: the client `rcopy` sends a file, a server
-- process forked for it writes the file, over a network that may lose, repeat, reorder and damage
-- packets.
--
-- The program and its model, file by file (paths from the repository's root):
--   udpCode_spring26_v3/Packet.{h,c}: Packet.antt. Building, checking and reading packets.
--   libcpe464_2_21b/libcpe464/checksum.c: Checksum/InCksum.antt. The program sees it through the record
--     Checksum of Checksum.antt, an instance argument of all that builds or checks packets. `in_cksum` is
--     modelled on the memory from an address on; the program's packets are lists that end with the data.
--   udpCode_spring26_v3/Window.{h,c}: Window.antt. The sender's window.
--   udpCode_spring26_v3/Buffer.{h,c}: Buffer.antt. The receiver's buffer and the writing of the file.
--   udpCode_spring26_v3/pollLib.c: Poll.antt. The set of sockets that a process waits on.
--   udpCode_spring26_v3/safeUtil.c: SafeUtil.antt, the calls that exit when they fail; its `sCalloc` and
--     `srealloc` are in Poll.antt. Net.antt has what `pollCall` and then `safeRecvfrom` bring as
--     events: so the state machines below see them. Net/Wait.antt has the two calls themselves.
--   udpCode_spring26_v3/gethostbyname.c: HostName.antt. udpCode_spring26_v3/networks.c: Networks.antt.
--     Both stand over System.antt, the system calls and the state of a process.
--   udpCode_spring26_v3/rcopy.{h,c}: ClientState.antt, what the client keeps and the control packets it
--     hears, and Rcopy.antt, its state machine, `process_file`.
--   udpCode_spring26_v3/server.{h,c}: Server.antt. The server child's state machine, `process_client`;
--     Server/Parent.antt has the parent's loop, `process_server`.
--   rcopy.c and server.c, the checks of the command lines: CommandLine.antt; the way to their sockets
--     and poll sets: Programs.antt.
--   udpCode_spring26_v3/PDU.c: Pdu.antt. An older `make_packet`, and `printPDU`; nothing calls them.
--   example/rcopy-example.c, server-example.c: Example/Client.antt, Example/Server.antt. The loops of a
--     sample client and server, whose state functions the repository does not hold.
-- The ends of `process_file` and `process_client`, `window_free` and `buffer_free`: Release.antt.
-- Upload.antt holds the view that both sides share, a file as numbered pieces, and EndToEnd joins them.
-- A C function that is modelled keeps its name, in lower case with underscores; only `start_state` of
-- rcopy.c is `run_start_state`, since its name is that of a state. Its sockets, and those of the
-- `start_state` of server.c, are `client_start` and `child_start` of Programs.antt. The modules below a
-- component prove what their names say, and the modules named Tests evaluate the definitions and apply
-- the theorems to concrete inputs.
--
-- How the code is read. A function that changes `*info`, `*window` or `*buffer` returns the new
-- record. A packet and its length are one list of bytes. What the process sends is a list of pairs of
-- an address and a packet. A client's reads and events, and a server's events, are lists; a client
-- whose events are used up has nothing but timeouts, a server waits. An `exit(-1)` is `none`. 32 bit
-- arithmetic is written with its wrap (`u32`). A `sendto`, `recvfrom` or `poll` that fails exits; such
-- a run is a run on fewer events. The system calls `open`, `write`, `calloc`, `realloc`, `fork`
-- and `poll` are parameters.
--
-- The network code is read closer to the system. A function is a state monad over a Process, which keeps
-- the calls that were made with their answers, the output and the static buffers, and ends in an
-- Outcome, a value or an exit code. The system, a Host, answers a call as it likes, in view of the
-- calls before. Networks/Phases.antt reads the life of a socket off the calls, and says which call a
-- phase allows: this is the specification that the set-up functions are held against. The poll set is
-- held against a set of sockets, in Poll/Watched.antt, and `poll` against its manual, in
-- Poll/Ready.antt.
--
-- Loops are recursion on fuel where the bound is not a list: `window_rr` and `window_lowest` have as
-- much as the window is wide, `buffer_write_ready` one more than the buffer's size, the tries of the
-- handshakes are counted down from 10, `process_client` has a round for each event and three more,
-- `process_file` 14 for each event and read and 30 more. That this is enough is part of the results: a
-- `process_file` whose rounds are used up before DONE is `unfinished`, and returns nothing.
-- The loops of the examples take a number of rounds, since their ends depend on functions that are not
-- there.
--
-- The results on whole runs assume that sequence numbers do not wrap at 2^32 and that a `write` takes
-- all of its bytes or fails. A window size of 2^31 or more, a negative C `int`, is left to `calloc`.
--
-- Not modelled: error messages, `sendtoErr_init`, the Docker script and the report, and the rest of
-- libcpe464, a library of the course whose faults are the network's.
pub mod Prelude
pub mod Checksum
pub mod Packet
pub mod Window
pub mod Buffer
pub mod Server
pub mod Net
pub mod Upload
pub mod EndToEnd
pub mod ClientState
pub mod Rcopy
pub mod CommandLine
pub mod Pdu
pub mod Outcome
pub mod Poll
pub mod System
pub mod SafeUtil
pub mod HostName
pub mod Networks
pub mod Example
pub mod Programs
pub mod Release
