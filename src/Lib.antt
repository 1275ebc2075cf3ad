-- ===== src/Lib.antt =====
-- A verification library for sassrv, the SASS/RV messaging middleware.
--
-- The program is an RV daemon and client library. It has these parts: the receiver of reliable
-- multicast packets (src/mc.cpp), the fault-tolerant group (src/ft.cpp), the daemon's host and
-- network start-up (src/rv_host.cpp), the monitor of hosts, sessions and subscriptions
-- (src/submgr.cpp), the protocol state machines of the daemon's connections (src/ev_rv.cpp) and of
-- the client (src/ev_rv_client.cpp), and the RV5 and RV7 programming interfaces (src/rv5_api.cpp,
-- src/rv7_api.cpp, src/rv7_msg.cpp, src/rv7_ft.cpp).
--
-- What is modelled, and where. Names are the source's, in this library's spelling.
--   Trdp/Header   TrdpHdr and copy_in of src/mc.cpp and include/sassrv/mc.h.
--   Trdp/Window   TrdpWindow and merge: insert is the scan for a packet's place, group the scan
--                 over the fragments of a message, drain_round the body of the loop that takes
--                 messages, drain_test its condition, and merge the whole function.
--   Trdp/Output   output, which cuts the payloads of a source into messages, and recv_msg.
--   Trdp/Db       TrdpWindowDB: get_window, process_msg and the totals lost_seqno, repeat_seqno,
--                 reorder_seqno and nak_count.
--   Ft/Peer       FtPeer, FtPeerMsg and FtStateCount of src/ft.cpp and include/sassrv/ft.h: the rank
--                 of two peers, the latency of one, and the counts by state.
--   Ft/Pool       FtPeerFree: which slots of its blocks are in use.
--   Ft/Queue      FtQueue: insert, remove, update, reorder (sift and number are its two loops),
--                 get_pos and in_order2, on a heap of peers that its entries point to.
--   Ft/Group      RvFt: its timers, messages and intervals (start_hb), the changes of state
--                 (set_state and prepare_takeover, in Turn) and the operations that its owner, its
--                 timers and the network call (Run). finish, activate and deactivate are named
--                 leave_group, activate_group and deactivate_group there.
--   Host/Session  utime_to_str and make_session of src/rv_host.cpp, and ip4_hex_string.
--   Host/Refs     add_ref and rem_ref of src/rv_host.cpp.
--   Host/Services RvHostNet of include/sassrv/rv_host.h, get_service and start_service of
--                 src/rv_host.cpp.
--   Host/Clients  the clients of an RvHost and its network: start_host2, start_host, stop_network and
--                 stop_host of src/rv_host.cpp, as called for the clients by src/ev_rv.cpp.
--   Host/Mcast    RvMcast: parse_network of src/rv_host.cpp with its lookups, and (Host/Mcast/Split) the
--                 parts of a network string.
--   Monitor/Wildcard  match_rv_wildcard and is_rv_wildcard of include/sassrv/ev_rv_client.h.
--   Monitor/Ids       match_rv_info, the identifiers of hosts and clients in the names of sessions,
--                     and inbox_session_len, of src/submgr.cpp.
--   Monitor/Entry     RvSubscription, RvSessionEntry and RvHostEntry of include/sassrv/submgr.h; their
--                     start and stop are named start_session, stop_host_entry and so on.
--   Monitor/Db        the state of RvSubscriptionDB, the searches of its tables, host_digest and, in
--                     Hosts, host_ref and host_start.
--   Monitor/Sessions  unsub_session, unsub_host, host_stop and the starts and stops of sessions.
--   Monitor/Listen    listen_ref, listen_stop, snapshot and tic; Marks has what a query's reply
--                     marks and stops.
--   Monitor/Events    process_events, the queries it sends, and gc.
--   Monitor/Filters   the wildcards of the monitor and what it subscribes to.
--   Monitor/Sass3     the references of processes: sass3, the subjects of a _SASS. message, and their
--                     end in process_events.
--   Monitor/Process   process_pub2: process_kind is the switch on the kind of an advisory,
--                     process_inbox the replies to queries.
--   Monitor/Counting  the proofs that the tables stay valid: Tables and Names on the tables alone,
--                     Steps and Moves on one change of them, and the others on the calls.
--   Base          tests, lists and words shared by all, the rule for do-while loops, and
--                 (Base/Wire) what is taken from raimd and raikv.
--
-- Numbers are natural numbers; where the source computes in a word of w bits the model writes the
-- wrap-around out. A difference of sequence numbers is kept as the bit pattern of the int32_t. A
-- call that reads a datagram or loops has a result of type Outcome: done, overread for a read past
-- the end of the datagram, or unfinished where the fuel ran out. Loops take fuel; the theorems on
-- termination say how much is enough (the number of queued packets, or of messages in a packet)
-- and at which inputs no fuel is enough.
--
-- An address is a number, and that of a group's own peer `me` is 0. The calls that RvFt makes of the
-- listener, the client and the timer queue are a list of effects in its state, in the order in
-- which they are made. set_state and prepare_takeover call each other: set_state_in counts the
-- calls that may stand inside each other, and set_state is given three. Their result none also
-- stands for a read past the end of the queue. The read of
-- get_pos and in_order2 at a peer's position is such a read too where the position is past the end:
-- in_array says whether it is, and set_state has the result none there; the queue's own functions
-- give a value of no meaning.
--
-- The tables of the monitor are lists of their entries in the order in which they are visited, and
-- the hash tables of identifiers association lists (Base/Dict). A session is referred to by its name,
-- a host by its index and a subject by its identifier. A call has a result of type Result: returned,
-- null_read and overrun where it would read or write outside its memory, and stuck where it has
-- not returned after all its rounds; the rounds of stop_marked_subscriptions and stop_marked_sessions
-- are counted by fuel, and those of host_ref's loop by the number rounds of Env, which may be any
-- number above 0, since one round is the last or none is. The debug output is left out.
-- What the field readers of raimd find in a message is a record, Fields, or a list of ReplyField.
-- A message is one of the type Message: without bytes, not to be unpacked, or its Content. An entry of
-- the references of _SASS. messages that is freed with its message is not put into their list.
-- Env of Monitor/Db has kv_hash_uint, kv_crc_c and string_to_uint64 of raikv, the QF_ flags of raimd
-- and the monitor's client.
--
-- Parameters. get_u16<MD_BIG> and get_u32<MD_BIG> of raimd are a Decoder, and the hash tables of
-- raikv a HashTab, each with the laws that the code relies on; Base/Wire has instances that meet
-- them. A window that ArrayCount::push hands out is the argument blank. The linked lists and
-- counted arrays of raikv are read as the sequences of their elements. Env has what RvFt takes from
-- raikv and the client: the index of peers, the names of inboxes and MAX_TIMER_RANGE. Hex is
-- hexchar2 of raikv. The first loop of utime_to_str shifts by up to 64 bits for times of 2^60
-- microseconds or more, which C++ does not define; the model stops at 16 digits there.
--
-- System of Host/Mcast is what the operating system and the resolver answer about addresses. An
-- address there is the number that ntohl gives, and a byte above 127 is no space.
--
-- Not modelled: sockets, timers' threads, printing, and memory allocation, which are I/O of the
-- event loop; the programming interfaces of RV5 and RV7, which wrap a vendor's calls; the test
-- programs. Of src/ft.cpp: process_pub, which unpacks a message, release, and all printing.
-- Of src/submgr.cpp: make_sync and update_sync, and release.
pub mod Base
pub mod Trdp
pub mod Ft
pub mod Host
pub mod Monitor
