-- ===== src/Lib.antt =====
-- Verification of the programs of three labs on distributed systems, written in C++17: lab0, hosts that
-- find out over UDP that all of them are up (lab0), lab1, a totally ordered multicast over UDP with a
-- global snapshot (lab1/src), and lab2, a group membership service over TCP with a failure detector over
-- UDP (lab2/src).
--
-- The parts and how they work together:
-- - lab0. One thread sends alive messages to the peers that have not acknowledged one, another answers
--   the alive messages that come with an Ack and takes the Acks. The listener sets the flag that ends
--   the first thread when nobody is left to send to.
-- - lab1. A message that is to be multicast is queued in a ContinuousMsgSender, which sends it again and
--   again to every recipient that has not acknowledged it. A recipient puts it into its hold-back queue
--   and answers with a proposed sequence number. The sender collects the proposals, takes the largest
--   and multicasts it through a second ContinuousMsgSender. A recipient then marks the message
--   deliverable, sorts its queue and delivers the deliverable messages at its front. A snapshot keeps the
--   state of a process and the messages that come on each channel until the marker of that channel.
-- - lab2. A process looks for a leader among the hosts, or becomes the leader. The leader admits a new
--   process, or removes one that its failure detector reports, by a request that every member answers,
--   and then sends the new view. When the leader crashes, the process with the smallest id takes over,
--   asks the others for a pending request and completes it. The failure detector counts down, once per
--   second, the turns since the last heartbeat of each peer.
--
-- The files:
-- - Prelude: the names of the libraries, and what the models share: lists over the native numbers, sets
--   and maps as lists (Keyed), ordered sets as ascending lists (OrderedSet), std::sort as insertion sort
--   (Sort), results of C++ calls (Outcome: a value, an exception, an abort, undefined behaviour, a call
--   that never returns), words as four bytes in network order (Words), texts with numbers (Decimal).
-- - Program: statements as functions of a state that survives exceptions, with catch.
-- - Sockets: the loops of initSocket and bindSocketToFd over the addresses of a host, which the labs
--   repeat. Binding says which address they take and which descriptors they leave open.
-- - Lab0.Udp, Lab0.Heartbeat, Lab0.Startup: lab0/socket_utils.cpp, lab0/heartbeat.cpp, and lab0/utils.cpp
--   with the beginning of lab0/main.cpp (launch). Senders, Keeping, Hearing and Handling are about one
--   call and one packet, Listening about the loop of the listener, Rounds, Launch, Awaited and Safety
--   about the two threads in any order, Endless and Faults about what goes wrong.
-- - Hosts: the loops over host files that the Utils classes of the labs share, and
--   NetworkUtils::parseHostnameFromSender.
-- - Lab1.Message, Lab1.Serde: lab1/src/common/message.h and serde.cpp, one record per struct and one
--   function per serialize and deserialize function.
-- - Lab1.Sockets: the socket classes of lab1/src/common/network_utils.cpp; Connecting is about their
--   constructors, Accepting about the port of a connection.
-- - Lab1.Startup: lab1/src/common/utils.cpp and what lab1/src/main.cpp computes for its services; Wiring
--   is about the map of the recipients (make_recipient_id_map), the flag of the senders
--   (send_multicast_msg) and the loop that multicasts (run_main).
-- - Lab1.HoldBack: HoldBackQueue, PendingMsg and MsgIdentifier of lab1/src/part1/multicast.cpp.
--   addToQueue is add_to_queue, markDeliverable is mark_deliverable, operator< is less. Order is about
--   less, Queue and Pending about the two sets, Ordering about what is delivered.
-- - Lab1.Sender: ContinuousMsgSender. startSendingMessages is sending_step, one round of its loop, and
--   removeRecipient is remove_recipient. Outstanding states the abstract view: the recipients that a
--   message waits for. Rounds is about what is sent, Waiting and Retransmission about a message until it is
--   acknowledged, Interval about the pause between rounds.
-- - Lab1.Multicast: MulticastService, one function per handler (process_data_msg, process_ack_msg,
--   process_seq_msg, process_seq_ack_msg) and receive for one round of startListeningForMessages.
--   State has the state and the messages that it makes, Defs the handlers.
--   Delivery has the runs of a process as a data type, and the total order. Agreed is about the number
--   that a sender chooses, Acks, Duplicates, Repeats and Wire about messages that come late, again, or as bytes.
-- - Lab1.Snapshot: SnapshotService and IncomingChannelState of lab1/src/part2/snapshot.cpp. marker_step is
--   what the thread of one connection does, record_incoming_messages the callback of the multicast.
--   Events has the messages and markers that come in, Channels what one of them does to one channel,
--   Recording what a channel records in all, Starting and Markers what starts the recording.
-- - Lab2.Message, Lab2.SerDe: lab2/src/message.h and serde.cpp. NewView is the message with an array.
-- - Lab2.Peers: Utils and PeerInfo of lab2/src/utils.cpp. Files is about host files, Ids about PeerInfo.
-- - Lab2.FailureDetector: lab2/src/failure_detector.cpp. detector_step is one turn of
--   startDetectorThread, heart_beat_listener_step one of startHeartBeatListener. Scan is about one turn
--   and one peer, Events and Timing about heartbeats and turns in any order, Listener about the bytes.
-- - Lab2.Sockets: TcpClient and TcpServer of lab2/src/network_utils.cpp over a Network, which holds what
--   the calls of the operating system return and what was sent. Lab2.Udp has the UDP classes and the
--   constructors on the calls themselves, and Attempts and Connecting relate the two.
-- - Lab1.Printing, Lab1.Reports, Lab2.Printing: operator<< and getCurrentState as the texts that they write.
-- - Lab2.Membership: MembershipService of lab2/src/membership.cpp, one function per method; State,
--   Requests (with the checks in Answers) and Protocol are the definitions. startAsLeader and
--   startAsFollower are leader_step and follower_step, one round each, and start is start and step.
--   Sending and Quiet are about the loops that send, Requesting about the answers that are waited for, Modify about
--   a change of the group, Views and Agreement about the view messages, Rounds about a follower's
--   answer, Dials and Discovery about findLeader, Election about handleLeaderCrash.
-- - Lab2.Startup: what lab2/src/main.cpp builds for its two services.
-- - Lab0.Tests, Lab1.Tests and Lab2.Tests: runs at concrete inputs, and the theorems applied to them.
--
-- How the code is read:
-- - An unordered set or map is a list in its iteration order, with distinct keys. No theorem depends on
--   where a new element goes. A std::set of numbers is an ascending list.
-- - Counters of type uint32_t wrap around at 2^32. Theorems that need it say that they have not.
-- - One handler, or one round of an endless loop, is one step. No theorem is about steps of two threads
--   that interleave inside one handler, where the code holds a lock or not. The loops inside a step run
--   over lists and need no fuel.
-- - The loops that wait for something are given fuel: the constructors of the UDP sender and of the TCP
--   client of lab1, which try for ever, and startSendingAliveMessages. Out of fuel is the error blocked,
--   a call that does not return. new_udp_sender_lem takes any fuel above the attempts that fail.
-- - What getaddrinfo returns is a function of the number of the call and of the host, and what socket and
--   bind make of an address is part of the address. The listener of lab0 runs over the packets to come.
-- - The random choices of the multicast, to drop a message or to delay an answer, are arguments. The
--   sleeps change no state; where their length is computed, it is part of the result.
-- - A connection of lab2 is a descriptor. What recv, accept and connect will return is part of the
--   Network, and the calls take it from there; when nothing is left, recv and accept block for ever,
--   connect fails and a server cannot be bound.
-- - Local arrays that are not initialised (Uninitialised) hold any words, and an access past the end of
--   an array is the error undefined.
-- - What alivePeersGetter returns to a new leader, and what localStateGetter returns to a snapshot, is an
--   argument. A channel records messages, not the texts that are printed of them.
-- - An int that a text gives (stoi), as a port, is held as its 32 bits.
-- - TcpClient::receive of lab1 returns a message that points into an array of that function (receive_tcp).
--   marker_step takes what the bytes then read as for an argument, whatever they are.
--
-- Not modelled: the operating system itself, whose answers are arguments, logging
-- (printNewlyInstalledView), the random numbers, the signal handlers and the joining of threads in the
-- main functions, and the scripts.
pub mod Prelude
pub mod Program
pub mod Sockets
pub mod Hosts
pub mod Lab0
pub mod Lab1
pub mod Lab2
