-- ===== src/Lib.antt =====
-- Verification of the messages, the sessions and the mutual exclusion of this client, server
-- and peer network.
--
-- The program is a C++ server, a client and a network of peers. Peers keep one connection to each
-- other peer, over which they exchange messages: an opcode and a body, which is a circular byte
-- buffer. A peer that wants to write a file on all servers asks the other peers for the right to,
-- by the algorithm of Ricart and Agrawala with the optimization of Roucairol and Carvalho.
--
-- The files, by the code they model:
--
--   Base, Result     numbers, lists and errors, for all others
--   Buffer           src/util/buffer.h and buffer.cc, the circular buffer: `Buffer` is its
--                    fields, with the array as a function from offsets to bytes. Of its child
--                    modules, Until, Shift and Views hold `get_until`; `reserve` and `shift`;
--                    `view`, `move_buffer` and the copies. Valid holds the invariant `IsValid` and
--                    the bytes held, `contents`, as a list; the others hold proofs.
--   Bytes            src/util/bytes.h: `insert` and `extract`, integers in a buffer
--   Messages         src/net/proto/messages.h and messages.cc: the message types and their
--                    conversions, `ToMessage` and `To...`
--   Mutex            src/net/mutex/distributed_mutual_exclusion_service.h and .cc: the state of one
--                    node and its handlers; `step` is one event, and `Mutex/Runs` has histories
--   Peer             src/net/peer/peer_network_manager.h and .cc: the manager of the connections, its
--                    callbacks and states; `Peer/Callbacks` counts the calls, `Peer/Complete` says
--                    when the network is connected
--   Writer           src/net/proto/async_message_service.h and .cc, the writing half: a message or a
--                    file goes to the output buffer, and `send_bytes` is one step of the sending
--   Reader           the same files, the reading half: `process_bytes_into_current_message` takes a
--                    message from the input buffer, and Reader/Process has the loop, compound
--                    messages and the handlers
--   StateMachine     src/util/state_machine.h: the machine that the services are, over a `Behavior`;
--                    Ends says when its loop ends, Once what it reports
--   Handshake        src/net/peer/service/send_handshake_service.h, .cc and
--                    receive_handshake_service.h, .cc: Send and Receive are the two machines, and
--                    Exchange lets them talk
--   Mutex.Pair       two nodes of Mutex joined by two channels that keep the order: a step relation of the
--                    operations, an invariant of where each request is, safety and progress; WideIds has
--                    ids of more than 8 bits
--   Files            src/net/server/service/file_service.h, .cc: the last line of a file, and appending;
--                    a file is read through the standard library's stream, with its failures
--   Server           src/net/server/impl/project2_service.h, .cc: the service of one client as a
--                    machine over Messages and Files; Sessions serves it messages
--   Strings          src/util/strings.h, .cc: `split` by a character, `join` and `ends_with`
--   NodeIds          src/net/peer/service/node_id_service.h, .cc: the two maps of the nodes' ids and
--                    locations into one list
--   Socket           src/net/socket.h, .cc: Close, Poll, Send and Receive, by what the kernel's calls return
--   Delivery         async_message_service.cc at both ends of a connection, over socket.cc
--   Client           src/net/client/impl/project2_client.h, .cc: the client's state machine and its callbacks
--   Strings.Trim     src/util/strings.cc: `split_trim`
--   Path             src/util/path.h, .cc: paths without their iterators
--   Properties       src/program/properties.h, .cc: the file of key-value pairs
--   Lifecycle        src/net/network_service.h, .cc: starting, stopping and cleaning up
--   Connector        src/net/peer/peer_connector.h, .cc
--   Acceptor         src/net/peer/peer_acceptor.h, .cc
--
-- Messages are built in a buffer with Bytes and Buffer; the mutual exclusion sends and receives the
-- `Clocked` messages. An operation that can throw returns a `Result`; undefined behaviour, such as
-- an access outside an array, is an error of it too.
--
-- Bounds: `size_t` is 64 bits wide and its sums and differences wrap; theorems on buffers that grow
-- assume less than 2 ^ 62 bytes. The doubling loop of `resize` is on 65 rounds, which are enough from
-- a capacity of 1; `get_until` runs on the number of bytes held and one more round, and the delivery
-- of delayed requests on their number and one more. Closing the manager of the peers updates its state
-- twice, which is the fuel of that recursion. The reading loop runs on
-- the number of bytes in the input and one more round: a round that goes on takes at least one byte.
--
-- The machine of a service runs on 3 rounds in a handshake and on 2 in a session, which the theorems
-- show to be enough by the results that they state; `run-ends` gives the rounds of any machine. `split` and
-- `split_trim` run on the length of their string and one more round. The client's machine runs on 3 rounds
-- behind a callback: `Wait` and the state behind it.
--
-- Not modelled: the opening of sockets and the resolution of names, threads, time-outs, the console, what the file system does, the
-- iterators of paths, and the parsing of options. Whether a name lies in the root of the
-- server's files, and whether a file opens, are parameters of Files. What `new[]` leaves in an array is 0. The shift of an `int` by 32 or more, which C++
-- leaves undefined, is the parameter `overshift`; the theorems on it assume that 0 stays 0.
pub mod Base
pub mod Result
pub mod Buffer
pub mod Bytes
pub mod Messages
pub mod Mutex
pub mod Peer
pub mod Writer
pub mod Reader
pub mod StateMachine
pub mod Handshake
pub mod Files
pub mod Server
pub mod NodeIds
pub mod Strings
pub mod Socket
pub mod Delivery
pub mod Client
pub mod Path
pub mod Properties
pub mod Lifecycle
pub mod Connector
pub mod Acceptor
