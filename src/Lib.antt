-- ===== src/Lib.antt =====
-- Verification library of ghostline, a local-first terminal session runtime for Go.
--
-- The program and how its parts interact. A hub (hub.go) owns sessions by name. A session runs a
-- process on a pseudo-terminal; a copy loop appends what the process writes to the session's
-- output log (output.go), feeds it to a terminal emulator, and looks in it for shell integration
-- markers (semantic.go) and for the reported working directory (pwd.go). Clients read the log
-- from a cursor on, while it is appended to, rotated and pruned. A server offers the hub to
-- clients in other processes over a framed protocol (rpc.go). While no client is attached, a
-- query responder (query.go) answers the terminal queries of the process.
--
-- Which file models which part:
-- Output/Cursor.antt models Cursor of output.go: parse_cursor, to_string, marshal_text,
--   unmarshal_text and distance are ParseCursor, String, MarshalText, UnmarshalText and Distance.
-- Output/Log.antt models outputLog as the record Log: the index of segments, the size marks, the
--   active generation, the closed flag, the terminal error, the contents of each file, and
--   whether it can still be found in the directory. Its
--   methods append, cursor, resolveCursorLocked, rotate, prune, close, failLocked and
--   signalLocked are functions from a log to a log; writeFull of session.go is write_full. What
--   the file system answers (the writes' counts and errors, whether a file is created or
--   removed) is an argument of each.
-- Output/Open.antt models openOutputLog and adoptOutputLog of output.go.
-- Output/Marks.antt models markSize, collapseSizesLocked and sizeSpanLocked of output.go.
-- Output/Reader.antt models localOutputSource of output.go: step is one pass of the loop of
--   read, which returns a chunk, waits for the log to change, or goes on; read is the loop.
-- Size.antt and Errors.antt model size.go and the sentinels of errors.go.
-- Semantic.antt models findOSC133, parseOSC133At and parseOSC133Exit of semantic.go.
-- Query.antt and Query/Color.antt model QueryResponder of query.go: feed_pass is one pass of
--   feedLocked, which leaves a buffer or goes on with a shorter one; feed is Feed.
-- Pwd.antt models parseReportedPwd of pwd.go and what it calls.
-- Hub.antt models Hub of hub.go with validateName and validateEnvironment of util.go. Start
--   takes the hub's lock twice: reserve and publish_session are its two critical sections, start
--   is the whole call, and Hub/Steps.antt has the steps of several calls in any order.
--   Hub/Order.antt models sessionStates.
-- Rpc.antt models rpcCode, decodeRPCError, newRPCError, readLine and readRequest of rpc.go;
--   Rpc/Responses.antt encodeResponse, writeResponse, writeRawResponse, and readResponse of
--   client.go.
-- Remote.antt and its children model what a client and a server say to each other over one
--   connection: Remote/Blob.antt and Remote/BlobClient.antt serveBlob of server.go and
--   readBlobOnceWithMetadata of client.go; Remote/Output.antt serveOutput and
--   remoteOutputSource; Remote/Dispatch.antt dispatch, in front of an interface of the hub and
--   its sessions; Remote/Calls.antt callOncePayload, callRetryable and isTransportError;
--   Remote/RemoteSession.antt the calls of remoteSession; Remote/Diagnostics.antt
--   diagnosticBuffer. Remote/Codecs.antt has encodings for the examples only.
-- Handover.antt and its children model handleAdmin and resolveAdoption of server.go, with the
--   hub's map, the handoff of each session, and what the connection keeps (pending, batchFrozen)
--   as the record Source: admin_list, admin_adopt, admin_batch and admin_exit are the requests,
--   and disconnect is what is deferred to the end of the connection. Handover/Snapshot.antt has
--   the snapshot request and trimMigrationReplayForFrame.
-- Migrate.antt models adoptSessionsWithReport of migrate.go with receiveAdoptedSession,
--   adoptNativeOrLossyState and decodeMigrationBlob. The calls of adminClient are an interface
--   (Peer), and so are the ways to build the state of a session (Ways). Migrate/Attempts.antt and
--   Migrate/Transaction.antt are about any server behind that interface that keeps to its part,
--   and Migrate/Peers.antt puts the requests of Handover.antt behind it: a reply with an error is
--   an error, and a request that waits for a session's gate is given up.
-- Environment.antt models ptyEnvironment, mergeTermDefault, nonEmptyEnv and mergeEnvironment of
--   process.go; where an override has no equals sign mergeEnvironment panics, and the result is
--   none.
-- Session.antt and its children model a session of this process, with the emulator as an
--   interface: Session.antt sessionState and what the loops do with a chunk; Session/Poll.antt
--   waitReadable and waitOutputOrMigration; Session/Drain.antt drainOutput and
--   drainResizeOutput; Session/CopyLoop.antt copyOutput and copyOutputLoop, as steps between
--   the points where the loop stands; Session/Start.antt and Session/Adopt.antt startSession,
--   ptyCommand, createOutputLog, adoptState, adoptStateWithOutput, adoptStateWithTerminal and
--   adoptLossyState, with a count of what is held open; Session/Stop.antt waitSessionCommand,
--   terminate and close of process.go; Session/Local.antt the type localSession of session.go,
--   one function per call (resize is resize_session, signal is signal_session).
-- Migration.antt models the migration ticket, beginMigration and finishMigration of process.go.
-- Prelude and Text hold shared helpers: tests and lists on the native numbers, Go maps as
--   association lists, and what the program uses of the packages strings, bytes and strconv.
--
-- Representation. A byte string is a list of numbers. A uint64 is a number whose sums wrap at
-- 2^64 (add64). A Go map is an association list; a loop over it goes through the list, and what
-- is shown holds for every list. A lock makes each method one step; what happens between two
-- steps is any sequence of the other operations. An error that is wrapped with %w is the error
-- that it wraps.
--
-- Fuel. The loop of read gets one unit for each generation from the reader's to the active one,
-- and one more: a pass that goes on moves to the next generation. The loops of Feed, of the
-- marker scan and of readLine get one unit more than the buffer, the chunk or the stream has
-- bytes, since each pass uses up at least one; so does a client that reads a value in chunks.
--
-- Parameters: the answers of the file system and the operating system, the emulator and that it
-- takes its input in any pieces, the callback of the query responder, the name of
-- the machine, the Unicode case tables in Pwd.antt, and the JSON encodings in Rpc.antt and
-- Remote.antt.
--
-- Not modelled: the terminal emulator (terminal.go calls a third-party library through cgo),
-- the probes of process metadata, and the command and the example, which are glue; the
-- messages of the admin connection with their descriptors and a reply on it that is lost, the
-- reader of v0 spools (migrate_v0.go), the listeners, and the spawning of a server by a
-- client.
pub mod Prelude
pub mod Errors
pub mod Size
pub mod Text
pub mod Output
pub mod Semantic
pub mod Query
pub mod Pwd
pub mod Hub
pub mod Rpc
pub mod Environment
pub mod Migration
pub mod Session
pub mod Remote
pub mod Handover
pub mod Migrate
