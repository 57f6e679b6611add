-- ===== src/Lib.antt =====
-- Verification of birpc, a Go library for remote procedure calls in which either end of a
-- connection may call the other.
--
-- The parts of the program, and the files that model them:
--
-- Wire.antt has the headers Request and Response (server.go), the errors (client.go), and the values
-- that cross the code; Codec.antt has the interface ServerCodec (server.go) as a record, over which
-- the server is written.
--
-- Context.antt is context/context.go. A context of the standard package is the chain of the calls
-- that made it, and the clock keeps the time and the cancel functions called so far; their documented
-- meaning is the function is_done. Pending.antt is internal/svc/svc.go, the calls that a connection
-- has in progress: Start, Cancel, and the built-in service that cancels by number.
--
-- Service.antt is service.go: NewService, suitableMethods, MethodType, Call, getArgv and getReplyv.
-- What package reflect and the Unicode tables say of the program is the record Program; a method of
-- the program is a function from its receiver, context, argument and reply to a reply and an error. A
-- receiver that package reflect panics on, as a nil pointer whose type is to give the service its name,
-- is one that NewService panics on, and with it a registration.
--
-- FreeList.antt and BasicServer.antt are basic_server.go: the free lists of headers over a store of
-- objects, the registry of services, getService and sendResponse. Server.antt has readRequest and
-- ServeRequestContext of server.go and service.call; Server/Steps.antt has ServeCodec, as the steps of
-- the reader loop and of the goroutines it starts, taken in any order. Each response is one step, as
-- the mutex `sending` makes it. Server/Hosts.antt has a server with any number of such connections, and
-- Accept.
--
-- Client.antt is client.go and basic_client.go: Go, send, Call, Close and input over a heap of calls
-- and channels, cut into steps at the mutexes; Client/Moves.antt runs them in any order. The state
-- keeps a history of the signals that calls were given, which the code does not. What the codec
-- reads, or fails to, is an argument of the step that follows.
--
-- ClientCodec.antt has the interface ClientCodec (client.go) as a record, and the client over it: the
-- codec's answers are now those of a codec with a state. Close is two steps, there and in
-- Birpc/Steps.antt: it marks the client under the mutex, and closes the codec after that.
--
-- Json.antt and its children are jsonrpc: the server codec, the client codec and the codec of a
-- connection that carries requests both ways; Json/Encoding.antt has what the other end of a connection
-- makes of a message, as package encoding/json documents it, and Json/Calls.antt follows a call from
-- the client's codec through the server and back. Gob.antt is codec.go and birpc_codec.go.
-- Birpc.antt is the reading side of birpc_client.go, built from the server's and the client's parts;
-- Birpc/Steps.antt is the life of such a connection, the loop and the end of input with the steps of
-- the calls that it serves and of its callers, in any order.
-- BirpcServer.antt is birpc_server.go: any number of such connections over one server, whose free list
-- of requests they share, and the functions that are started when they begin and end. The event hub is a parameter, the record Hub,
-- with what its documentation promises of Subscribe and Publish.
-- Http.antt is the handshake of ServeHTTP (server.go) and DialHTTPPathTimeout (client.go), and Dial; the
-- network and package net/http are the record Net.
-- The packages encoding/json and encoding/gob, and the connection, are parameters: the records Json,
-- IdReader, Encoding, GobIo and Peer, and the lists of decoded messages.
--
-- Examples.antt and its children hold concrete runs.
--
-- Bounds. Numbers of requests are 64 bits wide, and wrap (u64); what depends on their being different
-- is stated for runs of fewer than 2^64 steps, each of which gives out one number at most. There is no
-- fuel: every loop goes over a list, of methods, of pending calls or of events. A panic of the code is
-- `none` or, where steps are run, a flag `crashed`, after which nothing happens.
--
-- Not modelled: log output (debug.go); HandleHTTP and the functions that forward to a default server
-- (server.go), and those of jsonrpc that only put a codec and a client or server together; data races,
-- since the steps are those of the mutexes.
pub mod Base
pub mod Wire
pub mod FreeList
pub mod Context
pub mod Pending
pub mod Service
pub mod Codec
pub mod BasicServer
pub mod Server
pub mod Client
pub mod ClientCodec
pub mod Birpc
pub mod BirpcServer
pub mod Gob
pub mod Json
pub mod Http
pub mod Examples
