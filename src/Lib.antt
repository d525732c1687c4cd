-- ===== src/Lib.antt =====
-- xbslink-ng: two bridges carry the System Link traffic of Xbox consoles between their networks over
-- UDP. Each captures Ethernet frames, wraps them in messages that a shared key may authenticate, and
-- injects the frames that it receives.
--
-- The parts and where they stand:
--   Base: the shared names: tests, lists, byte slices (make, copy), big-endian bytes, 64-bit integers,
--     and the rulesets sizes and appends.
--   Protocol (internal/protocol/protocol.go): the codec, as functions from a codec to the codec after
--     the call and the result. `encode`, `decode` are the methods of that name; `decode_message` is
--     Decode; encode_frame to encode_bye are EncodeFrame to EncodeBye. HMAC-SHA256 is the parameter
--     `Mac`, of which the code relies on its 32 bytes.
--     The state and the constants of Protocol, Transport and Bridge stand in Protocol/Wire, Transport/Core
--     and Bridge/Core.
--   Net: UDP addresses and addrEqual (internal/transport/transport.go, internal/bridge/bridge.go).
--   Transport (internal/transport/transport.go): WaitForPeer, Connect, attemptHandshake, Send, Recv,
--     SendBye and Close on the record of the transport; Transport/Open has New, over a resolver and
--     sockets that are arguments.
--   Bridge (internal/bridge/bridge.go): the handlers of recvLoop, sendLoop and pingLoop on the state that
--     the goroutines share; Bridge/Rtt has the statistics, Bridge/Begin the first part of Run, Bridge/Run
--     the rest with its goroutines as a step relation, Bridge/Buffer the read buffer and the slices of
--     it in the queue; Bridge/Carry sends a series of frames through it. Elsewhere `frames_to_inject`
--     holds the frames as they were when they were queued.
--     Bridge/Capturing has the capture of a bridge and the loops that wait for it, Bridge/Report the
--     statistics for the terminal and Bridge/Console the key and the ticks that print them.
--     Bridge/Run/Trace reads off a run what it captures, writes and queues; Bridge/Run/Voice is about what
--     a run sends, Bridge/Run/Feed about what it takes, Bridge/Run/Guarded about the key
--     in both, and Bridge/Run/Tunnel puts two runs together.
--   Main (cmd/xbslink-ng/main.go): Main has the reconnection loop of runBridge and its delays, Main/Flags
--     main, runListen, runConnect and runInterfaces, Main/Setup runBridge up to its loop with
--     createEmitter and runForegroundDiscovery, Main/Background runBackgroundDiscovery; Main/Key follows
--     the key of the flag through the set-up, the loop and the runs of its bridges.
--   Events (internal/events): the events and the writer of JSON lines; Events/Async has the asynchronous
--     writer as a step relation. Bridge/Diagnostics says which events a bridge hands to its emitter,
--     and Bridge/Diagnostics/Reported follows them to the file.
--   Discovery (internal/discovery/discovery.go, internal/capture/capture.go): the loop of Discover and
--     the search for an interface; Discovery/Session has Discover with the opening of its handle.
--   Capture (internal/capture/capture.go): DecodeEthernetFrame, and the frames that the simulator builds
--     (test/e2e/xbox-sim/main.go); Capture/Mac has ParseMAC, Capture/Handle New, ReadPacket, WritePacket
--     and Close over the answers of pcap, Capture/Listing the list of the interfaces.
--   Config (internal/config/config.go): the whole package; the file system and encoding/json are the
--     arguments `Os` and `Json`.
--   Logging (internal/logging/logging.go): the levels, the lines and the filter.
--   Latency (test/e2e/xbox-sim/latency.go): the delays of the simulator.
--   Samples: concrete values for the Tests modules.
--
-- How the parts meet: the transport and the bridge share one codec, which is a field of the transport
-- here; a bridge holds its transport; the reconnection loop takes what a run does to the codec, and
-- what it returns, as an argument, which Main/Key and Main/Reconnect tie to runs of a bridge. The two
-- ends of a connection meet in Protocol/RoundTrip (`Paired`), on which the handshake and the forwarding
-- of frames rest; two whole runs meet in Bridge/Run/Tunnel, where the frames in the queues are values,
-- and Bridge/Buffer says when the slices in the code are not. The set-up in Main/Setup calls Logging,
-- Config, Discovery and Capture, and its result is what the loop starts with; Main/Background calls
-- Discovery, Config and Capture, and sets the capture of a bridge in Bridge/Capturing.
--
-- Conventions: a handler returns the new state, the datagrams written and the events. What the sockets,
-- the clock and the context answer is an argument: one `Round` for each turn of a loop of the
-- transport, one `Attempt` for each pass of Connect, one `Connection` for each pass of runBridge, one
-- `Turn` for each packet of Discover. A loop that has used up its list answers `waiting`, which is no
-- return. Integers of 64 bits are numbers below 2^64 with the wrap-around written out; float64 is the
-- parameter `Float64`, exact below 2^53; strings.ToLower is an argument of the search for an interface.
--
-- An operation that only asks pcap, the file system or a socket takes their answers as arguments
-- (`Pcap`, `Os`, `Udp`, `World`); Go's net.ParseMAC, net.HardwareAddr.String and the verbs of fmt for
-- integers are written out, in Capture/Mac and Base/Text. Text is a list of code points.
--
-- Not modelled: which log lines the program writes, the locks, the insides of sockets and pcap, the
-- encoding of JSON, a write of an event that the file refuses (and after which the encoder of
-- encoding/json writes no more), SetCapture on nil (which nobody calls), the parsing of the package flag,
-- the rest of the simulator, and the timing of tickers.
pub mod Base
pub mod Protocol
pub mod Net
pub mod Transport
pub mod Bridge
pub mod Main
pub mod Events
pub mod Discovery
pub mod Capture
pub mod Latency
pub mod Logging
pub mod Config
pub mod Samples
