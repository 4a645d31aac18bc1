-- ===== src/Lib.antt =====
-- scion-time is a time service: NTP and CSPTP clients and servers over IP and SCION, with NTS. A
-- client exchanges packets with servers (core/client), computes offsets from the four times of an
-- exchange (net/ntp/ntp.go, net/csptp/csptp.go), filters them (core/client/filter_flash.go) and
-- combines those of several paths and servers (core/measurements, base/timemath). A server
-- (core/server) answers requests and keeps timestamps for the interleaved mode. NTS
-- (net/nts/nts.go) adds extension fields with cookies that the server makes (net/ntske).
--
-- Files and what they model:
--   Ntp/Time64: timestamps and Time64FromTime, TimeFromTime64, Before and After of net/ntp/ntp.go;
--     Ntp/Offset: ClockOffset, RoundTripDelay; Ntp/Packet: EncodePacket, DecodePacket; Ntp/Header:
--     the accessors of the first byte; Ntp/Validation: net/ntp/validation.go.
--   Csptp/Timestamp, Message, RequestTlv, ResponseTlv, Timing: net/csptp/csptp.go.
--   Timemath: base/timemath/timemath.go. Measurements: core/measurements/measurement.go.
--   LuckyPacket: core/client/filter_flash.go.
--   Nts/Packet, Encode, Decode, Buffer, Process: net/nts/nts.go, with the authenticated encryption
--     of the package miscreant as the interface Nts/Aead.
--   Ntske/Cookies: net/ntske/cookies.go; Ntske/Sealed: its EncryptWithNonce and Decrypt, and
--     newNTSKEMsg of core/server/ntske.go; Ntske/Provider: net/ntske/provider.go; Ntske/Records:
--     net/ntske/ntske.go; Ntske/Fetcher: net/ntske/fetcher.go, over TCP.
--   Server/Item: handleRequest and updateTXTimestamp of core/server/server.go, for a client that
--     has an item in the timestamp store; Server/Store: both for the store of all clients;
--     Server/Queue: tssQueue with the functions of container/heap that the store calls; Server/Ip: an
--     iteration of runIPServer of core/server/server_ip.go.
--   Client/Ip: measureClockOffsetIP of core/client/client_ip.go; Client/Measure: MeasureClockOffsetIP
--     and collectMeasurements of core/client/client.go. The object behind the field Filter is what Do
--     returns after a sequence of calls, and that behind Histogram is which values it accepts.
--   Crypto: RandIntn and Sample of base/crypto/crypto.go.
--   Base: shared names, signed and fixed-width integers (Base/Int), bytes (Base/Bytes), checks by
--     table (Base/Tables), results of calls (Base/Run). GoTime: package time. Sorting: package
--     slices, as the interface Sorter that insertion sort meets. Tests: runs at concrete inputs.
--
-- Conventions: a time is its number of nanoseconds since the Unix epoch, without a bound; a
-- duration is an int64, whose operations wrap, or saturate in Sub, as in Go. A slice is the list
-- of its bytes. A function that can fail or panic gives an Option, or a Run that tells errors,
-- panics and missing fuel apart. Clock readings, random bytes and the amounts that Read delivers
-- are arguments. A method that holds a mutex is one step.
--
-- Fuel: the loops of the cookie decoders have the length of the input, since each field takes four
-- bytes; that of DecodePacket of net/nts too, since a field of a positive length moves it on;
-- ReadData is given its fuel, for which the number of records, or any number above the length of
-- the stream, is enough; the loops of RandIntn are given theirs, and any number above the runs that
-- read a refused word is enough; the loop of handleRequest has 9 attempts, one more than the entries
-- of an item; measureClockOffsetIP retries at most once, and its loop runs on the number of retries left.
--
-- Not modelled: sockets, TLS, QUIC and the SCION libraries (net/udp, net/scion, and what calls them
-- in core/server and core/client), drivers (driver), metrics and start-up, which are input and
-- output; floating-point code (core/sync, core/client/filter_ntimed.go).
pub mod Base
pub mod GoTime
pub mod Crypto
pub mod Ntp
pub mod Csptp
pub mod Sorting
pub mod Timemath
pub mod Measurements
pub mod LuckyPacket
pub mod Nts
pub mod Ntske
pub mod Server
pub mod Client
pub mod Tests
