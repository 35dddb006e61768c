-- ===== src/Lib.antt =====
-- Verification of open-zone, a DirectPlay8 lobby server for one game's multiplayer browser.
--
-- Clients connect through the native DirectPlay bridge (internal/dp8shim), and each of their packets is
-- one XML-ish text. The transport engine (internal/dp8) parses it and hands it to the protocol engine
-- (internal/proto), which reads and writes two stores (internal/state): the sessions that are online,
-- and the games that clients host. The answers go back to the client as texts.
--
-- Texts are lists of bytes, maps are association lists with one entry for each key, and unsigned
-- machine integers keep their wrap-around. Each store method holds the store's mutex for its whole
-- body, so a method is one function from store to store, and an interleaving is a list of calls.
--
-- Base: lists, options, texts and maps; the functions of Go's `strings`, `strconv` and `net` packages
--   that the code calls (Base/Strings for TrimSpace, TrimRight, TrimSuffix, HasPrefix, Index and
--   IndexByte, Base/Numbers for FormatUint and `%d`, `%08x`, Base/ParseIp for net.ParseIP, IsLoopback
--   and IsPrivate); Base/Attrs is the attribute loop that both parsers contain.
-- State/Time: time.Time and time.Duration, with the saturation of Sub.
-- State/Players: internal/state/player_store.go. State/Players/Sweep is about SweepEvict and Count,
--   State/Players/Overdue about who is due in a sweep, Lifetime about sequences of calls.
-- State/Items: scanSelfClosingElements and parseAttrs of internal/state/host_store.go.
-- State/Addresses: parseHostIpList, hostAdvertisedIPs, isPrivateIP and hostBrowseIPs of the same file.
-- State/Hosts: HostStore, getOrCreateLocked, SetLoc, SetObservedRemoteIP and ApplyHostData.
--   State/Hosts/Rids is about row ids, Calls about sequences of calls, Payloads, Deletions and Items about
--   what ApplyHostData does with each kind of item, Observed about the address that the server sees,
--   Contents about what a store holds whatever the order of Go's map, Unordered about such a store, a
--   quotient, and two calls on it, Orders about calls of different clients in any order.
-- State/Rows: VisibleGamesCount, GamesRows and RowByRid. Listing is about the loop of GamesRows, Lookup
--   about RowByRid, Order about the order of the map, Columns about the items of a row.
-- Proto/Xmlish: Parse and MakeZText of internal/proto/xmlish.go, with Head and RoundTrip about texts
--   that are printed, Opened about texts with a body, Scan about what scanSelfClosingElements makes of
--   printed elements, and Shape about every accepted text.
-- Proto/Markup: the texts that the handlers format, xmlEscapeAttr and xmlEscapeText.
-- Proto/Clock: SecondsSince2000UTC of internal/proto/util.go and the ids that handleConnect draws from
--   the clock.
-- Proto/Engine: NewEngine, Stats, Handle and the handlers of internal/proto/protocol.go. Wire says what
--   a client finds in an answer, Answers and Known that every handler's answers have it, Columns is
--   about the rows, Effects and Serve about the stores, Fallback about the order of attributes, Echo
--   about what a client reads in a fallback answer, Cases about the ways that Handle can go. Handlers
--   has the handlers but for `handlePage` and the fallback, which stand in Dispatch with Handle itself.
-- Dp8/Address, Dp8/Summaries: the functions of internal/dp8/engine.go on the texts of events: the remote
--   address of a client, and what the log says of a message.
-- Dp8/Engine: the engine of the same file: handleEvent, the send queue, sendWorker and playerSweeper.
--   Steps is the relation of one step, Runs has the invariants, Evicted and Silence are about evicted
--   clients, Answered about the answers to a packet, Delivery about the queue, Served about both, Addresses about the
--   addresses that are kept, Addressees about who gets messages, Hosted about the address of a hosted
--   game. Cases has the ways that an event can go, Polls the loop of Run over the bridge, Serving how
--   its events make a run of steps.
-- Dp8/Lifecycle: the structured log of the same file, as entries; Messages has those for what a client
--   sends. Dp8/Telemetry: its records for the packet log.
-- Shim: internal/dp8shim/dp8shim_windows.go, with Answers about PopEvent and Safe about panics.
-- PacketLog: internal/packetlog/packetlog.go; PacketLog/Json is what encoding/json makes of a record, and
--   PacketLog/Lines is about the file; PacketLog/Reader reads it back.
-- Autoupdate: internal/autoupdate/sink.go.
-- Config: Load of internal/config/config.go. News: the handler of internal/news/server.go and the text of
--   templates/news.tmpl; Layout is about its lines, LineEnds about ensureCRLF, Served about the answers.
-- Proto/Ids, Proto/LogFile: MakeRunID, ToHex and ResetLogFile of internal/proto/util.go.
-- Startup: main and preflightPort of cmd/open-zone/main.go, as the calls that they make. Order is about
--   what comes before the start of the server, Exits about what is left undone, Chains about calls in
--   order; Shutdown has the loop of Run and the shutdown watch after a signal, Deadline is about the
--   watch, Late about the loop.
-- Tests: runs at concrete inputs.
--
-- Bounds and fuel. The attribute loop runs on fuel, the length of the text it reads: each round removes
-- at least the two bytes of the equals sign and the quote, so more fuel changes nothing. The scan of a
-- host's payload and the search for an address run on the length of the text in the same way, and so do
-- the counts that the log takes; a number is printed with one unit of fuel more than the number. All
-- other functions are structurally recursive. The send queue holds 2048 messages.
--
-- Steps. `handleEvent` runs in one goroutine, so an event is one step, and each message that it offers
-- to the queue is another; a send or a sweep can fall between any two of them. An event's step reads
-- the player store once: a sweep in the middle of an event is the same as one before or after it, since
-- the protocol engine does not read the players. The logs are functions beside the steps (Dp8/Lifecycle
-- and Dp8/Telemetry): nothing reads them back.
--
-- Parameters: what the viper library answers, and whether a directory can be created, in Config; the
-- exports of the native bridge and what its procedures return, in Shim and Dp8/Engine/Polls, where every
-- answer is possible; the readings of the clock, in Dp8/Engine; whether files, ports and the library can be
-- opened, in Startup; what the news template makes of the data, in News.serve, where Layout has the text of
-- the template in the repository.
--
-- Not modelled: the HTTP server's own work and its shutdown, and the close of the sink's listener,
-- after a signal; the parsing of the embedded template; the native bridge in C++; NowTS, which reads
-- the clock. A file that the packet log has opened takes every write. The `headers` argument of
-- GamesRows and RowByRid is unused there.
pub mod Base
pub mod State
pub mod Proto
pub mod Dp8
pub mod Config
pub mod News
pub mod Shim
pub mod PacketLog
pub mod Autoupdate
pub mod Startup
mod Tests
