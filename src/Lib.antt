-- ===== src/Lib.antt =====
-- Q-Browser: a browser host that runs signed packages in supervised worker processes.
--
-- The host (apps/host) keeps the open tabs of a window and starts a worker for the application in a
-- tab. A supervisor (runtime/worker) watches each worker and restarts it or rolls its package back.
-- It routes the addresses of an application to the engine that shows them (runtime/router), and
-- computes what a package may do from its manifest and the policy of the host (runtime/policy). A
-- worker asks the brokers of the host (runtime/broker) for capabilities; some of them need a grant
-- that a user gesture gave to one request. The two talk in frames of JSON over a pipe (runtime/ipc).
--
-- Base holds what the other files share: lists and Boolean tests over the native numbers, texts as
-- lists of code units, association lists for hash tables, and signed integers.
--
-- Worker is runtime/worker/WorkerSupervisor.h and .cpp. A function has the name of the method, takes
-- the state first and returns the new one with the callbacks called; `step` and `run` are one call
-- of any method and a history of calls. Identifiers wrap at 2 ^ 64; times are unbounded, so the
-- overflow of a `qint64` sum of times is not modelled.
-- A worker that fails again after its health window is restarted again in the same activation;
-- docs/plans/2026-08-18-q-browser-mvp-design.md and 2026-08-23-browser-shell-design.md beside it
-- speak of one restart only. The model follows the code.
--
-- Broker.Gesture is runtime/broker/UserGestureGrantStore.h and .cpp. The lock of the store makes an
-- operation one step; the time that the clock shows is an argument of the operation. Pointers to
-- the store are numbers that name it. A hash table is an association list with one entry for a
-- key. Session and grant numbers wrap at 2 ^ 64.
--
-- Tabs is apps/host/BrowserTabModel.h and .cpp: Tabs the types, Tabs.Title `canonicalTitle`,
-- Tabs.Methods the methods, Tabs.Restore `replaceFromValidatedSnapshot`. A method returns the model,
-- the signals that it emits, and its result. The table of control characters of Qt is an argument
-- `is_control`, and the identifiers that `QUuid::createUuid` draws are an argument, a list that the
-- loop of `generateId` goes through; where the list ends first, the method has not returned yet and
-- the result is `none`. The tests that an enumerator is one of its type always hold here. The texts
-- for screen readers (`accessiblePresentationAt`) are not modelled, and neither are the calls that a
-- slot makes while a method emits a signal, which the flag of the model refuses.
--
-- Router.Path is runtime/router/NormalizedPath.h and .cpp, Router.Registry is RouteRegistry.h and .cpp
-- of that folder: `parse`, `add` and `match_path` are `NormalizedPath::parse`, `RouteRegistry::add`
-- and `RouteRegistry::match`. The UTF-8 decoder of Qt is an argument `utf8`, `none` where it
-- reports an error; a match that is not valid is `none`.
--
-- Policy is runtime/policy/HostPolicy.h and .cpp, Policy.Engine is PolicyEngine.cpp of that folder:
-- `validated_network` and its like validate the policy of the host, `intersect` grants what it and
-- the permissions of a manifest (runtime/package/Manifest.h) have in common. `QUrl::toAce` and the
-- matches of the two regular expressions are arguments; sets are lists. The keys of rules are
-- compared part by part, not as one string.
--
-- Ipc.Scanner and Ipc.Frame are runtime/ipc/FrameCodec.h and .cpp: `scan` is the scanner of JSON
-- texts, `encode` and `feed` the methods of the codec. The UTF-8 decoder, the JSON parser and the
-- JSON printer of Qt and `QChar::isDigit` are an argument, the record `QtJson`. `Ipc.Frame.Stream`
-- is what a stream of bytes means as a whole. `scan` runs on fuel, twice the length of the text and
-- one: every second call of the parsers reads a character. `feed` runs on fuel, the number of its
-- bytes and one: a round that is not the last takes a frame. `none` stands for the lack
-- of it. The reference `stream` has the fuel of `feed`.
--
-- Ipc.Json is what the program uses of `QJsonObject`, Ipc.Payload and Ipc.Protocol are
-- runtime/ipc/ProtocolMessage.h and .cpp: the validators, `parse`, `to_json` and the makers of
-- messages. The table of control characters and the conversions of numbers are an argument, the
-- record `QtText`.
--
-- Ipc.Session is runtime/ipc/IpcSession.h and .cpp: sending, the table of tracked requests and
-- `processFrame`. What the transport says of a write and the time are arguments. The loop of
-- `receive` and `poll` that waits for bytes, feeds the codec and queues the messages, the expiry of
-- deadlines, the asynchronous writes (`submitSend`, `submitRouteLoad`), for which alone a request
-- has phases, and the handler of page metadata are not modelled.
--
-- Capability.Pending is apps/worker/PendingCapabilityQueue.h and .cpp, Capability.Dispatch is
-- runtime/broker/CapabilityBroker.h and .cpp. A service is an argument, a function of the state
-- of all services; the broker can change that state through a service only.
--
-- Apart from those, no function runs on fuel: each loop is a recursion over a list.
--
-- Not modelled: what is mainly Qt, Windows or library calls (widgets, Qt WebEngine, pipes, sandbox,
-- archives, signatures), and the parts of the program that the list above does not name.
pub mod Base
pub mod Worker
pub mod Broker
pub mod Tabs
pub mod Router
pub mod Policy
pub mod Ipc
pub mod Capability
