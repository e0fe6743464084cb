-- ===== src/Lib.antt =====
-- Aviron is the server of a multiplayer typing race. This development models the core logic of its Go
-- back end, under backend/internal.
--
-- The program. A race-service process holds a room for each race: an actor (room/room.go) that one
-- goroutine runs, with an inbox of events and a channel of broadcasts. Its registry
-- (room/registry.go) finds it by race, forgets it when it ends, and publishes its broadcasts to a
-- message bus. A gateway process holds the WebSocket connections (wsgateway/racehub.go): one hub for
-- each race takes the broadcasts from the bus to every connection. On the way in, frames of clients
-- become events of the room (ws/protocol.go, roombus/adapter.go). A gateway also proxies requests over
-- HTTP (wsgateway/gateway.go) to the process that claims the room in Redis
-- (roomlocator/locator.go). There they go through handlers (race/handler.go) to a service
-- (race/service.go) over Postgres (postgres/race_repository.go), where a room also stores its
-- results, or that it was cancelled. Users sign in for a token (auth/service.go) that a middleware
-- checks. A consumer process takes the samples and the results that the rooms publish to Kafka into
-- Postgres (consumer), and the leaderboard (leaderboard/service.go) reads its pages from there.
--
-- The files.
-- - Base: the shared names, tests, lists, Go's signed integers, and Go's maps with string keys (Dict).
-- - Room/State, Env, Actor, Apply, Run: the room actor, backend/internal/room/room.go with
--   lifecycle.go and events.go. `RoomActor` is the struct. A method that changes it returns the new
--   state. `apply_event` is applyEvent, with a function for each case, `take_turn` a turn of the
--   `select` of Run or of a goroutine at the other end of a channel, and `run` a schedule of them. The
--   actor records each call through an interface, with its error, in `calls`.
-- - Room/Board, Refines: the standings of a race as an abstract board, and the refinement.
-- - Room/Endings, Events, Induction, Results, Inbox: rules to prove what every event and schedule
--   keeps, and what a turn does to the inbox.
-- - Room/Ranks, Settle, Fairness, Racing, Grace, Snapshot, Pending, Returning: what holds of a room.
-- - Shutdown: the end of a race-service process, backend/cmd/server/run.go, beside its rooms.
-- - Rooms/Registry, Rooms/Drain, Rooms/Feed: backend/internal/room/registry.go, the map of rooms with
--   the goroutine that cleans up, as a step relation, drainBroadcast, and feedInbox with the loops of
--   backend/internal/roomrelay/bus.go and of the adapter behind it. Rooms/Buffers: its buffer usage.
-- - Protocol: backend/internal/ws/protocol.go and the inbound half of
--   backend/internal/roombus/adapter.go. Relay: its outbound half, with the subjects and the publishing
--   of backend/internal/roomrelay. Relay/Players and Relay/Inbound: the whole way out of a room, and
--   the whole way in.
-- - Locator: backend/internal/roomlocator/locator.go over an interface of Redis commands, with the
--   laws that Redis documents (Locator/Claims).
-- - Gateway/Routing: backend/internal/wsgateway/gateway.go and discovery.go. `Router` is the struct
--   Gateway, `route` its ServeHTTP up to the answer, and `write_back` the write of resolveTarget into
--   the cache: the lock does not cover the call of Owner before it, so that it is a step of its own,
--   and any other step may come between (Gateway/Routing/Writes). Gateway/Routing/Discovery: its pool of addresses, k8s_discovery.go
--   and config.go.
-- - Gateway/Hub, Gateway/Registry: backend/internal/wsgateway/racehub.go. Gateway/Session: the
--   handshake and the two loops of a connection, backend/internal/wsgateway/endpoint.go.
--   Gateway/Connections: its serveConn, over the registry and all hubs of a process; `take_turns` is a
--   schedule of connections that come and go and of hubs that end.
-- - Race/Data, Race/Repository, Race/Service: backend/internal/race/race.go,
--   backend/internal/postgres/race_repository.go and backend/internal/race/service.go.
-- - Race/Ids, Race/Prompt, Race/Handler: backend/internal/race/id.go, prompt.go and handler.go with
--   dtos.go. A handler takes a `Server` (tables, rooms, what actors were told) to its response and the
--   server that it leaves.
-- - Auth: backend/internal/auth/service.go and handler.go,
--   backend/internal/postgres/auth_repository.go, and the tokens of
--   backend/internal/middleware/auth.go and backend/internal/wsgateway/session_token.go.
-- - Leaderboard: backend/internal/leaderboard/service.go over its repository interface,
--   handler.go, and the rankings of backend/internal/postgres/leaderboard_repository.go.
-- - Http: backend/internal/httpserver and the middleware around it, with every handler behind the
--   routes of a race-service process; `Site` is what they share. Http/Health has the probes of both.
-- - Consumer: backend/internal/consumer, with Consumer/Repository for
--   backend/internal/postgres/workout_sample_repository.go. A loop runs over a list of rounds, each
--   with what it meets, and keeps a log of all that it asks of others, with its end: a dead letter or
--   a commit that fails is on record as that. `passed_in` has the messages passed to CommitMessages,
--   `committed_in` those for which it succeeded, and `covers` is what Kafka makes of a commit, one of
--   all lower offsets.
-- - Kafka: backend/internal/kafka/producer.go, and its way through the consumer.
-- - Tests: the theorems at concrete inputs.
--
-- What is a parameter. `Env` has the clock, the order in which Go walks a map (a permutation of its
-- values), the errors of the actor's interfaces and encoding/json. `Postgres` has the server's
-- clock and the error of each exchange; a transaction whose commit returns an error is taken to
-- have been rolled back. `Redis` has the commands of a server that may fail. `Nats` has
-- encoding/json and the server behind the bus, `Copying` what a COPY into Postgres meets, `Jwt`,
-- `Libraries`, `Codec`, `Encoders` and `Decoders` have JWT, bcrypt, strings, the random sources and
-- encoding/json. What Kafka, the clock and Postgres answer to the loops of the consumer, and the
-- clock and the locator to a request of the gateway, is part of a round and of a request. Nothing
-- is assumed of the parameters but what a theorem names, by a hypothesis or by a record of laws
-- (`RedisLaws`, `JwtLaws`, `Carries`).
--
-- Bounds. Durations and instants are nanoseconds. Counters (ranks, ticks, disconnects, races run)
-- are unbounded, as each grows by one at a time; words and sequence numbers of clients are signed
-- integers that are only compared. The counter of the round robin wraps around at 64 bits, and so
-- does the offset of a page of the leaderboard. The channels have the capacities of the source: 64
-- events in an inbox, 16 broadcasts, 8 messages for a connection, 64 for a subscription. A float64
-- is only carried around. The text of a port is written with fuel for ten digits, enough for an
-- int32. Every other loop is structural; the five attempts of CreateRace are counted down as in the
-- source.
--
-- What is not modelled. Logging, tracing and metrics; the timeouts of a single WebSocket; the
-- batches that the writer of Kafka makes; the relay of alerts to Telegram, configuration but for the
-- pool of addresses, and the wiring of the commands. Of the SQL, the statements that are modelled are functions
-- on the rows of the tables, with the keys and references of backend/migrations; rows that an ORDER
-- BY does not tell apart stay in the order of the tables. An offset of Kafka is in the one partition
-- that the model follows, and a reader is not set back in it.
pub mod Base
pub mod Room
pub mod Gateway
pub mod Race
pub mod Rooms
pub mod Protocol
pub mod Relay
pub mod Shutdown
pub mod Auth
pub mod Consumer
pub mod Http
pub mod Kafka
pub mod Leaderboard
pub mod Locator
mod Tests
