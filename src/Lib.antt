-- ===== src/Lib.antt =====
-- A model of ChatRoom, a distributed chat service in Go: clients hold WebSocket connections to
-- gateway nodes, messages go from a gateway to Kafka, services give them identifiers and sequence
-- numbers, and they come back to the gateways by Redis Pub/Sub. Go's integers are natural numbers
-- with the wrap-around written out; maps are association lists; a function that returns an error
-- returns a Result. Code of other projects is a record of operations over an abstract state, taken
-- as a parameter, with its documented laws as a record where a theorem needs them.
--
-- Prelude: tests, lists, results, integers, Go's maps (Dict) and UTF-8 (Utf8). Words: int64 and
--   uint64, with shifts and masks.
-- Snowflake (utils/snowflake/snowflake.go): `new_generator`, `next_id`, `parse` are NewGenerator,
--   NextID, Parse. The clock is the list of the readings that a run takes; waitNextMillis runs down
--   that list, so it ends, with `none` if no later reading is left.
-- Redis (internal/pkg/redis/client.go): the commands of go-redis are the parameter `Server`;
--   Redis.Memory is an instance.
-- Gateway.Connection and Gateway.Manager (internal/pkg/gateway/connection.go, manager.go): objects
--   lie on a heap, for a connection outlives its entry in the manager's map.
-- Gateway.Handler (internal/pkg/gateway/handler.go): upstream messages into Kafka.Producer,
--   downstream messages to the connections of a guild, and disconnection through the manager. What
--   other goroutines do between the sends of one message is a parameter, `others`. Gateway.Pumps has
--   the loops of the same file: `write_round` is a round of writePump, `read_pump` is readPump over
--   what the socket gives, `send_error` and `receive_messages` are sendError and receiveMessages.
-- Kafka.Producer and Kafka.Consumer (internal/pkg/kafka/producer.go, consumer.go): loops run on the
--   number of rounds that Go's bound allows, maxRetries + 1, and none where it is negative.
-- LoadBalance (internal/pkg/nginx/loadbalance.go): `get_next_backend` is GetNextBackend.
-- RateLimit (middleware/ratelimit/ratelimit.go): `allow_n`, `get_remaining`, `reset`; the division
--   that panics in Go is none.
-- Services.Guild and Services.Message (internal/service/guild.go, message.go), over the interfaces of
--   internal/repository: a database is a parameter, with documented laws where a theorem needs them.
--   Services.Message.Query has the query of FindByGuild as a relation, and a table that answers it.
-- Jwt (middleware/jwt/jwt.go): the JWT library is the parameter `Library`. Services.Auth
--   (internal/service/auth.go): registration, login and validation of tokens over Jwt.
-- HashRing (utils/consistenthash/consistenthash.go): `add`, `remove`, `get`, `get_n`. Loops run on the
--   number of replicas or of keys, as in the source.
-- Http: a handler changes the state of the program and the context of its request; a middleware is
--   given the handlers after it. Http.Bearer (internal/api/middleware.go, middleware/auth/auth.go):
--   JWTAuth and AuthMiddleware. Http.Limits: RateLimit and RateLimiterByEndpoint over RateLimit.
--   Http.Observing: Logger, CORS, Recovery. Http.Handlers (internal/handler): the handlers over the
--   interfaces of the services. Http.Routes (internal/api/router.go): which handler serves a route.
-- Grpc (internal/pkg/grpc): the four servers, over the gateway's manager, the repositories and the
--   message service.
-- Main (cmd/main.go): `consumer_handler` is the handler of the Kafka messages and `serve_ws` the route
--   /ws; Main.Delivery puts the parts together. Gateway.Wire has the documented behaviour of protobuf.
-- Numbers (utils/math.go): loops recur on the accessibility of their counter, so they need no fuel.
-- BloomFilter (utils/bloomfilter.go): the bit set, murmur3 and floating-point numbers are parameters.
-- WorkerPool (utils/worker_pool.go): a state machine whose actions are the steps of the goroutines;
--   a schedule is a list of them, and which jobs end is a parameter, `ends`.
--
-- Not modelled: logging but for the levels of Logger, configuration, generated protocol code,
-- connecting to brokers and databases, gorm's other queries, deadlines of sockets, and the tickers that
-- call the operations.
pub mod Prelude
pub mod Words
pub mod Snowflake
pub mod Redis
pub mod Gateway
pub mod Kafka
pub mod LoadBalance
pub mod Numbers
pub mod BloomFilter
pub mod WorkerPool
pub mod Http
pub mod RateLimit
pub mod Services
pub mod HashRing
pub mod Jwt
pub mod Main
pub mod Grpc
