-- ===== src/Lib.antt =====
-- TinyTelegram, a chat system of several services, as functions and relations with proofs.
--
-- The parts and how they interact. A browser keeps a WebSocket to a gateway. The gateway hands each
-- message to the message service, acknowledges it, and sends it on to the receiver, on a channel of
-- its own or through the receiver's gateway, which it finds under a presence key in Redis. The
-- message service numbers a message for both of its users (PTS, counters in Redis), stores it in
-- Postgres, and serves what a client has missed. Python scripts draw the results of load tests.
--
-- The files, with the code that they model:
-- - Base and its children: lists, maps (Dict), calls that return a value or an error and change a
--   state (Exec), signed numbers (Int), Boolean tests. A function that returns `(T, error)` is an
--   `Exec`, and a Go panic or a Python exception is an error too.
-- - Proto: the messages of proto/gateway.proto.
-- - MessageService/Keys, Redis: message-service/store/redis.go. `allocate_pts_with_wait` is
--   AllocatePTSWithWait; Redis/Allocation has what it hands out.
-- - MessageService/Schema: message-service/store/migrations, the table and its constraints.
--   Schema/Coverage and Schema/Collision have what the constraints exclude and what they admit.
-- - MessageService/Migrations: runMigrations of message-service/store/postgres.go.
-- - MessageService/Startup: InitRedis, InitPostgres and `main` of message-service/main.go.
-- - MessageService/Http: the HTTP handlers of message-service/handler.
-- - MessageService/Postgres: INSERT as the service uses it, and isUniqueViolation.
-- - MessageService/Persist, Diff, DiffQuery: message-service/grpc/server.go. `persist_message` is
--   PersistMessage, `get_diff` is GetDiff, `diff_query` is its SELECT statement. Persist/Storage,
--   Diff/Response and DiffQuery/Pages have the proofs.
-- - MessageService/DbCheck: message-service/cmd/dbcheck/main.go. DbCheck/Exact is about the duplicate
--   queries, and DbCheck/Gaps has the gap query, Gaps/Found what it reports.
-- - MessageService/Cluster: runs of calls with failovers of Redis between them. MessageService/Pool has
--   what a pool of connections to Redis does to them.
-- - MessageService/Concurrent: PersistMessage as four steps, one for each round trip, so that calls
--   interleave. `advance` is one step of a call, Concurrent/Alone runs the four in a row,
--   Concurrent/Admitted and Concurrent/Overtaken have what holds and what does not when they mix.
-- - MessageService/Sync: a client that asks for page after page of GetDiff. `catch_up` is that loop, which
--   the README describes and no file has; Sync/Missed and Sync/After have the rows that it must get,
--   Sync/Complete what it gets from one table, and Sync/Runs what it gets after any calls.
--   Sync/AnyOrder is about the order of the rows of the table, with DiffQuery/Rows.
-- - Gateway/Conns: gateway/grpc/server.go. `Conns` is connMap with the channels made so far;
--   Conns/Step has the goroutines, one access at a time, and Conns/Handover what happens when a
--   connection ends beside other work for its user.
-- - Gateway/Session: gateway/handler/websocket.go. `web_socket_handler` is WebSocketHandler;
--   Session/Pace has the order of what it does, Session/Acks what it acknowledges, and Session/Cleanup
--   what it leaves behind.
-- - Gateway/Delivery: a message from the reply of PersistMessage to the connection of its receiver.
--   Delivery/Across has the way through the client of another gateway.
-- - Gateway/Presence: the presence keys of gateway/store/redis.go, as handlers on several gateways and
--   the goroutine of StartHeartbeat use them. Gateway/Expiry has how long a key lives,
--   with ticks five seconds apart and SETs that take effect some time after them.
-- - Gateway/Startup: gateway/taskmeta.go and gateway/main.go. `resolve_self_addr` is ResolveSelfAddr;
--   Startup/Registry has `main` with RegisterGateway and StartGatewayHeartbeat.
-- - Peers: the clients for gateways. Peers/Cache is gateway/peer/client.go, and Peers/Racing has calls of
--   its GetOrConnect that interleave. Peers/Discovery is message-service/grpc/client.go with one turn of
--   its loop for each answer of HGETALL.
-- - WebClient: web-client/public/app.js. `Client` is the state of TinyTelegramClient;
--   WebClient/Runs has what holds over time, WebClient/Acks how acknowledgements are matched,
--   and WebClient/Reload what a page load brings back, the login form included.
-- - WebClient/Page: the page beside that state. `View` has both, `show_step` is what an event does to
--   them; Page/Bubbles and Page/Shows have what stands under one id, Page/Since the page from one load
--   to the next, Page/Hidden and Page/Restored the messages that a load brings back, and Page/Status
--   the status line and the bar.
-- - WebClient/Sent: messages that a client sends, the handler of its connection, which Session/Acks
--   follows, and the acknowledgements that come back.
-- - WebServer: web-client/server.js. `handle` is the handler of a request, WebServer/Paths has what Node
--   makes of its path, WebServer/Below and WebServer/Climb which files it reads.
-- - Scripts/Python, Figure, Points: JSON values, figures as lists of calls, k6 output.
-- - Scripts/Consistency: scripts/experiment4/plot_consistency.py.
-- - Scripts/Failover: scripts/experiment3/plot_failover.py.
-- - Scripts/TimeSeries: scripts/experiment2/plot_timeseries.py.
-- - Scripts/Bars: scripts/experiment2/plot_results.py and plot_bottleneck.py.
-- - Scripts/Gateways: scripts/experiment1/plot_results.py.
-- - Scripts/LoadTests: the tests that the figures are drawn from. LoadTests/Failover is
--   scripts/experiment3/failover_test.js, LoadTests/Consistency is
--   scripts/experiment4/consistency_test_simple.js, LoadTests/Writes has the two tests of
--   scripts/experiment2, and LoadTests/Output the lines that k6 writes.
-- - Scripts/Deck: scripts/generate_ppt.py. Deck/Pptx has its helpers, Deck/Charts its charts,
--   Deck/Slides the ten slides, Deck/Whole the presentation, and Deck/Layout where everything
--   stands. Lengths are whole thousandths of an inch.
-- The modules named Sim and Tests run the code on small inputs.
--
-- What is outside of the repository is a parameter. Redis and Postgres are records of operations
-- whose laws are the documented behaviour: INCR returns a number above the old one, WAIT counts the
-- replicas that have all earlier writes of its own connection, and an INSERT that succeeds adds its
-- row, while one that fails adds none, or its row if only the reply is lost. That one connection carries all commands is a hypothesis of its own
-- (IsSticky). The Services of a gateway have no laws but for presence keys (Presence: SET, DEL and
-- GET; Expiring: SET and the time after it; a SET that fails may have taken effect), and hashes have those of HSET (Hashes). A call of a
-- client arrives at the gateway that serves its address (Serves). Whether grpc.NewClient fails is
-- decided by the address (Dials). That every GetDiff of a client is answered is a hypothesis (Answers),
-- and so is that a gateway reads the frames of a client as they were written (Readable).
-- k6 writes an entry for each sample that a test adds (Output), and opens a connection at most once
-- (OpensOnce). Floats are a record with an order.
--
-- Bounds. Every loop that is modelled runs over a list or a count by structural recursion, so
-- nothing runs on fuel: a loop without an end is a function of what it receives, turn by turn.
-- Counters are natural numbers: they start at 0, grow by one and are int64 in the code. The page of
-- GetDiff and the buffer of a channel have the bounds of the code (1000, 64), and a client that catches
-- up may ask for any number of pages: as many as it has missed messages are enough.
--
-- Not modelled: the ports that are opened, the rest of the start of a gateway, logging and printing,
-- the generated gRPC code, the time that commands take (but for the SET of a heartbeat, in
-- Gateway/Expiry), times and what is typed on the page, the load that k6 is asked for, the other load
-- scripts, the cloud resources, and how matplotlib and python-pptx draw what they are called with.
pub mod Base
pub mod Proto
pub mod MessageService
pub mod Peers
pub mod Gateway
pub mod WebClient
pub mod WebServer
pub mod Scripts
