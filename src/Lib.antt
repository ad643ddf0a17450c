-- ===== src/Lib.antt =====
-- device-handler: a service that receives the uploads of measuring devices over HTTP, finds the
-- device and its channels in a cache of the REST API's records, and publishes the measurements in
-- batches to NATS JetStream.
--
-- The parts, and the files that model them:
-- - internal/cache/device_cache.go (DeviceCache, DeviceUpdateStore, key, ResolveChannelIDByTag,
--   UnmarshalJSON): Cache.antt and Cache/Wire.antt; Cache/Cells.antt runs its two writers in any
--   order, each being one section under the mutex, and Cache/Slices.antt has UpsertChannelMapping
--   on the slice that the cache shares with the records it returned. The map is an association list
--   by key (Dict.antt); its order stands for the order of a map iteration, which no result below
--   depends on, since the one search over all records is used only if it finds exactly one.
-- - internal/cache/syncer.go (InitialLoad, pollOnce, ReadyStatus): Syncer.antt; Syncer/Ticker.antt
--   is the loop of Start. The REST client and the clock are the record SyncClient over a state of
--   the outside world.
-- - internal/device/types.go and registry.go, internal/telemetry/model.go (BuildTelemetry,
--   Registry): Device.antt, Device/Registry.antt, Telemetry.antt. A float32 is its bit pattern.
-- - internal/publish/buffered.go (Enqueue, flush, dequeueReadyBatch, handlePublishFailure,
--   backoffDelay): Publish.antt. Each section under the mutex is one function; Publish/Steps.antt
--   runs them as events in any order, as the goroutines may. Publish/Drain.antt runs the ticks of
--   Start, and Publish/Start.antt its loop with the last flush. FlushCount is a natural number in
--   its two tests, for which a negative one is as good as 0 (Config.antt).
-- - internal/ingest/service.go (Handle, refreshAndLookupDevice, ensureChannels, the filters and
--   summaries of the log lines): Ingest/State.antt, Ingest/Lookup.antt, Ingest/Channels.antt,
--   Ingest/Handle.antt, Ingest/Summary.antt, in the monad of Action.antt, whose errors keep the
--   state. The REST API is the record Remote. Ingest/Threads.antt is the same Handle access by
--   access: a program counter with the local variables, and one step for each section under a
--   mutex, call of the REST API, reading of the clock or increment of a counter;
--   Ingest/Threads/System.antt runs any number of such goroutines beside the syncer's writes and
--   the sections of the flushes, in any order.
-- - internal/ingest/server.go (handleDevices, handleReady, handleHealth, the routes): Server.antt,
--   Server/Routes.antt.
-- - internal/api/client.go (newRequest, doJSON, ensureToken, clearToken, tokenExpiry, the four
--   calls): Api.antt, Api/Expiry.antt, Api/Token.antt, Api/Requests.antt, Api/Calls.antt, in the
--   same monad. Api/Calls.antt also gives the client as the record Remote of the service and
--   SyncClient of the syncer; Api/Traffic.antt wraps the transport in one that logs the requests.
-- - internal/device/comet (the parsers of the three device families): Comet.antt, Comet/Hex.antt,
--   Comet/Ulogger.antt, Comet/Websensor.antt, Comet/Soaptx.antt, from the decoded JSON or XML on.
-- - internal/metrics/app_metrics.go and metrics.go: Metrics.antt, whose counters wrap at 2 ^ 64,
--   Metrics/App.antt (what is registered) and Metrics/Registry.antt (the registry and
--   RenderPrometheus). The map is an association list, and its rearrangements are the orders in
--   which it may be read.
-- - internal/config/config.go (Load): Config.antt. A panic is an error.
-- - internal/publish/protobuf.go and internal/telemetrypb/telemetry.pb.go (its messages):
--   Publish/Protobuf.antt, Telemetrypb.antt.
-- - internal/publish/jetstream_publisher.go (NewJetStreamPublisher, Publish, ReadyStatus, Close)
--   and log_publisher.go: Publish/Jetstream.antt, Publish/Jetstream/Connect.antt, Publish/Log.antt.
--   Publish/Delivery.antt puts the JetStream publisher behind the buffered one, with a log of what
--   the client has acknowledged.
-- - cmd/device-handler/main.go (the registry of all parsers, the readiness function, the order of
--   start-up, the exits behind the listener): Main.antt, Main/Start.antt, Main/Stop.antt. An exit
--   is an error, and so are the panics of NewBufferedPublisher and of its Start at a negative
--   FlushCount and a FlushAfter that is not positive; the panic of the syncer's ticker, in a
--   goroutine of its own, is left out.
--
-- How they interact: the server calls Handle, which looks the device up in the cache, refreshes the
-- cache through the REST API on a miss, creates missing channels there, builds the sample and
-- enqueues it; the syncer fills the same cache; the publisher's flushes take the items from its
-- buffer. One set of metrics is shared; in the service's state it is the publisher's. main gives
-- the readiness of the syncer and of NATS to the server.
--
-- Conventions: a Go string is a list of code points (Text.antt); case mapping beyond ASCII is the
-- parameter Unicode, with two facts of the Unicode tables, which the ASCII instance of Tests.antt
-- satisfies. A time is a number of nanoseconds from the lowest int64 second on, so that year 1, the
-- zero time, is 2 ^ 63 seconds (Time.antt). int64 and uint64 results wrap where the code's do;
-- lengths, retry counts and twice the poll interval are taken to fit an int. Loops are recursion on
-- lists; the only fuel is that of format_int, 20 digits, which neither an int64 nor a uint64
-- exceeds.
--
-- The libraries are parameters, each with what the results need of it: net/http, net/url,
-- encoding/json and base64 in the record Http, of which ChannelLaws says that the REST API names a
-- channel as it was asked to or not at all; Do follows redirects and may send a request again by
-- itself, which is inside that parameter; the NATS client and proto.Marshal in the record Nats, of
-- which IsUnmarshal says that proto.Unmarshal undoes proto.Marshal and RefusesAll that a context
-- that is done lets no message through, and the connecting in the record Dialer; os.Getenv,
-- time.ParseDuration and strconv.Atoi in the record Environment; json.Unmarshal, xml.Unmarshal,
-- time.Parse, strconv.ParseFloat, strings.EqualFold and the conversions of floats as arguments of
-- the parsers.
--
-- Not modelled: the accessors and reflection data of the generated messages, logging with the
-- previews of bodies and tokens, and of cmd/device-handler signals and the listener with its
-- shutdown. What two concurrent calls of the REST client may do to its token is not modelled, nor
-- is the gauge of the queue depth, which Enqueue sets after it has left the mutex, apart from that
-- section.
--
-- Helpers are in Prelude.antt; the examples of Tests.antt run the program on concrete data.

pub mod Prelude
pub mod Text
pub mod Time
pub mod Dict
pub mod Cache
pub mod Metrics
pub mod Telemetry
pub mod Telemetrypb
pub mod Device
pub mod Publish
pub mod Action
pub mod Ingest
pub mod Main
pub mod Server
pub mod Syncer
pub mod Comet
pub mod Config
pub mod Api
pub mod Tests
