-- ===== src/Lib.antt =====
-- GateFlow is an API gateway: gateflow/ answers requests for the services behind it, after it has
-- tested the caller's key, rate limit, monthly quota and the circuit of the target. What several
-- gateway processes share stands in Redis and is changed by Lua scripts, each of which runs as one
-- step; gateflow/static/portal/app.js is the page on which a user reads the quota and rotates the
-- key.
--
-- Prelude holds what the models share: Boolean tests and lists over the native numbers, integers
-- (Prelude/Int), texts as lists of code points (Prelude/Text), splitting (Prelude/Split) and
-- cutting characters off the ends (Prelude/Strip).
--
-- Portal models gateflow/static/portal/app.js. Portal/Page has its handlers: setResult is
-- set_result, withKey is with_key, and loadQuota, rotateKey and requestTier are each cut at their
-- `await`s, as load_quota, load_quota_response, load_quota_body and so on. Portal/Value has JSON
-- values, template strings and Object.entries, Portal/Trim has `trim`, Portal/Query has
-- URLSearchParams of the platform, with a parser in Portal/Query/Parse. Portal/Loop is the event loop: the listeners at the end of app.js, the handlers
-- that wait for an answer, and answers in any order. `fetch` and the body of its response are
-- events with any content, so nothing is assumed of the server. Numbers in JSON are the texts that
-- JavaScript writes for them; an object has its fields in the order of Object.entries. Texts are
-- sequences of code points, so lone surrogates are outside the model.
--
-- Redis models the scripts of gateflow/redis_client.py and their callers, each on the one key it
-- works on. Redis/Key is a key with its time to live, after the documentation of EXPIRE: a key
-- whose time is over reads as missing. Redis/TokenBucket is TOKEN_BUCKET_LUA and check_rate_limit
-- of gateflow/rate_limiter.py; Redis/CircuitBreaker is CIRCUIT_BREAKER_LUA with check_circuit and
-- report_circuit of gateflow/circuit_breaker.py; Redis/Quota is MONTHLY_QUOTA_RESERVE_LUA and
-- MONTHLY_QUOTA_REFUND_LUA with their callers in gateflow/governance.py. Times count microseconds,
-- which TIME of Redis has, and amounts of tokens count 10^-12 of a token; so the arithmetic of
-- the scripts is exact here. What they store is rounded as Lua's tostring does it, to 14 significant
-- digits (Redis/Tostring), which is 0.1 ms of the time. A key is named by the caller and the model
-- has one key of each kind, since no script touches a second one.
--
-- Router models gateflow/router.py and normalise_prefix of gateflow/models.py. The route cache is
-- the dictionary that gateflow/redis_client.py keeps in memory, here a list of entries; the sorted
-- candidates are an insertion sort by the same key, and a ValueError is `none`.
--
-- Cache models TTLCache of gateflow/cache.py, with the OrderedDict as a list in its order. Its lock
-- makes every method one step, so a run is a sequence of calls with the time between them.
--
-- Http has headers and their names as gateflow/proxy.py handles them: the lookup in a request, the
-- dictionary that is forwarded, and the names that are left out. Models has APIKeyRecord and
-- TierConfig of gateflow/models.py as far as requests use them, with resolve_rate_limits and
-- AuthError of gateflow/auth.py.
--
-- Proxy models handle_request of gateflow/proxy.py, from the first guard to the reply. Proxy/State
-- has what it reads and writes: the keys of Redis by their names, the lifetime counters of API
-- keys, the calls of services so far, and a state monad in which a guard returns early.
-- Proxy/Admission is verify_mtls, the choice of the route, the two rate limits and the monthly
-- quota; Proxy/Target is _try_target, the retries, _build_response, increment_request_count of
-- gateflow/store.py on a key that is stored, and the idempotency of gateflow/idempotency.py; Proxy
-- itself joins them, with the bound on the body, the stored replies and the fallback. It calls
-- check_rate_limit, check_circuit, report_circuit, reserve_monthly_quota, match_route and the
-- others as they are modelled in Redis and Router. A Course has what a request meets: the times of
-- its calls, the answers of the services and the texts that it is stamped with, any of which may be
-- chosen; it also has what the store answers at each time. The Platform has urljoin and int of
-- Python, and sha256. `authenticate` is the one of Auth, on caches that belong to the state.
-- Nothing else happens while a request is handled, and bodies are whole, also where the code
-- streams them, so that an exception in the middle of a body is outside the model. Proxy/Guards has
-- what a request has passed before a service is called. Proxy/Charges, Settling and Accounts follow
-- the counter of the month, Answers and Calls the calls of services, Circuits the circuit breaker
-- under retries, Replays the stored replies and Urls the address that is called.
--
-- Auth models gateflow/auth.py and _key_secrets of gateflow/crypto.py: `authenticate` with its two
-- caches, which are those of Cache, and Auth/Address the addresses of callers. Python's ipaddress
-- and HMAC are parameters, and so is the store (a Directory), which may answer differently at each
-- time. Auth/Staleness and Acceptance follow a record from the store through the caches,
-- Auth/Identity ties a record to the key that was presented, Auth/Sessions has calls in a row, and
-- Auth/Revocation a key that was made inactive. A call of `authenticate` is not interleaved with
-- another one or with a call of the store, and reads the record and the limits at one time.
--
-- Store/Keys models the calls of API keys in gateflow/store.py: get_key_record with its fallback to
-- Redis, save_key_record, delete_key_record and increment_request_count, on rows of the database,
-- hashes of Redis and the cache of one process. The database always answers; Redis is within reach
-- for a whole call or for none of it. A hash has the fields that to_hash and HINCRBY write, as
-- values in place of their texts. Store/Keys/Phases has what one key is to the callers, Refines
-- relates the two, Coherence has the cache of `authenticate` beside the store, with calls that do
-- not overlap, and Outage a call without Redis. There, an error of the validation of a hash counts as a key that is not there.
--
-- Account models rotate_api_key of gateflow/portal.py, with the new key as an input, and Admin the
-- handlers of single keys in gateflow/admin/keys.py with their guards in gateflow/admin/common.py.
-- The payload of a request is a record that the framework has validated. Both call the store as
-- modelled.
--
-- Router/Records has the record of a route in Redis, Route.from_json and Route.to_json of
-- gateflow/models.py, and _parse_methods of gateflow/admin/routes.py; the object in it stands for
-- its JSON text. Store/Routes models the calls of single routes in gateflow/store.py, list_routes,
-- and the reload of the route cache in gateflow/redis_client.py, and Admin/Routes the handlers of
-- single routes in gateflow/admin/routes.py. Their guards are those of Admin.
-- Store/Routes/Processes has several processes with a route cache each: commits, reads,
-- assignments, messages and their listeners as single steps in any order, with the commits by which
-- get_route puts a route back, while no call deletes the last row, Redis answers and listeners keep
-- their connection; Settled and Finish have what the caches come to.
--
-- Notifications models the worker of gateflow/notifications.py, from consume_anomalies down to a
-- post: turn is one round of its loop. An entry of the stream is named by its id. Each call of
-- Redis and each post goes as an input says; a call of Redis may also be done and lose its reply.
-- There is one consumer. The stream of dead letters is cut as XADD does it; that of anomalies, which
-- another worker writes and bounds, is not cut below the consumer. Notifications/Growth has what
-- posts leave as it was, Delivery one entry, Turns rounds in a row, and Progress a round while
-- Redis answers.
--
-- Anomaly models AnomalyDetector of gateflow/anomaly.py. Durations are whole numbers of any unit
-- and thresholds fractions; means and deviations are compared as exact numbers. Anomaly/Windows
-- relates the windows to the metrics so far.
--
-- Not modelled: tiers and usage in the store, whose SQL layer is a library; the admin handlers of
-- tiers and lists; the quota page and the requests for a tier; the audit log; the learned detection
-- of anomalies, whose model is a file of another library; the workers of metrics and telemetry. The
-- framework, logging and metrics have no logic of their own, and gateflow/static/swagger-ui is a
-- copy of another project.
--
-- No definition recurses on fuel: the loops of these parts run over their inputs, and the attempts
-- of a request over their number in the settings.
pub mod Prelude
pub mod Http
pub mod Models
pub mod Auth
pub mod Store
pub mod Account
pub mod Admin
pub mod Notifications
pub mod Anomaly
pub mod Proxy
pub mod Portal
pub mod Redis
pub mod Cache
pub mod Router
