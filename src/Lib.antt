-- ===== src/Lib.antt =====
-- traefik-kop publishes the containers of one docker host to a redis server that a traefik on another
-- host reads. A docker provider, which may work through a proxy that filters labels, hands it dynamic
-- configurations. Each is filtered by namespace, its servers get addresses that other hosts reach and
-- are merged with those of other hosts, and it is flattened to keys and written with an expiry. The
-- keys are renewed until the next configuration replaces them. A poller asks for configurations anew.
--
-- Files, and the code they model (paths from the root of the repository):
--   Prelude.*      results and errors of Go functions, and actions on a state that may fail.
--   Text.*         Go strings as lists of code points, the functions of `strings`, `sort` and
--                  `strconv` that the program calls, and Go maps as association lists.
--   Dynamic        the fields of traefik's dynamic configuration that the program reads or writes.
--   Kv.Value, Kv.Leaf, Kv.Walk    kv.go: a configuration as `reflect` shows it, the text of a leaf,
--                  `walkTypedValue` and its helpers, `ConfigToKV`.
--   Kv.Listing, Kv.Under, Kv.Keys what the walk writes, against a list that is made without the walk.
--   Redis, Redis.Laws, Redis.Serves
--                  the commands of the redis client, what they promise, and a server that is up.
--   Redis.Memory.*                a server in memory, and that it keeps those promises.
--   Store          store.go: `Store`, `KeepConfAlive`, `Get`, `Gets` and their helpers, as actions on
--                  the last configuration and the server.
--   Store.*        what `Store` and `KeepConfAlive` do to the keys of this and of other instances.
--   Docker.Types, Docker.Names, Docker.Cache, Docker.Ports
--                  docker.go: the cache of containers, the search of the container of a service or
--                  router (`populate`, `findContainerByServiceName`), and the ports of a container
--                  (`isPortSet`, `getServicePortBinding`, `getPortBinding`).
--   Namespace      util.go and traefik_kop.go: `splitStringArr`, `keepContainer`,
--                  `getRouterOfService`, `filterServices`. Namespace.Kept says what a filtered
--                  configuration is, without them.
--   Url.*          Go's `net/url` as far as `replaceIPs` calls it: `Parse`, `Port` and `String`.
--   Addresses.*    traefik_kop.go: `getContainerPort`, `getContainerNetworkIP`, `getKopOverrideBinding`,
--                  and `replaceIPs`, whose loop over HTTP services is in Addresses.Http.
--                  Addresses.Chosen and Docker.Ports.Sole tell which port is taken without these
--                  helpers.
--   Merge          traefik_kop.go: `mergeLoadBalancers` and `mergeGenericLoadBalancers`.
--   Handler        traefik_kop.go: `createConfigHandler`, which composes the filter, the addresses, the
--                  merge and the store. Handler.Unread is the case of a daemon that cannot be read,
--                  Handler.Watcher is configuration_watcher.go.
--   Proxy          docker_proxy.go: `createProxy`, `shouldExpose`, `filterLabels`, and the handlers;
--                  Proxy.Routes is the table of routes of `start`.
--   Polling        polling_provider.go: the attempts of the poller, as steps. Cancelling a context only
--                  asks an attempt to end, `Stop` waits for it.
--   Providers      multi_provider.go, and of polling_provider.go its `Init` and `Provide`.
--   Int64          64-bit integers and durations, with their overflow.
--   Config         config.go, and `newDockerProvider` of traefik_kop.go.
--   Tls            redis_tls.go: `Build`.
--   Cli            bin/traefik-kop/main.go: the flags, the address to bind to, the checks of `doStart`.
--   Start          traefik_kop.go: `Start` up to the initialization of the providers; store.go:
--                  `NewRedisStore`.
--   Life           traefik_kop.go and polling_provider.go: the states of the running program, as a
--                  relation on the poller and the store, with the ticks of `keepStoreAlive` and of the
--                  poller, attempts that end, configurations from the watcher, each with the daemon
--                  as its run of the handler finds it, and changes of the server by others.
--   Store.Ends, Addresses.Ends, Merge.Ends, Handler.Ends
--                  when these parts come to an end without a panic.
--   Tests.*        runs of the model, and the theorems at inputs that meet their hypotheses.
--
-- Choices. A panic is a result of its own, and an error keeps what was written before it. Each call
-- of the store or the cache is one action, as the mutex of the store makes it: no other client writes
-- and no key expires during one, while keys may differ in any way between two. The commands of redis
-- and the replies of the docker daemon are parameters, with their documented behaviour as laws where a
-- theorem needs it. The filter, the addresses, the merge and the handler run over any search of
-- containers and any read of the store; their theorems suppose that these answer the same during one
-- run, as a fresh cache does. A run of the handler sees one state of the daemon, and the next run may
-- see another. A TTL is a number of seconds, where 0 is also what the program does
-- with a negative one; times are nanoseconds in the cache and seconds in the store. A map that is nil
-- is an empty one, and the order of an association list stands for one order in which Go might walk
-- the map. A float is given by the text that it has; `directive` is what `fmt` makes of a format from
-- its first percent sign on. There is no fuel: every loop is a recursion on the list, the map or the
-- value that it walks.
--
-- A log line that ends the program is an error of `Start` and of `doStart`. Of the clients of docker and
-- redis, of files, certificates, the YAML decoder, the command line and the network interfaces the
-- model takes what they return as parameters. `net/url`, `net.IP`, `strings`, `sort` and `strconv` are
-- written out as far as the program uses them.
--
-- Not modelled: the options of the docker client, which are only handed on; the listener of the proxy,
-- and the watcher's and the aggregator's own work, which are third-party packages; goroutines beyond the
-- order of their steps; the version printer, the set-up of the log and log output; the test server.
pub mod Prelude
pub mod Text
pub mod Url
pub mod Int64
pub mod Config
pub mod Tls
pub mod Cli
pub mod Start
pub mod Life
pub mod Providers
pub mod Handler
pub mod Dynamic
pub mod Docker
pub mod Kv
pub mod Addresses
pub mod Merge
pub mod Namespace
pub mod Polling
pub mod Proxy
pub mod Redis
pub mod Store
mod Tests
