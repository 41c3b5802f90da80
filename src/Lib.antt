-- ===== src/Lib.antt =====
-- velinx keeps a router's VPN routing: a profile of endpoints, groups, rules and routing lists is
-- edited through a REST server, checked, written to a file and turned into a configuration of
-- sing-box, which runs as a child process. This development models the parts that decide, as
-- functions on explicit state.
--
-- How the parts interact: the server's handlers call the store (internal/store/store.go), which
-- calls the validation of the profile (internal/model/validate.go) where a whole profile is
-- replaced. An apply arms the fail-safe manager (internal/failsafe/failsafe.go), which watches the
-- connection and undoes the change, or reboots the router, when the connection stays lost. The
-- watchdog (internal/watchdog/watchdog.go) asks the supervisor of the child process
-- (internal/core/singbox.go) to restart it when it dies, with a growing pause. The traffic hub
-- (internal/traffic/ring.go) keeps the last samples and passes them on to the clients that listen.
-- The rules and lists of a profile whose outbound is a kernel interface are not routed by sing-box
-- but by the kernel, after the plan that internal/pbr/pbr.go compiles. The health monitor
-- (internal/health/monitor.go) probes every endpoint and sums up what the panel shows of it. The
-- daemon's own settings (internal/config/config.go) are changed by the requests of
-- internal/server/config.go.
--
-- Base holds the shared names, tests, lists and signed integers. Go models what the source uses of
-- the Go library: strings, net.ParseIP, net.ParseCIDR, net.ParseMAC, net/netip, net.SplitHostPort,
-- strconv, sort and encoding/base64.
--
-- Failsafe models `Manager` and its methods: `arm`, `confirm`, `rollback_now`, `tick`,
-- `claim_rollback`, `claim_reboot`, `mark_rollback_failed` and `status`. Failsafe.Run models the
-- goroutine `run`: a run is a program counter over the shared manager (`Run`), a world is the
-- manager with all its runs and the log of the callbacks, and `Reach` is the relation of the worlds
-- that applies, confirmations, manual rollbacks and steps of runs lead to, in any order. Core
-- models the supervisor of internal/core/singbox.go as a state that calls and process exits change
-- one step at a time (`Event`, `run`), and `stop` and `reload` as whole calls besides; Core.Log
-- models its `ringLog`, whose loop over the buffer runs on fuel, a turn for every byte. Watchdog
-- models `tick` with what the supervisor answers (`Reading`) as its input; Watchdog.Trace runs
-- sequences of ticks. Traffic models `Hub` with its subscribers' channels as bounded queues. Model
-- holds the types of internal/model/model.go; Model.Params, Model.Matchers and Model.Names hold the
-- helpers of internal/model/validate.go, Model.Cycle its search for group cycles, and
-- Model.Validate `Validate` itself, one function per loop. Store models every request of
-- internal/store/store.go over memory and file, and Servers the same for the list of managed
-- servers of internal/serverstore/serverstore.go. Dedupe models the content key and the filter of
-- bulk imports of internal/importer/dedupe.go. Pbr models internal/pbr/pbr.go: Pbr.Prefixes
-- `collapsePrefixes`, Pbr.Classify `classifyCIDRs` and `normalizeDomains`, Pbr.Resolve the kernel
-- interface of an outbound, Pbr.Zones `addZone`, Pbr.Collect the loops over rules and lists, and
-- Pbr.Compile `Compile` as a whole. A network address is a number, a prefix a number with a length;
-- the closures of `Compile` pass what they share as one record, `Build`. Feed models
-- internal/cidrfeed/cidrfeed.go. Generator models the part of internal/generator/singbox.go that
-- decides what the kernel carries, and Generator.NativeOnly internal/generator/native_only.go.
-- Config models the settings, Config.Validate their validation, and Config.Requests the handlers
-- over the settings in memory and in the file. Health models the statistics of a target and the
-- turns that change them, Health.Views what the panel shows.
--
-- Choices. Times are milliseconds or nanoseconds as natural numbers, without the overflow of int64;
-- `now - since >= d` is written `since + d <= now`. A text is valid UTF-8, seen as its code points
-- where the source looks inside; case mapping covers ASCII, Latin-1, Greek and Cyrillic. A map is
-- an association list. A lock makes the operations under it one step. The search for cycles runs on
-- fuel, the number of groups: it goes down only into groups that have no colour yet and colours
-- each on the way. The search for a free name of a zone runs on fuel, the number of names that are
-- used: it tries different names, so that one of them is free. The search for the outbounds that
-- are reached runs on one turn more than there are groups: it goes down only from a group whose tag
-- was not reached before. sort.Slice and sort.Strings are an insertion sort, which gives the same
-- where no two elements are equal. A nil list is an empty one, and the numbers of `Options` are not
-- negative. The body of a request is the config that it stands for. The division of bytes by a time
-- in float64 is a parameter, `per_second`, as are the answer of a server and the decoder of its
-- body in Feed. An error is kept as its kind and arguments, not as its message. The write of a file
-- either succeeds or leaves the file as it was, as internal/atomicfile promises; which of the two
-- happens is the choice of the environment (`Save`), as are the readings of clocks, probes,
-- interfaces, the Clash API, logs and processes.
--
-- Not modelled: the HTTP handlers but those of internal/server/config.go, JSON decoding, network probes,
-- processes, shell commands, the sing-box configuration and the other texts that are rendered, the
-- importers and exporters, the updater, the plugins and the work on remote servers.
pub mod Base
pub mod Go
pub mod Failsafe
pub mod Core
pub mod Watchdog
pub mod Traffic
pub mod Model
pub mod Store
pub mod Servers
pub mod Dedupe
pub mod Pbr
pub mod Feed
pub mod Generator
pub mod Config
pub mod Health
