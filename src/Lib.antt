-- ===== src/Lib.antt =====
-- PortBridge forwards TCP and UDP ports, through nftables rules in the kernel or through Go proxies
-- in the process. This library models the parts of the program that decide, and leaves the parts
-- that move bytes.
--
-- The program. `internal/config` holds the configuration: a `Store` keeps one in memory and on disk,
-- and lets in only what `Validate` accepts. `internal/proxy` turns the rules into a forwarding plan
-- (plan.go), which resolves each target, holds the addresses to the target policy of the
-- configuration, and gives each listen address to the kernel or to the process. The rules of the
-- kernel are replaced by the nftables backend (nft.go, nft_reconcile.go), which also revokes the
-- tracked connections of the rules that retire (nft_conntrack.go); the manager (manager.go) calls it
-- and starts the proxies that the kernel does not stand in the way of. While proxies run, their
-- connections, sessions and memory are counted in the budgets of budget.go, and the collector of
-- telemetry.go samples what they and the kernel forward. `internal/acl` keeps the prefixes that may
-- reach the web server, and `internal/web` limits failed logins there.
--
-- Where it is modelled:
--   Config.antt             the records and constants of internal/config/config.go
--   Config/Errors           its errors, one constructor for each message, and the chain of checks
--   Config/Prefixes         NormalizeWhitelist, NormalizeTargetCIDRs, NormalizeDNSServers
--   Config/Normalize        NormalizeRule, normalizeHost, applyConfigDefaults, the last ports
--   Config/Targets          ValidateTargetAddress; Policy says what it lets through
--   Config/Web              validateWeb and validateLimits
--   Config/Rules            validateRules, as groups of checks in the order of the source
--   Config/Conflicts        validateRuleConflicts and its three tests
--   Config/Validate         Validate
--   Config/Migrate          migrateV1, and ReadOnly of read_only.go behind the decoder
--   Config/Store            updateLocked, UpdateIfRevision (revision.go), the rotation of tokens
--   Acl                     Refresh, Allowed, DetectLANPrefixes, dedupe of internal/acl/acl.go
--   Plan                    the types of internal/proxy/plan.go, listenFamilies, the first addresses
--   Plan/Resolve            resolveHost, with its cache
--   Plan/Build              buildPlan, addGoPath, distributeGoUDPWorkers
--   Plan/Workers            the shares of UDP workers in plan.go, manager.go and udp.go
--   Nft/Ports, Keys         ranges of ports, and what tells kernel rules apart (nft_recovery.go,
--                           nft_journal.go); Nft/Path is the abstract view of a rule, port by port
--   Nft/Specs               retiredNFTSpecs, gateNFTReplacements, previouslyAdmittedNFT
--   Nft/Conntrack           nft_conntrack.go: tuples, matching, revokeNFTConnections
--   Nft/Disk                the rules of a snapshot in nft_disk_linux.go
--   Nft/Backend             commandNFTBackend of nft.go, its keys, and the interface BackendIo
--   Nft/Backend/Chain       steps on its state that may fail, and what holds after one
--   Nft/Backend/Install     replaceObjects, topologyForFlowtable (nft.go)
--   Nft/Backend/Written     what is known after a success of it; Applied, Emptied, Carried, Installed
--                           follow its steps
--   Nft/Backend/Recover     recoverKernelState (nft_reconcile.go), resolveNFTIdentities,
--                           configuredMark (nft_journal.go)
--   Nft/Backend/Replace     Replace, Delete, retirementState (nft_reconcile.go)
--   Nft/Backend/Healthy     Healthy (nft.go)
--   Manager                 what the kernel may still forward (manager_nft_state.go)
--   Manager/Runners         stopChangedRunners, reconcileNFT, reconcileRunners of manager.go
--   Manager/Tombstones      nftTombstoneID of manager_nft_state.go
--   Manager/Status          updateRuleStates, retireRemovedRules of manager.go
--   Telemetry               the series of internal/proxy/telemetry.go; Rows has update and snapshot
--   Budget                  the global budget and the TCP budget of a rule, internal/proxy/budget.go
--   Budget/Shards           its 64 sharded maps
--   Budget/Packets          its token buckets and tracked sources
--   Budget/Tcp, Udp, Release the counters of connections and of sessions with their memory
--   Budget/Atomic           reserveAtomicN as the compare-and-swap loop that it is
--   Tcp                     dialTCPBackend (tcp.go) and the reported health (tcp_health.go)
--   Web/Auth                authFailureLimiter of internal/web/security.go
--   Web/Changes             ruleChanges of internal/web/rule_batch.go
--   Prelude, Text, Netip    integers, strings and addresses as the sources use them
--   Examples                concrete data, tests, and each result at a concrete input
--
-- How the code is read:
--   * An `int`, an `int64` and an `atomic.Int64` are integers that wrap round at 64 bits. Counts that
--     the sources bound before (token limits, worker counts) are natural numbers.
--   * A string is the list of its code points; texts come from a JSON decoder and are valid UTF-8.
--     `strings.ToLower` is modelled on ASCII letters; no keyword that is compared with a lowered text
--     has a letter that a code point beyond ASCII lowers to.
--   * The text forms of `net/netip`, `net` and `strconv` are a parameter, the record `Forms` in
--     Netip/Forms; where a result rests on how they behave, it takes the record `Documented` as a
--     hypothesis. The predicates on addresses and prefixes are defined.
--   * An operation under a lock is one step; the outcome of a write to disk is an argument, as are
--     the resolver's answer, the clock, the list of interfaces, the hash and the random token. The
--     loop of `reserveAtomicN`, which takes no lock, is modelled step by step too.
--   * A map is an association list or, where it is a set, the list of its keys; the order in which Go
--     hands out a map is the order of the list, and no result depends on it.
--   * A token of a `float64` bucket is a fixed number of units and a time a number of nanoseconds, so
--     that the refill is exact where the source rounds.
--   * The texts of numbers and addresses in the keys of kernel rules, and the hash of an identifier,
--     are the record `KernelForms` of Nft/Keys, and `KernelDocumented` says what is relied on; the
--     conntrack tool's behaviour is `ConntrackLaws` of Nft/Conntrack/Revoke.
--   * The messages of errors are left out.
--   * `NormalizeRule` trims the entries of `TargetCIDRAllowlist` in place, in a slice that its caller
--     shares; the model returns the trimmed list and does not change the caller's.
--   * The kernel, its table of tracked connections and the recovery file are one world, which the
--     interfaces `ConntrackIo` and `BackendIo` read and write; a reading or a write may fail. The
--     readers behind `BackendIo` (observe, decodeNFTJournal, recoverLegacyNFTSpecs, validateNFTState,
--     checkAdmissionFor, collectNFTTopology, the sessions of the recovery file, the independent probe
--     of an empty kernel) are arguments, and a result says what it asks of them. A script is the
--     value that it is written from. The runners and the backend are behind `ManagerIo` in the same
--     way. That the executables are there is part of that world.
--
-- No definition needs fuel: loops over lists, endpoints and entries are structural, and a sweep of
-- the tracked sources counts down its 4 shards and 256 entries.
--
-- Not modelled: the rows of tombstones and the composition of the manager's steps in `apply`, the
-- texts and the JSON of nftables objects, the sessions of the recovery file, the TCP and UDP runners
-- but for what is named above, the resolver, the handlers of the web server, diagnostics and the
-- command. They are sockets, processes, files and netlink for the most part.
pub mod Prelude
pub mod Text
pub mod Netip
pub mod Config
pub mod Acl
pub mod Plan
pub mod Nft
pub mod Manager
pub mod Telemetry
pub mod Budget
pub mod Tcp
pub mod Web
pub mod Examples
