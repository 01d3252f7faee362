-- ===== src/Lib.antt =====
-- The Relayward SDK: the contracts between the center, the Agent on a node, and the plugins of both,
-- with the validators that each side runs on what the other sends.
--
-- Parts, and the files that model them:
--   contract/version.go            Contract       API versions, plugin IDs, semantic versions
--   protocol/{envelope,problem}.go Protocol       message envelopes and problems
--   manifest/manifest.go           Manifest       plugin manifests and their compatibility
--   policy/v1/period.go            Policy         reset rules and the traffic periods they give
--   agent/v1/*.go                  Agent          a child for each file of the package: Validate,
--                                                 Register, Commands, Messages, Update, Events,
--                                                 Plugins and PluginState (plugins.go), Policies,
--                                                 PolicyStatus and PolicyOrder (policies.go), Telemetry
--   nodeplugin/v1/validate.go      NodePlugin     Info, Configuration, Telemetry, Services
--   centerplugin/v1/*.go           CenterPlugin   Text, Info, Ui, Configuration, Services, Subscription,
--                                                 Publish, Consume, and Notification (notification.go)
--   pluginfixture/plugin.go        Fixture        the node plugin of the contract tests, and in
--                                                 Fixture/Center the center plugin
--   conformance/{load,release}.go  Conformance    Files, Agent, Plugins, Fixtures; Release
--   cmd/relayward-*/main.go        Conformance    Command and ContractRelease
-- Below them: Base (shared names, lists, strings, errors, int64), Regex (the regular expressions and
-- their matcher), Clock (times, calendars, RFC 3339), Unicode, Json (the scanner of encoding/json,
-- compaction, strict decoding), Encoding (hexadecimal, base64, big-endian), Hash (what is used of
-- SHA-256).
--
-- A function has its Go name in snake case; where two Go functions share a name, so do the models, in
-- modules named for the packages. A Go string is the list of its bytes, an error keeps its format and
-- arguments, a validator gives `pass` or an error, and a pointer that may be nil is an Option. An int or
-- int64 is an integer with its wrap-around written out, a uint64 a number with the bounds the code
-- checks. Times are nanoseconds since Go's zero time with a location, which is an offset from UTC at
-- each instant; their seconds are not bounded, where Go's are an int64 (InRange of
-- Clock/Calendar/Read). Regular expressions are transliterated and matched by derivatives.
--
-- Parameters: SHA-256 (theorems that need it assume digests of 32 bytes), the time zone database, the
-- parsers of IP addresses and URLs, the typed encoding and decoding of encoding/json, the random
-- source, the clock, the sorting function that SortPolicies calls, protojson, the file system, and the
-- host that the center plugin of the fixture calls. The random source fills a buffer of a given length
-- (FillsBuffer of Protocol/Create). A decoder is one call of Decoder.Decode with the
-- rest of the input; where reading a file fails, that error comes before any in its text.
--
-- Recursion: ValidateEnvelope calls itself through a heartbeat acknowledgement, and is modelled to two
-- levels, which no message exceeds. The loop of CurrentPeriod that steps back runs on a fuel
-- of four. It begins on the day of the evaluation or before, a whole number of steps after the anchor.
-- Where the offset of the location from UTC never changes (Clock/Calendar/Fixed), one step back then
-- brings it before the evaluation; elsewhere the change of the offset is added, which is hours, and a
-- step is a day at least.
--
-- Not modelled: the start of the processes (pluginfixture.Run and its listeners, the main function of
-- relayward-contract-plugin, flag parsing), which is I/O, and generated code but for the fields of the
-- messages. The text of a message on the terminal is kept as its parts.
pub mod Base
pub mod Regex
pub mod Clock
pub mod Unicode
pub mod Json
pub mod CenterPlugin
pub mod Contract
pub mod Encoding
pub mod Protocol
pub mod Manifest
pub mod Agent
pub mod Policy
pub mod NodePlugin
pub mod Fixture
pub mod Conformance
pub mod Hash
