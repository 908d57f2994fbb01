-- ===== src/Lib.antt =====
-- Verification of the chat-with-cli Relay.
--
-- chat-with-cli connects an MCP client to a workstation: an Agent on the workstation keeps an
-- outbound WebSocket to a Relay, and the Relay forwards the client's calls. The Relay is an OAuth
-- server (internal/oauthserver) in front of a broker (internal/relay). Who may reach which device is
-- decided by the OAuth server's state, and that is what this library is mostly about.
--
-- Parts and files:
--   Base        shared helpers: Boolean tests on native numbers, Go strings as lists of bytes, Go maps.
--   Protocol    internal/protocol/device.go: device names and immutable identifiers.
--   Limits      internal/oauthserver/limits.go: the counters of the rate limits and the address under
--               which a request is counted.
--   Oauth       internal/oauthserver/server.go and state_guard.go. State holds the records of the
--               server; Platform what the code takes from other libraries; Resource reads a resource
--               URL (resourceParts, validateResource); Access decides on an access token
--               (verifyAccessKeyLocked, resourceOwnedByUserLocked, resourceEnabledLocked); Cleanup is
--               cleanupLocked; Persist is saveLocked and its transaction, Snapshot the snapshots; Token is
--               exchangeCode, exchangeRefresh, issueTokensInFamilyLocked, revokeFamilyLocked and
--               handleRevoke; Challenge is validate...Challenge, ...ChallengeAvailableLocked
--               and consume...ChallengeLocked.
--               Invite is internal/oauthserver/invite.go. Device is ensureDeviceRecordLocked, and
--               display names and keys of devices (internal/deviceidentity/identity.go); Authorize is
--               authorizeResourceLocked and validateAgentDeviceKeyLocked, Grant is
--               commitAuthorizationLocked and grantAuthorization. Revoke, Policy, Change and Admin are
--               the revocations, the values and the actions of handleAdminAction and
--               applyAdminAction (internal/oauthserver/admin.go), with createUserLocked of identity.go;
--               Register is registerAndGrantAuthorization.
--   Usage       internal/oauthserver/usage.go: quotas, activation codes and signed entitlements.
--   Relay       internal/relay/broker.go: the peers, their replacement, closing and read loop; Call
--               is (*Broker).Call as a state machine; Steps the steps of all goroutines, in any
--               order; Slots has all calls in progress beside them; Bearer is the gate of the
--               legacy Agent handler.
--   Config      internal/config/config.go: the lines of a configuration file, read and written.
--   Tests       concrete states, and each theorem at one of them.
--
-- Correspondence. A Go struct is a record with its fields, a method on the locked server a function
-- from Server to Server, with the reply beside it. Modules take a Platform, the functions of net/url,
-- crypto/sha256, encoding/base64 and unicode/utf8 that the code calls, or a Strconv for those of
-- strconv, as a parameter and assume nothing of it but where a hypothesis says so. The clock's
-- readings, the values of randomToken, the hash of a password and the outcome of each disk operation
-- are arguments (Draws, Moment, Outcome). A time is a number of nanoseconds, a stamp in a record a
-- number of seconds; counters of int64 are natural numbers. An error of a handler is a value of its
-- reply type, or none. The effect of a session reset on the broker is written to a log in the state
-- (resets).
--
-- In the broker, a peer is an index into a table, as a Go pointer is shared: the map of devices and
-- the goroutines of a peer name the same entry. Each critical section and each iteration of a
-- goroutine's select loop is one step, so that a sequence of steps is an interleaving.
--
-- Bounds and fuel. No function needs fuel: loops are recursion on lists. Passes over a map visit
-- each key once, in the order of the association list.
--
-- Not modelled: HTTP parsing and the HTML pages, recordSecurityLocked (the state, its snapshots and
-- the file hold the security events, but no operation adds one), password hashing, the MAC of the
-- state file, client registration, the handlers in front of grantAuthorization and
-- registerAndGrantAuthorization, the action grant-quota, the file operations of internal/config, and
-- the packages of the Agent, the engine, the client's OAuth flow and installation. ToLower is modelled
-- on ASCII.
pub mod Base
pub mod Config
pub mod Limits
pub mod Oauth
pub mod Protocol
pub mod Relay
pub mod Usage
pub mod Tests
