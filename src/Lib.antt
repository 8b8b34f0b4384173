-- ===== src/Lib.antt =====
-- Osanwe sells and relays access to model providers without linking who pays to what is asked.
-- This library verifies what its parts accept, count and pass on: tokens that are spent once,
-- requests and ceilings at the gateway, the directory of relays, and where a relay carries
-- traffic. Paths are from the repository's root.
--
-- Gateway models the provider gateway. Gateway/Server is (*Server).ServeHTTP and handleError of
-- internal/gateway/gateway.go: the token is read and verified, the request is prepared, its cost
-- is estimated, the budget is reserved, the token is spent and the request is forwarded, or it
-- ends in an answer. The store of spent tokens and the budget are the interfaces RedemptionStore
-- and BudgetStore; Server/Stores fills the first one with Mint/SpentSet. Gateway/Prepare is
-- prepareRequest: its checks of the request, of the fields (Prepare/Body) and the translation of
-- internal/gateway/translate.go (Prepare/Translate). What encoding/json and mime find in the bytes
-- is a Wire. Gateway/Http is net/http's requests and headers. Gateway/Proxy is the proxy's hooks,
-- rewrite and modifyResponse. Gateway/Json is rejectDuplicateJSONNames and walkJSONValue over the
-- tokens of a decoder; Json/Tree is the values that such tokens spell.
-- Gateway/Routes is internal/gateway/modelmeta.go and routes.go: a route and its checks, the table
-- (Routes/Table), the annotations of a line (Routes/Annotations) and the file (Routes/File).
-- url.Parse, the dates and the environment are parameters.
-- Gateway/Budget is internal/gateway/budget.go. A FileBudget is its settings, and its database is
-- the bytes stored under one key; reserve and release are (*FileBudget).Reserve and Release with
-- the transaction's body, the error paths and the rollback of db.Update. The clock, the end of the
-- context and the commit are inputs of a call (Call). Budget/History puts the calls of any number
-- of clients in one sequence, as bbolt's serialized transactions do. Budget/Multi is MultiBudget
-- over an interface Budget that Budget/Shared fills with file budgets, each with its own clock and
-- commits (Ceiling).
-- Budget/Open is the settings that OpenFileBudget accepts.
-- Gateway/Cost is internal/gateway/cost.go: prices in uint64 arithmetic, with the two-word product
-- and division of math/bits written out. Cost/Amount is ParseCurrencyMicros.
--
-- Mint models the redemption of tokens.
-- Mint/Token is Token.Encode, ParseToken and Verify of internal/mint/blind.go, with base64,
-- SHA-256 and the check of an RSA-PSS signature as a Crypto. Mint/SpentSet is the process-local
-- SpentSet of internal/mint/mint.go.
-- Mint/Seen is the map of redeemed fingerprints, Mint/Journal the records of
-- internal/mint/spentfile.go: encode_record is the record that appendRecordLocked writes, replay
-- the loop of refreshLocked, apply_record is applyRecord. CRC-32 is computed. Mint/SpentFile is
-- FileSpentSet: a store and the journal's bytes go through spend_identified, refund_identified and
-- retire_key, with every check of Spend, Refund and Retire in its place; what the operating system
-- answers to each check, lock and write is an input (System), and a write may stop behind any
-- byte. SpentFile/Processes puts the calls and starts of any number of processes in one sequence,
-- as the exclusive lock does.
--
-- Mint/Identity is the pinned identity of the same file: pin_or_verify is
-- pinOrVerifyIdentityLocked on the bytes of the lock file.
--
-- Mint/Receipts is internal/mint/receipts.go: claim is (*FileReceiptStore).Claim, with its
-- transaction's body.
--
-- Council/Signing is cmd/council/signing_state.go: begin_consensus_signing, commit and close are
-- beginConsensusSigning, Commit and Close on a state file and a lock directory. JSON and RFC 3339
-- are a Codec, whose decoders are assumed to undo the encoders; Council/Signing/Tests has one.
-- Council/Signing/History runs any number of signers on one state file, crashes and removed locks
-- included. Council/Serving is recordServedConsensus of cmd/council/serving_state.go, and
-- Serving/Sequence any sequence of its calls.
--
-- Directory models internal/directory. Directory is identity.go and the pins of
-- internal/certs/certs.go; Directory/Descriptor is descriptor.go, with ParseDescriptor in
-- Descriptor/Parse; Directory/Consensus is consensus.go, with ParseConsensus in Consensus/Parse;
-- Directory/Store is store.go; Directory/Fetch is client.go; Directory/Workflow is workflow.go,
-- with what a co-signer agrees to in Workflow/Agreement and merging in Workflow/Merge. base64,
-- Ed25519 and RFC 3339 are a record of functions, Libraries; the files of submissions are a table
-- from names to bytes, where whether a file can be read and written is an input, and the answers
-- of endpoints are inputs, in the order in which they are asked.
--
-- Policy is internal/policy/policy.go, the destinations of a ranger, with net.ParseIP as a
-- parameter.
--
-- Bearer is internal/bearer/guard.go with the handler of internal/bearer/status.go that applies
-- it; what url.Parse finds and which addresses are loopback are parameters. Health is the Tracker
-- of internal/health/health.go.
--
-- Checkout/Limiter is minuteLimiter of internal/checkout/server.go. Pool is internal/pool/pool.go:
-- candidates, dial_context, succeed, fail, backoff and too_stale. A pointer to a relay is a number
-- and the relays' fields are a heap; what each dial comes to is an input. refresh and install are
-- Refresh and install, with the shuffle and the fetched consensus as inputs.
--
-- Numbers are natural numbers; a uint64 keeps its wrap-around in add64, sub64 and mul64, and a
-- byte sequence is a list of numbers. The loop of refreshLocked recurses on fuel, of which as much
-- as there are bytes is enough, since a round consumes at least eight. walk_value recurses on fuel
-- too, of which twice the number of tokens and one more is enough, and the digits of a number n
-- are written with n + 1 of it. Everything else is structural recursion. Prelude/Text, Prelude/Net
-- and Prelude/Sort are the functions of strings, bytes, strconv, net and sort that the code calls,
-- with the white space and the letters of ASCII; Prelude/Table is a map from strings.
--
-- Not modelled: SHA-256, of which only the result is used; bbolt, files, locks and clocks beyond
-- what an input says of them; the transport of HTTP, TLS, JSON texts, RSA and blind signatures,
-- which are library code; responses translated from OpenAI's shape, the model catalog and the
-- start of the gateway; invites, the bearer's proxy and the payment client; the user interface,
-- the commands and the tools.
pub mod Prelude
pub mod Gateway
pub mod Mint
pub mod Council
pub mod Pool
pub mod Checkout
pub mod Directory
pub mod Policy
pub mod Bearer
pub mod Health
