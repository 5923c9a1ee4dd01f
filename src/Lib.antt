-- ===== src/Lib.antt =====
-- The MCP governance gateway: a library of its model and of the theorems about it.
--
-- The gateway stands between clients that speak the Model Context Protocol and the systems of record
-- of a team: memories, an issue tracker, reviewed documents and CI. Each tool call passes, in
-- src/mcp_governance_gateway/mcp.py, the policy, the test of the argument names and the handler of
-- the tool's family; a handler validates its arguments, takes a quota, asks for a confirmation where
-- a write needs one, and only then calls a backend; the call ends in a reply and an audit event.
--
-- The parts, and the files that model them (paths of the code below src/mcp_governance_gateway):
--   * Base and its children: numbers, texts, dicts as association lists, instances of equality.
--   * Value: JSON values and dicts of arguments. Errors: exceptions as values. Runtime: what is
--     taken from Python's library.
--   * Principal: `Principal` of auth.py, `RequestContext` of memory_backend.py, attribution.py.
--   * Confirm: `ConfirmationStore` of confirm.py. `Store` holds `_pending` and `_owned`; `issue` and
--     `verify` are the methods, `drop`, `prune`, `evict_own` and `evict_total` their steps. Its
--     children hold the invariant, runs of calls, verdicts, the binding to a caller and isolation.
--   * Limits: `InMemoryMemoryWriteLimiter` of limits.py; Window relates its deques to the history of
--     granted calls, Reads and Writes compare it with counting.
--   * Policy: policy.py; Decision characterises `decide`, Discovery compares it with `tools/list`.
--   * Tools: Spec, Specs and Registry are tools/base.py, the `TOOLS` of each family and
--     tools/registry.py; Args is tools/args.py; Host is the `ToolHost` contract with the two gates
--     of mcp.py; Calls holds the handlers of the memory, issues, CI and docs families.
--   * Auth: auth.py. `Source` is a token file, `TokenIndex` is `_TokenIndex`; Scan compares the
--     digest index with the map of tokens, Vouched is about the identity headers.
--   * Oidc: oidc.py, with `GrantsFile` in Grants; Times are the numbers of claims
--     and the clock; Granted is about admitted tokens, Fetches about the fetching of keys.
--   * Server: `_mcp` of server.py, from the bearer to the reply of `handle_rpc`.
--   * Hotfile: `ReloadingFile` of hotfile.py, compared in Follows with parsing at each access.
--   * Keystore: `CredentialStore` of redmine_keystore.py, its writes in Write.
--   * Review: `ReviewSpec` and its parsing of review_backend.py; Review.Service is
--     `DocsReviewService` of docs_review.py.
--   * Corpus: `DocsCorpus` of docs_backend.py, with the tests of served files in Load,
--     `load_docs_repos` in Repos, and in Clone what a refresh does to the clone on disk; Documented
--     says what git is supposed to do.
--   * SecretScan: secret_scan.py.
--   * DocsAssets: `AssetStage` of docs_assets.py, its claims in Claims.
--   * Gateway: `GatewayApp` of mcp.py, from `handle_rpc` to `_audit`, and `AuditEvent` of audit.py.
--
-- State is passed on explicitly: a method becomes a function from the state to its result and the
-- next state. The locks make each method one step, so an interleaving of threads is a list of calls;
-- within a tool call a handler's steps are composed without calls of other threads between them.
-- An exception is a value of `Error`, and the state that a raising method leaves is kept.
--
-- A time is a natural number of microseconds, read from the clock where the code reads it and passed
-- as an argument, save the claims of a token, which are compared as the numbers that they are; limits
-- and caps are natural numbers, and 0 stands for a limit that is zero or less.
-- Every loop of the modelled code runs over a list or a dict and is recursion on it, so no fuel is
-- used.
--
-- SHA-256, `json.dumps`, `str`, `repr` and regular expressions are the parameters of `Runtime`; the
-- HMAC of the identity headers, AES-GCM of the credential store, `int` and `str.casefold` are
-- arguments of what uses them. A backend, and the adapter of a review host, is a function `answer`
-- from the calls sent before and the present one to its answer; the lookup of credentials is a
-- function of the actor and the backend. What a run of git comes to and what the file system gives
-- is an argument of each step, as are the clock and the rounding of floats. The texts of a tool's
-- definition for the client are a parameter too. The nonces that
-- `secrets` draws are arguments, and a theorem that needs them fresh says so.
--
-- Not modelled: the other routes of the HTTP server and the HTTP adapters of the backends, which
-- are input and output; of OIDC the decoding and the cryptography, which are arguments, and
-- discovery; of the docs corpus the frontmatter, the provenance, the index with its search, the
-- listing and the lint; of the key store the decoding of the master keys; configuration and the
-- command line.
pub mod Corpus
pub mod Auth
pub mod Base
pub mod Value
pub mod Errors
pub mod Principal
pub mod Tools
pub mod Policy
pub mod Runtime
pub mod SecretScan
pub mod Limits
pub mod Confirm
pub mod Gateway
pub mod DocsAssets
pub mod Hotfile
pub mod Keystore
pub mod Oidc
pub mod Review
pub mod Server
