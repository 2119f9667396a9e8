-- ===== src/Lib.antt =====
-- Verification of himmelcloak: native Keycloak authentication without a browser.
--
-- The program is a Rust library. A login is one `AuthFlow` (src/flow/mod.rs): its cookies, its secrets,
-- a deadline, and the page that waits for the caller. The driver (src/flow/driver.rs) fetches the
-- server's pages over HTTP (src/flow/fetch.rs), tells what each asks from its field names
-- (src/flow/classify.rs, src/flow/factor.rs), checks the caller's answers, posts the page's form
-- (src/flow/form.rs) and follows the server's own redirects up to the registered callback, where the
-- client (src/client.rs) redeems the code. The settings (src/config.rs) name the server and the realm,
-- and src/token.rs says which endpoints may be used, what the first request asks, and which ID tokens are
-- accepted. Tokens are asked for and refreshed at the standard endpoints (src/standard.rs), whose replies
-- go through the library's own JSON parser (src/sensitive_json.rs). Requests go through the transport
-- (src/transport.rs). Beside the login stand the reading of a group (src/admin.rs), one-time codes
-- (src/authn/totp.rs), a virtual authenticator (src/authenticator/software.rs), a PAM module and a
-- command line (crates/).
--
-- Which file models which part:
--   Prelude      shared names, tests, lists, texts as UTF-8 bytes, numbers, results (src/error.rs)
--   Platform     the `url` crate as a record of functions, and what is relied on of its origins
--   Transport    src/transport.rs: requests, responses, limits; `Machine` is the clocks, the random
--                generator and the HTTP transport, as functions on a world that they change. Slots is the
--                calls of `send` with their workers and permits, Balance and Drain its laws; Curl is the
--                callbacks of a transfer, Buffered and Headers its laws
--   Config       src/config.rs; Valid has its law
--   SensitiveJson  the parser of src/sensitive_json.rs; Strings is its strings, Advance and Fuel show
--                that it ends, Escapes and Orderly what it yields
--   Crypto       src/crypto.rs, on the keys of wolfCrypt; Keys has its law
--   Token/Discover  `discover` and `fetch_jwks` of src/token.rs; the record Codec is serde_json, base64
--                and wolfCrypt; Trusted has the law
--   Token/Endpoint, Token/Authorize  the endpoint rules and the authorization URL of src/token.rs
--   Token/Claims, Token/IdToken  the claims, keys and signatures of ID tokens in src/token.rs;
--                Token/Value is the JSON value that they are read from
--   Standard     src/standard.rs
--   Client       src/client.rs: Verified and Sessions have the laws of tokens and sessions, KeySet and Calls
--                those of the key set, Login that of a whole login, with the driver's App filled by the
--                client; Flows is how a client and its logins start
--   Admin        src/admin.rs; Pages has its laws
--   Totp         src/authn/totp.rs; Codes has its laws
--   Authenticator  src/authenticator/software.rs; Requests and Counter have its laws
--   Pam          crates/pam_himmelcloak/src; Plans has its laws
--   Cli          crates/himmelcloak-cli/src: Sync is sync_users.rs, Terminal and Login are test_login.rs
--   Flow/Types   the contract of src/flow/mod.rs and src/authenticator/mod.rs
--   Flow/State   `AuthFlow` of src/flow/mod.rs; Lifecycle has its laws
--   Flow/Jar     the cookie jar of src/flow/fetch.rs; Domains and Origins have its laws
--   Flow/Fetch   `send`, `get` and `post_form` of src/flow/fetch.rs; Isolation has their laws
--   Flow/Classify  src/flow/classify.rs: Scan is the pass over the tokens, Kind the page kinds, Label
--                the cleaning of labels
--   Flow/Form    src/flow/form.rs: Action has the laws of extraction, Submit those of posting
--   Flow/Factor  src/flow/factor.rs
--   Flow/Expect, Flow/Callback, Flow/Driver  src/flow/driver.rs
--   Flow/Session `exchange_code` and `complete_at_callback` of src/client.rs; the record App is what the
--                driver uses of a client application; Exchange and Redeem have their laws
--   Examples     the theorems at concrete inputs
--
-- How state and errors are modelled: an operation on `&mut` state takes the state and returns its result
-- with the new state, which stays written on an error, as it does under `?`. A clock that the code
-- reads is read from the world, in the code's order; where an operation reads it once, its reading is
-- the argument `now`. A text or byte vector is the list of its bytes; wiping one leaves it empty.
-- Integers are unbounded naturals where the code checks its arithmetic, and the checks are written out
-- (`checked_add`, `u64` parsing, the limits of a transfer).
--
-- Loops: a loop over a list is structural recursion. The redirect loop of `resolve` counts down the
-- redirects that may still be followed, five at the start, which is the code's own bound. The JSON
-- parser counts down the 129 levels of its depth limit, and its loops the bytes of the input; the loop
-- over the pages of a group counts down its limit of members. Fuel theorems show that more changes
-- nothing. The calls of the transport run as the steps of one at a time, in any order, on the free
-- permits and the list of the calls; the clock and the runtime only choose the next step. The login loop of the command line has no bound of its own, and its fuel is an argument.
--
-- Not modelled: serde_json, the toml crate, base64, HMAC, SHA-256, the key types and the random
-- generator of wolfCrypt, which are parameters; `Drop` and `Debug` implementations, whose only effect
-- is on memory and logs, but for the guards that end a login or restore the terminal, which are
-- written out; libcurl and its options;
-- the HTML tokenizer, a parameter whose tokens the scan takes; a future that is dropped in the middle
-- of a step, which ends the login as an error does;
-- the command line's configuration check; the placeholder modules.
pub mod Prelude
pub mod Platform
pub mod SensitiveJson
pub mod Transport
pub mod Config
pub mod Token
pub mod Flow
pub mod Standard
pub mod Client
pub mod Admin
pub mod Totp
pub mod Authenticator
pub mod Pam
pub mod Cli
pub mod Crypto
pub mod Examples
