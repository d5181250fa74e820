-- ===== src/Lib.antt =====
-- A verification library of the MCP gateway that lets agents discover and call Swagger APIs.
--
-- The gateway serves MCP tools over stdio or HTTP. The tool swagger.http.execute makes upstream
-- calls: it resolves the base URL, prepares the request, checks its URLs, asks the policy
-- (internal/policy), consumes a human confirmation (internal/confirmation) where the policy wants
-- one, validates the request, adds upstream credentials (internal/upstreamauth), and hands it to an
-- HTTP client with limits on rate and concurrency (internal/httpclient), whose URL checks are those
-- of internal/netguard. Resources are served by the stores of internal/resouce.
--
-- The files:
-- Prelude, Text, Dict, Value, Float: the library names that are shared, tests on numbers and lists,
--   Go's pairs of a value and an error (Result), strings, maps, decoded JSON with cloneAny, where a
--   []string that the resolver or a tool puts beside []any is `strings`, and float64 to int64.
-- Confirmation: internal/confirmation. One function per method of MemoryStore (request, confirm,
--   consume_approved with cleanupLocked as cleanup_locked); Call and step are its calls in any order.
-- Policy: internal/policy. new_evaluator is NewEvaluator, evaluate is DefaultEvaluator.Evaluate.
-- HttpClient: internal/httpclient. Limiter has minuteLimiter and keyedMinuteLimiter; Flow has
--   Client.Do as steps of calls that interleave, with both semaphores.
-- NetGuard: internal/netguard. Guard has ValidateURL and ValidateHost, Address has isBlockedIP.
-- UpstreamAuth: internal/upstreamauth. Fixed has the bearer and API key providers, OAuth the
--   client-credentials provider with its token cache.
-- Resource: internal/resouce. Composite has CompositeStore over any stores, Memory has MemoryStore.
-- Registry: internal/tool/registry.go, with Sorting for sort.Strings.
-- Contract: the contract of an operation, with the types of internal/swagger/contract.go. Validator
--   has validateValueAgainstSchema of internal/tool/swagger_http_common.go, Validate has
--   validatePreparedRequest and validateResponse; Conforms and Accepts say what they decide.
-- Auth: internal/auth. Claims has the claims of jwt_jwks.go, Validators has Validate of both
--   validators, the cache of introspections and Middleware.
-- Audit: internal/audit/logger.go. Redaction has redactNode and redactHeaders, Logger has LogCall.
-- Input: internal/tool/swagger_http_common.go and policy_request_confirmation.go. Values and Parse
--   read the decoded JSON of a tool call (parse_execute_input is parseExecuteInput), Confirm has the
--   tools policy.request_confirmation and policy.confirm.
-- Prepare: prepareEndpointRequest of internal/tool/swagger_http_common.go in Request, with
--   expandPathTemplate in Template, buildTargetURL in Url and encodeRequestBody in Body.
-- Tools: swagger_validate_request.go, swagger_prepare_request.go and swagger_validate_response.go of
--   internal/tool in Checks, and decodeResponseBody, normalizeResponseBody and bodyForValidation of
--   swagger_http_common.go in Bodies.
-- Execute: SwaggerExecuteTool.Execute of internal/tool/swagger_execute.go and internal/correlation.
--   Tool.execute threads the store of confirmations and yields the effects on metrics, audit log and
--   HTTP client in order. Its policy is a parameter that Cleared instantiates with Policy.evaluate.
-- Settings: Config.Validate of config/validate.go.
--
-- Conventions. A text is the list of its code points, and case is mapped for ASCII letters only.
-- Times are nanoseconds from Go's zero time, on ℕ; int, int64 and Duration values that can be
-- negative are ℤ, and the product of parseExpiresIn and the seconds of time.Unix wrap at 64 bits. A
-- float64 is the decimal m * 10^-e; its conversion to an int64 outside the range, which Go leaves
-- open, is the one of amd64, the least int64. A map is an association list;
-- where Go leaves the order of a loop over a map open, the file says so. A nil interface value is
-- `none`, receivers are not nil. A method that holds one mutex is one step; readings of the clock and
-- random values are arguments. Two recursions
-- run on fuel, each with a theorem that it is enough: redactNode through texts that hold JSON, on the
-- length of the text, and validateValueAgainstSchema, on the size of the schema.
--
-- Parameters, the code outside the repository or behind an interface: net/http, net/url, golang-jwt,
-- net.SplitHostPort, netip.ParseAddr and the resolver, encoding/json, encoding/base64, strconv,
-- crypto/rand, and, for Execute, the swagger store, the policy, the credentials and the HTTP client
-- (Execute.Env.Env).
--
-- Not modelled: the search, planning and payload tools of internal/tool, the loader,
-- parser, resolver and store of internal/swagger, the keys of internal/auth/jwt_jwks.go,
-- internal/metrics, internal/prompt, internal/usecase, the servers of
-- internal/server and cmd, which are I/O, wiring or not reached yet; sorting in MemoryStore.List;
-- contexts and their cancellation other than the steps of Client.Do; and the texts of error
-- messages and audit entries, on which no condition depends.
pub mod Prelude
pub mod Text
pub mod Dict
pub mod Float
pub mod Value
pub mod Confirmation
pub mod Policy
pub mod Resource
pub mod Audit
pub mod Auth
pub mod Registry
pub mod UpstreamAuth
pub mod HttpClient
pub mod NetGuard
pub mod Contract
pub mod Input
pub mod Prepare
pub mod Tools
pub mod Execute
pub mod Settings
