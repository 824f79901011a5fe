-- ===== src/Lib.antt =====
-- A model of the Microgateway, an API gateway of HTTP middlewares, and of its OAuth 2.0 provider.
--
-- A request runs through a chain of middlewares. The api-matcher narrows the API entries of the
-- context to the candidates of the best score for path and method; the security-check evaluates
-- the security requirements of each candidate and chooses one; policies and rate limits follow.
-- The OAuth provider is an authorization server: grants and exchanges are registered with it, the
-- token endpoint runs the exchanges for a grant type, and these call the provider's functions, which
-- validate and rotate tokens in a store of LoopBack models.
--
--   Common     lists, options, texts, objects with string keys, and the lemmas that all parts share
--   Api        the fields of an API entry that matcher and security check read
--   Matcher    lib/api-matcher/index.js. The loops are `loop`s over lists; what `RegExp.test` gives
--              is an argument. `candidate`, `matches` and `bestScore` are Candidate and Search.
--   Security   lib/security-check/security.js (Security), eval-apikey.js (Security/ApiKey) and
--              index.js (Security/Champion). `async.forEach` is the record ForEach, whose laws say
--              what its documentation says: an iterator answers at once, the callback gets no error
--              when all have ended without one, and else the error of one of them. Security/InOrder
--              is an instance. The handler of a definition is an argument.
--   Security/Basic   lib/security-check/eval-basic.js, and Security/Ldap basic-ldap.js. HTTP replies,
--              the data store and the client of ldapjs are the records Services and Client.
--   RateLimit/Headers     policies/rate-limiting/helper.js: what a response says of the limits
--   RateLimit/Limiter     policies/rate-limiting/index.js and token-bucket.js. The package limiter is
--              the record Limiter, with the laws of a window of time; RateLimit/Limiter/Counting is
--              an instance.
--   RateLimit/Middleware  lib/rate-limit/index.js and util.js. `async.series` is the record Series.
--   Policies   policies/operation-switch, set-variable, validate and throw, lib/cors/index.js, and
--              lib/error-handler.js (Errors), where the reading of a property of `undefined` is an
--              outcome. The module url is the record Urls of OAuth/Authorization. Policies/Loader is
--              the constructor of lib/policy-loader.js over the record Files.
--   OAuth/UnorderedList   lib/oauth2/az-server/unorderedlist.js
--   OAuth/Server          lib/oauth2/az-server/server.js, and middleware/token.js beside it. The
--              methods return the changed server; handlers are functions on a state, and their calls
--              of `next` are values of Reply. The recursion of `next` is that on the stack.
--   OAuth/Exchange        lib/oauth2/az-server/exchange/*.js. `issue` and `JSON.stringify` are
--              arguments.
--   OAuth/Helper          lib/oauth2/oauth2-helper.js, of which `validateToken` is in OAuth/Grants
--   OAuth/Store           lib/oauth2/models/index.js over the record DataModel, a LoopBack table with
--              the laws of `create`, `findOne` and `destroyAll`. OAuth/Store/Memory is an instance.
--   OAuth/Provider        the other `issue` functions of lib/oauth2/az-server/index.js, its middleware
--              (Dispatch), the pool of servers (Pool), and in Registry the server with the exchanges
--              of the token endpoint, which the middleware of OAuth/Server runs.
--   OAuth/Authorization   lib/oauth2/az-server/grant/code.js and token.js, over the record Urls for the
--              module url
--   OAuth/Resource        lib/oauth2/resource-server/resource-server.js. The decoding of a token is its
--              outcome, and its verification an argument.
--   OAuth/Grants          the `issue` functions for codes and refresh tokens of
--              lib/oauth2/az-server/index.js. The store's callbacks run at once and do not fail;
--              JWT decoding and verification are arguments, as are the new tokens.
--   OAuth/Session         lib/oauth2/az-server/middleware/authorization.js and transactionLoader.js, with
--              decision.js (Decision), id-extractor.js (Login) and the handlers of az-server/index.js
--              beside them. A session is its transactions by their ids. Steps is the relation of what
--              one request can do to a session, and Consent joins the decision to the code grant.
--   OAuth/Clients         lib/oauth2/az-server/middleware/authentication.js; Handlers joins it to the
--              token endpoint of OAuth/Provider/Registry
--   Context    lib/apim-context/index.js: the conversion of one parameter, all parameters (Parameters),
--              the expression of a path (PathRegex), and the body (Body); and lib/postflow/index.js
--              (Postflow). A promise is a value of Promise, of which one that pends is never settled,
--              and one that crashes is left by an exception in a callback.
--
-- Times are natural numbers of milliseconds; lists are finite and every function is total by
-- structural recursion. Fuel occurs twice: the loop of `makePathRegex` runs once for each '{' of a path
-- and once more, so that one more than the number of variables is enough; and `convertToType` calls
-- itself for the elements of an array, which two levels are enough for where these are no arrays.
-- `Number.MAX_VALUE` is the number it denotes, and scores are natural numbers. Upper and lower case
-- are those of ASCII letters.
--
-- Not modelled: the limiter on a Redis server, the policies that run scripts, templates or network
-- requests, the context variables and their population, the login and consent forms, the middlewares
-- around the resource server, the other loaders, and the start of the gateway.
pub mod Common
pub mod Api
pub mod Matcher
pub mod OAuth
pub mod Security
pub mod RateLimit
pub mod Policies
pub mod Context
