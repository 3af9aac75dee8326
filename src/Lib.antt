-- ===== src/Lib.antt =====
-- Verification of the core of the Kyrux web framework, a server-side rendering framework in Go.
--
-- The program's parts and their files
--   core/orm builds SQL from a fluent query and sends it with its arguments through core/database.
--     Orm/Ident        query.go: the checks validIdent, validJoinOn and validDefault. Each regular
--                      expression is an automaton on code points.
--     Orm/Rewrite      exec.go: isPG and rewritePlaceholders, which numbers `?` for PostgreSQL.
--     Orm/Model        model.go: Field and ModelMeta, with the arguments and the errors of queries.
--     Orm/Query        query.go: whereClause, Query, and every method that changes a query. In
--                      Orm/Query/Methods `Method` is a call of one, and `chain` a chain of calls.
--     Orm/Select       query.go: writeWhere, writeFrom, writeSelectHead, writeOrderBy, buildSelect
--                      and buildSelectPage; exec.go: qualifiedTable.
--     Orm/Statements   query.go: what All, First, Exists, Count, the aggregates, Update and Delete
--                      send, or the error with which they refuse.
--     Orm/Insert       exec.go: nonPKCols, rowValues, isZeroValue, and the statements of createInto,
--                      insertChunk and createAllInto.
--     Orm/Meta         model.go: buildMeta over the fields of a struct, toSnake and pluralSnake; its
--                      theorem gives what the theorems on statements ask of a model.
--     Orm/Last         query.go: Last and reverseOrder.
--     Orm/Prefetch     prefetch.go: Prefetch, which gives each row the related rows of its key.
--     Orm/Paging       query.go: clampPaging, Paginate, PaginateNoCount and PaginateAfter.
--     Orm/Marks        the placeholders of a text, which the proofs count.
--   core/security/session holds the sessions of visitors, with an index by user.
--     Session          session.go: Session, Store, New and NewForKey, Get, Delete, one tick of gc,
--                      FromRequest, and the values of a session.
--     Session/Lifetimes  the life of a store as a relation on its states.
--   core/queue runs background tasks with retries.
--     Jobs             queue.go: Enqueue, enqueueTask, process, requeue, Close and the workers of
--                      the mode in memory, as steps on a state.
--   core/cache keeps values for a time.
--     Cache            cache.go: Set with its eviction, Get, Delete and the sweep, in memory.
--   core/security/auth logs users in and slows down guessing of passwords.
--     Throttle         throttle.go: blocked, fail, reset, sweepLocked and SetLoginThrottle.
--     Login            login.go: Login, Logout and GetUser, which use the session store and the
--                      brake, and NextURL in Login/Redirect.
--   core/security/csrf and core/security/middleware guard the handlers.
--     Web              a request as the guards read it.
--     Csrf             csrf.go: Middleware, TokenFor, Exempt, and what they call.
--     Guards           middleware.go: AllowedHosts, RequireAuth, CORS, SecureHeaders, LocalhostOnly
--                      and RequireLogin, which asks the session store; RateLimit in Guards/Limit.
--   core/security/captcha asks a visitor to read a picture.
--     Captcha          store.go: setCode and Verify; captcha.go: New, over the session store.
--   core/router takes requests to handlers.
--     Router/Params    params.go: convertPattern, extractParamNames, displayPath, slashAlternate.
--     Router/Serving   router.go and urls.go: Handle, Internal, Use, the chain of middlewares, Include
--                      and Resolve, and the writer that intercepts 404 and 405.
--   core (core.go) activates modules that core/registry makes, through core/lifecycle, and keeps their
--   values in core/container.
--     Lifecycle        the four packages: Add, StartAll, ShutdownAll, Register, New, Provide, Resolve,
--                      Activate, UseModule, Use, Run and Shutdown.
--   core/database/migrate and core/environment prepare the start.
--     Migrate          migrate.go: Run, ExecDown and Unrecord; the texts of the files, SplitMigration
--                      and extractTableNames, in Migrate/Texts.
--     Environment      environment.go: Load, Get, GetOr and GetBlocks.
--   Prelude has the names that the others share: texts, lists, maps as association lists, and the
--   tests of numbers and texts.
--
-- How state and errors are modelled
--   A Go struct is a record, a method a function from the old state to the new one. A query is
--   changed through its pointer and returned, so a function to the new query has the same effect. A
--   recorded error stays in the field `err`, as in the source. A lock makes each method of a store
--   one step, so steps in any order are the interleavings of requests. Enqueue, requeue and the Verify
--   of the captcha release their lock in between and are two steps each.
--   Time is a natural number that each operation takes as an argument.
--   A Go map is an association list. Where the source ranges over a map, either the order is sorted
--   at once (Update), or the result does not depend on it (gc). The error of Update for an unknown
--   column names the first one in the list's order; Go takes any.
--
-- Bounds and fuel
--   Numbers of pages, sizes and limits that are asked for are natural numbers: the source treats
--   every number below 1 alike. In clampPaging and in the offsets an int is kept modulo 2^64, with its
--   wrap-around written out, and compared as a signed number; max_int is 2^63 - 1. strconv.Itoa is
--   written with fuel above the number, of which each step takes a tenth.
--
--   The loop of CreateAll takes one round for each chunk, with as much fuel as there are rows; a
--   theorem says that this is enough. The loops on texts are structural: where the source jumps
--   ahead in a text, a count says how many characters are still to be passed.
--   The positions in a text are counted in characters where the source counts bytes of texts in which
--   only whole characters are cut.
--
-- Parameters
--   The hash and the cipher of core/security/crypton are functions that may fail. What the database
--   answers to a statement is a function from the statement to rows or an error; the theorems on
--   Paginate and PaginateNoCount take as hypothesis that it answers a page SELECT by that page of
--   some rows, and a count by their number.
--   The random identifier of a session is an argument; its freshness is a premise of the step.
--   The key that a full cache evicts is chosen by a function of its entries; the bound on its size
--   takes as hypothesis that it chooses one of them.
--   HMAC, the drawing of tokens, and what net/http reads of forms, addresses and headers are
--   parameters of the guards. The tables of the package unicode are parameters of Orm/Meta and
--   Migrate; the theorem on models takes as hypothesis that lower case makes no question mark of
--   another character. What a migration does to the database is a parameter; the theorem on a second
--   run takes as hypothesis that recorded names stay. What a module of a Core does is a function that
--   may fail.
--   What a handler of a task does is an argument of the step that runs it. The lookup of a user and
--   the check of a password are parameters of Login; a lookup that fails is `none`, since Login
--   answers every error of it alike.
--
-- What is not modelled, and why
--   The packages that only call a service or the operating system (core/adapters, core/nosql,
--   core/mail, core/soap, core/cli, core/hotreload), the scanning of rows by reflection, and
--   core/internal/greetertest, which is generated. Of the query builder: GetOrCreate, UpdateOrCreate,
--   the key that an INSERT gives back, and the cursor that PaginateAfter reads from the last row. Of
--   the queue and the cache: the mode with Redis. Of the login: the cookie and the equalisation of
--   the timing. Of the router: the matching of paths, which is net/http's, the pools of contexts, and
--   HandlePrefix. The events of the lifecycle, which only inform. The rendering, the events and the
--   admin have no model yet.
pub mod Prelude
pub mod Orm
pub mod Session
pub mod Jobs
pub mod Throttle
pub mod Login
pub mod Cache
pub mod Web
pub mod Csrf
pub mod Guards
pub mod Router
pub mod Lifecycle
pub mod Migrate
pub mod Environment
pub mod Captcha
