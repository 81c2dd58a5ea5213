-- ===== src/Lib.antt =====
-- A model of the Cloud Tasks emulator's core, and the theorems about it.
--
-- The emulator is an engine (core/engine.go) that keeps queues by name and IAM policies by resource.
-- A queue (core/queue.go) keeps its tasks, the names it still reserves, a rate limiter and a
-- semaphore, and is driven by timers: one fires a task, one ends its lifetime, one frees a reserved
-- name. A firing hands a snapshot of the task to the dispatch (core/dispatch.go), whose outcome is
-- applied to the queue: the task is done, is dropped, or is scheduled again after a backoff. The
-- adapters of emulator/ and rest/ call the engine.
--
-- The files:
--   Base         Booleans, lists, integers of a machine's width, byte strings, dictionaries
--   Std          what the code uses of Go's library and is written out here: decimal numbers
--                and quoted texts (strconv), base64 (encoding/base64), sorting (sort.Strings),
--                splitting and joining (strings), texts and objects of encoding/json and the headers
--                of net/http
--   Core.Types   core/types.go: State, TargetType, Auth, Target, Queue, Attempt, Task
--   Core.Status  the errors: a code and a message that is still a term, and the error monad
--   Core.Float   the float64 values that a rate can have
--   Core.Naming  core/naming.go: the patterns, parseQueueName, parseTaskName, resolveTaskName
--   Core.Page    core/engine.go: paginate
--   Core.Limits  core/queue.go: applyQueueDefaults, computeBurstSize
--   Core.Validate  core/engine.go: validateCreateTask
--   Core.Retry   core/queue.go: shouldRetry, backoff
--   Core.Queue   core/queue.go: queueState and taskState; Removal has removeLocked, expire, purge and
--                stop; Attempts has fire, snapshotAttempt, applyAttempt and attempt; Unique and Cells
--                are about the names in the map of tasks, Ends about a task that keeps failing
--   Core.Book    what a queue shows to its clients, without its heap, timers and counters: the tasks and
--                the reserved names; Turns says what each step of a queue at work is
--                for the book
--   Core.Dispatch  core/dispatch.go: methodOrPost, appEngineHost, httpToRPCCode; Override has
--                applyHTTPOverride and applyURIOverride, Request has buildRequest and dispatch
--   Core.Engine  core/engine.go: Engine; Queues, Tasks and Iam have its operations
--   Core.Runtime  the goroutines of a queue between their lockings: the waits of fire, the sending of
--                attempt and of RunTask, and the calls of the engine beside them, as a step relation
--   Core.Oidc    core/oidc.go: NewSigner, Token, the documents of Handler
--   Rest         rest/route.go and rest/rest.go: Template has parseTemplate, Route splitRequestPath and
--                match, Registry routesFor, Status the names of the codes, Serve ServeHTTP
--   Rest.Fields  rest/decode.go: resolveField and lookupField over a schema of messages; Assign has
--                jsonLiteral, assign and setField, Decode has decode
--   Emulator     emulator/conv.go; V2 has the tasks of emulator/v2.go, V2.Queues its queues and
--                V2.Server its calls of the engine; V2Beta3 has the tasks of emulator/v2beta3.go,
--                V2Beta3.Queues, Overrides and Targets its queues, V2Beta3.Server its calls
--   Command      main.go: parseFlags with envOr, envBool and splitList, openIDAddr, the queues that
--                run makes at the start
--   Tests        the theorems at concrete inputs
--
-- How the code corresponds to the model: an operation of Go becomes a function of the same name, in
-- snake case, from a state to a state and a result. Where it can fail, `try_create_task` and the like
-- are the code up to its errors, and `create_task` gives back the old state with an error. A pointer
-- to a task state is an index into the queue's heap, so that a timer's function and the map of tasks
-- share it as in the code; a semaphore is shared likewise. A timer is an entry in the queue's list of
-- armed timers. The time is an argument of the operations that read the clock, in nanoseconds since
-- Go's zero time; a time.Duration is an integer; int32 and uint64 wrap around where the code computes
-- with them. A string is its list of bytes. A map is an association list. Where the order in which
-- Go goes over a map shows, in the headers of a request and of a queue's HTTP target, it is an argument
-- (`Network.order`, `Order`); elsewhere the model goes over the keys in their order in the list.
--
-- Bounds and fuel: `round_from` looks for the 53 leading bits of a number below 2^64 and needs at most
-- 11 steps, which is its fuel; `digits` divides a number by ten with a fuel above the number; `walk`,
-- which follows page tokens, has its fuel as an argument; `runes`, which reads a text's UTF-8, has the
-- text's length, and each rune takes a byte at least. Nothing else runs on fuel.
--
-- Not modelled: in Core.Engine an operation is one step, so what may happen between two lockings of
-- one call is left out there; Core.Runtime has the lockings of one queue apart. When a
-- limiter lets a goroutine pass is golang.org/x/time/rate's, an argument of the steps (`Passes`). In
-- `attempt` the dispatch is a function from the snapshot to its outcome, such as `dispatch` with a
-- sending for net/http's. net/url's parsing and printing and the check that http.NewRequest makes
-- are parameters. Of rest, protocol buffers and their reflection are arguments: the descriptors of
-- messages, protojson's reading of a document, the bindings of a service and the call of a method. RSA,
-- SHA-256 and certificates are arguments of the OIDC signer. The running of the servers, which is input
-- and output, is not in the model. What a float64 above the int64s becomes as a time.Duration is left to
-- the machine by Go, and is a parameter (`Machine`).
pub mod Base
pub mod Std
pub mod Core
pub mod Rest
pub mod Command
pub mod Emulator
pub mod Tests
