-- ===== src/Lib.antt =====
-- The agent development kit in Go: agents talk to a model, every exchange is an event, the events of a
-- session are stored by a session service, and a flow makes the contents of the next request from
-- them. This library models the parts that keep state or transform events, and proves what they do.
--
-- Where a Go call can fail, its model returns an `Outcome`: `ok`, `fail` with the error, or `panic`
-- for a run-time panic (a nil pointer, a write to a nil map, an index out of range, a failed type
-- assertion). A method that holds its mutex for its whole body is one step, a function from the old
-- state to the new one. Go's map is an association list (GoMap), whose order is the order in which
-- `range` visits it; the theorems hold for every order. Strings are lists of bytes. A value of Go's
-- type `any` is a value of a parameter `V`.
--
-- - Base: the shared names. Base/Tests, Lists, Equality, Prefix, Results and Integer are its parts.
-- - GoMap, GoMap/Laws: Go's built-in map.
-- - PySet (pkg/py/set.go): the generic set. Membership says what `Has` answers after each operation,
--   Equality treats `IsSuperset` and `Equal`, Invariant the keys and `PopAny`.
-- - State (types/session_state.go): the session state with its uncommitted delta. Reads and Prefixes.
-- - Genai: the structs of google.golang.org/genai, with the fields that are read.
-- - Event (types/event.go, types/event_actions.go): events. Event/Final is about `IsFinalResponse`.
-- - Session (session/session.go) and Service (session/in_memory_service.go): the session service, with
--   app and user state that sessions share. `create_session`, `get_session`, `list_sessions`,
--   `delete_session`, `append_event` and `list_events` are the methods of those names; `stored`,
--   `app_value` and `user_value` read the service. Store has the table of sessions, Shared and Commit
--   the shared state, Filed the invariant, Returned what the reading calls return, Visible
--   what one session sees of another. The clock and the generated UUID are arguments.
-- - Queue (pkg/py/pyasyncio/queue.go): the queue's calls that do not wait. Queue/History runs any
--   sequence of them beside a record of what was accepted and delivered; Queue/Live is the queue of
--   live requests (types/agent_live_request_queue.go). Queue/Goroutine has the blocking `Put`,
--   `Get` and `Join` as goroutines that wait on condition variables, Queue/Waits the steps of a
--   system of them; below it Counts numbers those that wait, Turns has one step of a goroutine,
--   Faithful and Stranded are invariants of a system, Progress is about woken getters, Cancelled
--   about contexts that end.
-- - Artifact (artifact/in_memory_service.go), with Paths and Versions; Memory (memory/in_memory.go),
--   with Reachable; Registry (model/registry.go), with Resolve.
-- - Calls (flow/llmflow/functions.go): IDs of function calls, long running calls, and the merging of
--   parallel responses, with Ids and Merge. Tools runs one tool, Handle is `HandleFunctionCalls` with
--   Silent, Streams runs a tool that may stream, Live is `HandleFunctionCallsLive` with Contexts and
--   Answers, Auth has `GenerateAuthEvent` and `FindMatchingFunctionCall`, with Unasked.
-- - Contents (flow/llmflow/contents.go): the contents of a request. Rearrange has the definitions of
--   the two rearrangements; Told has the whole of `getContents` on conversations without function
--   calls, on top of Talk, Foreign the replies of other agents, Latest the first rearrangement.
-- - Agents (types/agent_base.go): the search in the tree of agents, with Search. Stream has the
--   iterators of events, Run is `Run` of an agent with its callbacks, Workflow has `Execute` of the
--   sequential and the loop agent (agent/sequential_agents.go, agent/loop_agents.go), with Rounds and
--   Branches. Parallel (agent/parallel_agents.go) has the goroutines, the channel and the consumer of
--   `MergeAgentRun` as the steps of a state: Order is about what the consumer gets of each agent,
--   Progress about what can happen next, Ahead about how far an agent gets meanwhile.
-- - Flow (flow/llmflow/llm_flow.go): `Run`, its steps and `preprocess`. Respond is what follows a
--   response of the model, with the calls of Calls and the search of Agents; Call is `callLLM` with its
--   callbacks and the count of calls (types/agent_invocation_context.go). Hidden and Lost are about
--   what does not come out of a flow, Call/Unlimited about the limit on calls. Model
--   (types/model_llm_response.go) makes a response of one of the model, with Told.
-- - Request (types/model_llm_request.go): the request to a model with its methods, with Appended. Snake
--   (tool/tools/gemini_schema_util.go) is `ToSnakeCase`, with Shape.
-- - Task (pkg/py/pyasyncio/task.go): a task with its goroutine and the goroutines that use it. Phases is
--   its invariant, Settled is about what it returns, Callbacks about its callbacks. Task/Group
--   (pkg/py/pyasyncio/task_group.go) is a group with its monitors: Counted has the invariant, Monitored
--   its steps and `Wait`, Race the adding of tasks. Task/Timeout (pkg/py/pyasyncio/wait_for.go) waits
--   under a timeout, with Answers.
-- - Convert (types/aiconv/aiconv.go): the conversions to the structs of Vertex AI and back, of schemas
--   (Schemas, with Exact), of contents with their parts (Contents, with Carried), of tools and
--   generation configurations (Tools, with Exact), of safety settings and ratings (Safety, with
--   Undone), and of counts of tokens, feedback and reasons to stop (Usage, with Undone).
--   Convert/Undone has what they share. Fields that a conversion leaves out stand in one field
--   `others`.
-- - Executor: Context (codeexecutor/context.go) is the context of code execution, Tracks is about
--   what it can come to hold, Forgets about saving it; Blocks and Format
--   (codeexecutor/delimiters.go) are the code blocks of a text and the text of a result, Firsts is
--   about blocks that are found twice; Parts (codeexecutor/utils.go) is the code in the parts of a
--   content.
-- - Instructions (flow/llmflow/instructions.go): putting values into an instruction, with Repeats;
--   Transfer (flow/llmflow/agent_transfer.go): the agents that may be transferred to, with Targets.
-- - Prompt (internal/vertexai/prompt/template.go): Scan finds the variables of a template and checks its
--   braces, Apply puts values in, with Missing; Compile is the processor with its modes and the compiler
--   with its cache, with Executes.
-- - Planner (planner/plan_re_act.go): the parts of a response that the planner keeps and labels, with
--   Split.
-- - Tests: concrete runs.
--
-- How the parts interact: a flow asks Event for calls and responses, gives IDs to calls (Calls), and
-- builds contents from the events of a session (Contents, which uses Event, Calls and PySet); it hands
-- the calls of a response to Calls and a transfer to the agent that Agents finds; the
-- session service stores events and commits their state deltas (Service, on Session and Event).
--
-- Every loop but two is structural recursion on the list or the stream that it walks. The loop of
-- `LoopAgent` runs on fuel, one unit for each time round; Rounds says which fuel is enough. The
-- loop of `LLMFlow.Run` runs on fuel too, one unit for each step; where its processors yield
-- nothing, one unit is enough, and what is said of errors holds on any fuel. Parameters stand for
-- what the code takes from elsewhere: regular expressions (`compiles`, `matches`),
-- `strings.ToLower` (`lower`), the text that `%v` prints (`show`), go-deepcopy of a nil source
-- (`copy_nil`), Go's text/template, decimal printing (`decimal`), the order of `range` (`visit`),
-- structpb, package unicode and random IDs. The regular expressions of Prompt are scanners.
--
-- A tool, a callback and a task are parameters too, with the world that they change; they are taken not
-- to write to the maps that they are given, and the actions of an event are those at the time when it
-- is made.
--
-- Not modelled: the waits for several functions; the live runs of agents and flows, which forward
-- what connections and agents send; the built-in planner and the back ends of code execution;
-- clients of remote services (models, Vertex AI, credentials); the other conversions between client
-- libraries; logging.
pub mod Base
pub mod GoMap
pub mod PySet
pub mod State
pub mod Transfer
pub mod Genai
pub mod Event
pub mod Executor
pub mod Instructions
pub mod Session
pub mod Service
pub mod Queue
pub mod Request
pub mod Snake
pub mod Artifact
pub mod Registry
pub mod Memory
pub mod Calls
pub mod Contents
pub mod Planner
pub mod Prompt
pub mod Agents
pub mod Flow
pub mod Model
pub mod Convert
pub mod Task
pub mod Tests
