-- ===== src/Lib.antt =====
-- A model of the core of QuinnAI, the platform that runs a tree of AI workers.
--
-- The parts, with the code that each module is about (paths from the repository's root):
--
-- State       shared/core/state.py: the states of workers, sessions and work items, the tables of
--             valid moves (WORKER_STATE_TRANSITIONS is worker_state_transitions, and so on), and the
--             maps between worker and session states
-- Agent       shared/pyterm/agent_state.py: AgentStateMachine, with its history and callbacks
-- Task        shared/wrkr/core/task.py, result.py, config.py: what a worker handles
-- Queue       the interface QueueOps of a queue with the laws that a worker relies on (QueueLaws);
--             Queue.Mock is MockQueue of shared/queue/interface.py, Queue.Beads is
--             InMemoryBeadsQueue of shared/wrkr/work/queue.py
-- Worker      shared/wrkr/core/worker.py: Worker.Machine has the state of BaseWorker with
--             transition_to and stop, Worker.Turn one turn of the loop (_tick, _handle_task,
--             _handle_result, _idle), Worker.Main run
-- Escalation  shared/escalation/ and shared/org/: the chart (Topology, Loader), the router, the
--             board and OrgEscalation (Org)
-- Delegation  cli/core/queries/delegation.py: grants of hiring authority, the chains and subtrees
--             that they make (Cycles), and their revocation (Revoke); delegate_authority of
--             cli/core/worker/delegation.py (Authority), with HiringScope and can_hire of
--             cli/core/worker/hiring.py (Authority, Hiring)
-- Providers   shared/provider_types.py and cli/providers/registry/: models with tiers and capabilities
--             (Models), ProviderRegistry (Registry), the attempt order, the choice of a model and the
--             fallback chain (Selection)
-- Budget      cli/core/queries/budget/ with the constraints and the trigger of cli/core/db/schema.py
--             (Tables, Action, Writes), BudgetService of cli/core/budget/service.py (Checks, Service),
--             cli/core/budget/enforcer.py (Enforcer), and complete_with_budget of
--             cli/providers/registry/budget.py (Completion)
-- Rules       cli/core/rules/: RuleEngine with its index, its cache of compiled expressions and its
--             audit log (Types, Engine)
-- Lifecycle   cli/core/lifecycle.py with the tables of cli/core/constants/beads.py (Config, Validate), and
--             check_lifecycle_transition of cli/core/bd_wrapper.py (Wrapper)
-- Permissions cli/core/permissions/access_control.py (Access) over the tables of cli/core/db/schema.py and
--             the grants of cli/core/queries/permission.py (Tables)
-- Prelude     lists, dictionaries and the stable sort over native numbers
--
-- How they interact: a worker takes tasks from a queue by QueueOps, moves through the states of
-- State, and hands what it cannot do to an escalation handler, whose EscalationResponse
-- (Escalation.Interface) can bring new tasks. Worker.Stores puts a worker on InMemoryBeadsQueue.
-- Budget.Completion puts the choice of a provider, the enforcer and the tables of budgets together.
--
-- A method is a function from the state to the state, with a result or an exception as a value.
-- What is outside is given: a Tick holds what execute, the escalation handler and the clock do in
-- one turn of the worker's loop; the handlers of an escalation, the bd client, the creator of board
-- messages and the callbacks are arguments that change a state of the outside. A database is a
-- record of its rows in the order of insertion, in which fetchone reads the first match. The tables of
-- budgets stand twice in a store, as they are and as they were committed, with the faults to come: each
-- query that writes commits, and a transaction that fails rolls back to what was committed. The results
-- of Budget.Run, Budget.Revoke and Budget.Completion are about a database that takes every write;
-- Budget.Partial and Budget.Service also have refused ones.
--
-- Two things of the budget are exact here and are not in the code. Credits are whole multiples of a
-- smallest unit, 10^-8 dollars where costs are computed; the code's are floats, of which the checks hold
-- only up to rounding. And rows with the same period_start stand in a fixed order, the row that was
-- inserted first before the others; SQLite leaves the order of such rows open.
--
-- Loops: the worker's main loop runs over the turns that are given. get_escalation_path and the
-- searches and the recursion of Delegation run on fuel. get_escalation_path needs as many rounds as
-- its path has targets (Escalation.Paths.path_iff), and never ends on a circle of bosses; the search
-- for cycles needs two rounds more than there are grants; a revocation needs the rank of the delegate
-- and one more.
--
-- Not modelled: SQL, the bd program, terminals, providers and the user interface, which are outside
-- calls; BeadsQueue and BeadsOrgLoader, which do by the bd program what the versions in memory do;
-- times of records, and logging; the compiling and searching of regular expressions and fnmatch, which
-- are functions that are given; the capabilities of roles, and the hiring itself.
pub mod Prelude
pub mod State
pub mod Agent
pub mod Providers
pub mod Budget
pub mod Rules
pub mod Lifecycle
pub mod Permissions
pub mod Task
pub mod Queue
pub mod Escalation
pub mod Delegation
pub mod Worker
