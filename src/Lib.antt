-- ===== src/Lib.antt =====
-- A model of coleman, a platform for adaptive test prioritization in continuous integration, with
-- the theorems that its components rest on.
--
-- The parts, and where they are:
-- Base: what the parts share. Boolean tests, lists, sorting, dictionaries, integers, and `Result`
--   for a call that may raise.
-- Resources: coleman/resources. Resources/Contracts has the events and estimates of contracts.py;
--   Resources/State and Resources/Replay are `_Replay` of ledger.py, with each guard of `apply`,
--   `_intent`, `_execution` and `_reserve`; Resources/Ledger is `ResourceLedger` (`_verified`,
--   `append`, `balance`); Resources/Selecting is `select_resources` of selection.py. Attempts,
--   Balance, Containment, Overruns, Ledger/* and Selecting/* prove.
-- Search: coleman/selection. Search/Contracts has the validators of contracts.py,
--   Search/Mathematics the arithmetic of mathematics.py, Search/Limits the preflight and
--   `WorkCounter` of resources.py; Search/Monad, Search/Solver, Search/Run and Search/Solve are
--   solver.py. Triple is a program logic for the bodies of the search; Selections, Invariant,
--   GreedyFeasible, BranchFeasible and Feasible prove with it.
-- Agent: coleman/agent. Agent/Frames has the joins of data frames, Agent/State the operations of
--   `Agent`, `RewardAgent` and `RewardSlidingWindowAgent`. The credit assignment is that of
--   coleman/policy/base.py. Sets, Actions, Observing and Window prove.
-- Evaluation: coleman/evaluation. Evaluation/Metric has `process_test_suite` of base.py with both
--   budgets, and the checks of `NAPFDVerdictMetric.evaluate` in napfd.py. Masks and Counting prove.
-- Bandit: coleman/bandit. Bandit/Arms has the operations of `Bandit`, `DynamicBandit` and
--   `EvaluationMetricBandit`. Priority proves.
-- Checkpoint: coleman/checkpoint. Checkpoint/Store has `LocalCheckpointStore` and
--   `NullCheckpointStore` over an explicit file store, a save as its steps on the files. Crash
--   proves.
-- Workflow: the durable jobs of coleman/application. Workflow/Records has the records of
--   workflow_store.py, and of lifecycle.py and contracts.py in coleman/workflows; Workflow/Rows the
--   reads and writes of `WorkflowStore`; Workflow/Service the transactions of `WorkflowService` in
--   workflows.py, Workflow/Scheduler those of workflow_supervisor.py, Workflow/Worker those of
--   workflow_worker.py. Workflow/Steps makes each committed transaction a step. Evolution, Rowwise,
--   Pairs, Claiming, Validity, Moving, Transactions, Admission, Requests, Effects, Safety, History,
--   Cancelling, Progress, Returning and Queue prove.
-- Allocation: coleman/allocation. Allocation/Contracts and Allocation/Validating have contracts.py,
--   Allocation/Forecasts and Allocation/Choosing the moments, the checks and the choice of
--   forecasts.py and results.py, Allocation/Solver resources.py and `_enumerate` of solver.py,
--   Allocation/Verifying the checkpoints and the checks of results.py, and `select_allocation`.
--   Variance, Forecastable, Ties, Best, Enumerating and Counting prove.
-- Sweep: coleman/spec/sweep.py. Sweep/Data has `_set_nested`, Sweep/Expansion `_expand_axis` and
--   `expand_sweep`. Setting and Counts prove.
-- Reward: coleman/reward. Reward/Ranks has `evaluate` of rnfail.py, topk_rnfail.py and timerank.py,
--   on the metric of Evaluation. Counts, Scheduled and Documented prove.
-- The parts share no state: a ledger, a search, an agent, a bandit, a metric, a file store, a
-- workspace and an allocation are separate values. Resources, Search and Allocation share the type
-- of unit semantics, Search and Allocation the counter of work, Agent and Bandit the joins. Reward
-- reads the metric that Evaluation leaves.
--
-- How the state corresponds: identities, names and fingerprints are numbers, timestamps and clock
-- readings too, so that a comparison of strings or of times is one of numbers. Decimals are their
-- number of ticks of 10^-12. A frozenset or a set is a list without regard to its order. A raise is
-- a value: of `Result` where the object is discarded, of `Outcome` where the search keeps its
-- state. The frontier of branch and bound is a list whose head is the top of the stack.
--
-- Parameters, for code that is not here: the clock, the caller's cancellation and the keyboard
-- (`Environment`, functions of the number of polls), the fingerprint of a problem, float
-- arithmetic (`Arithmetic`), the weights of `np.linspace`, the shuffle, the policy, the reward
-- function, the sort of a frame, the dump and the validation of a specification, the parts of a
-- dotted key, the derived units of a variance and a penalty, the text of a list and the score of a
-- metric, the additions, comparisons and quotients of durations and rewards (`Clock`, `Floats`), and
-- the credit assignment that a policy overrides. The left join of polars is a parameter too: its
-- rows are documented, up to their order (`IsLeftJoin`).
--
-- A workspace is its tables: a transaction is a function from the store to the next store, or to the
-- reason of a raise, after which the store is as it was. What a transaction reads from elsewhere is
-- the value `Host`: the installed runtime, the clock, the kernel locks, the directories of outputs,
-- a fresh identity, fingerprints and the coordinates of an evaluation; each step has its own.
--
-- Fuel: both loops of the search run on `enough_fuel`, one more than the work limit. A round of
-- either uses a unit of work, so they stop at the work limit before the fuel is out.
--
-- Not modelled: formats and bounds that pydantic checks, decimal parsing and printing, errors of
-- the file system, processes and transports; the policies, but for the credit assignment of their
-- base class; the reciprocal, discounted and APFDc rewards; and the parts of coleman outside the
-- ten above.
pub mod Agent
pub mod Allocation
pub mod Bandit
pub mod Base
pub mod Checkpoint
pub mod Evaluation
pub mod Resources
pub mod Reward
pub mod Search
pub mod Sweep
pub mod Workflow
