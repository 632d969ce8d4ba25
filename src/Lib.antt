-- ===== src/Lib.antt =====
-- AO Operator: the task queue, the worker pool, and the decisions on a run, from the scripts/
-- directory of the repository.
--
-- The program runs briefs. scripts/factory_queue.py keeps them as files that move through the
-- directories pending, in-flight, done and failed; scripts/worker_pool.py claims them, runs them and
-- finishes them; scripts/factory_run.py, which a worker starts for a task, collects what the roles of
-- a run report and decides whether the run is blocked; scripts/auto_partition.py splits the write
-- paths of a brief into slices for parallel roles; scripts/obligation_ledger.py extracts obligations
-- from a specification and checks them against a tree of files; scripts/gate_b.py and
-- scripts/gate_r.py check a run's contract before its roles are dispatched and what the roles left, and
-- scripts/verify_closure.py, at the end, whether a repository may be closed.
--
-- Base and its children: the library names, Boolean tests and list lemmas that the parts share.
-- Text: texts as lists of code points, with the str methods that the scripts call (strip, split, in,
-- startswith); case and white space are those of ASCII. Dict: a dict as an association list in the
-- order of insertion.
--
-- Queue models scripts/factory_queue.py. Queue/Names is slugify, task_filename and slug_from_task.
-- Queue/Defs has the four directories as a record of lists of entries, each in the order in which the
-- system lists them, and enqueue, pending_tasks, queue_depth, claim_one, mark_done, mark_failed and
-- recover_stale_inflight as functions from a queue to a queue and a result; exceptions are values of
-- Outcome. Claim tokens, the clock and the process id are arguments. Queue/Unique has the operations as
-- a step relation, so that its sequences are the interleavings of any number of callers: each step is
-- atomic, as the lock of claim_one and the renames make it for claims and finishes.
--
-- Pool models scripts/worker_pool.py. Pool/Limits is the number of workers and the telemetry of rate
-- limits, Pool/Signal the patterns for a rate limit, Pool/Options resolve_execution_options, and
-- Pool/Worker process_one, process_batch and run_foreground over a queue and a telemetry file. The
-- runner, the set-up of a workspace and the copy of artifacts are the fields of a parameter, Host; the
-- runner is one that returns, and a runner that raises is outside of the model. The
-- workers of a batch run one after the other, and all clock readings of a run give one time. The loop
-- of run_foreground has no bound: the model takes fuel, and fuel above the number of unfinished files
-- is enough, since a batch that had a task leaves fewer of them.
--
-- Roles models the verdict of scripts/factory_run.py: slice_quorum_verdict, aggregated_role_results,
-- runtime_blockers and runtime_concerns, with the messages as constructors; Roles/Verdict is what blocks a
-- run, and Roles/Quiet what a run without messages says. The quorum's rational is
-- exact, where the script rounds a float. Partition models scripts/auto_partition.py, with a cap of 0
-- giving none, where the script divides by zero. Ledger models scripts/obligation_ledger.py over a tree
-- of files that were read; hashes and time stamps are left out.
--
-- Operator models scripts/summarize_50_slice_operator_state.py, approval_file_ok of
-- scripts/run_50_slice_live.py, and the actions of scripts/operator_control.py. Operator/State is the
-- summary, a function of the verdicts read from the reports and of the approval file; Operator/Control
-- has the five actions on the evidence, the approval file at its default path (absent, there but no JSON
-- object, or readable), and the audit log of one slug. A negative audit limit is read as 0, as the script reads it.
--
-- Topology models expand_slice_topology, _split_topology_for_n_ge_2 and ordered_tasks of
-- scripts/factory_run.py on tasks with an id, dependencies and writes, the other fields being copied.
-- The loop of ordered_tasks takes fuel, and as much as there are tasks is enough, since each round takes
-- a task. Pool/Report is report_payload of the worker pool, and Pool/Advice what it suggests.
--
-- GateB models scripts/gate_b.py, which checks the contract of a run before its roles are dispatched:
-- GateB/Slices is validate_partition_slices, GateB/Spec the role contracts, spec_contract,
-- lint_constitution, spec_kit_analyze and run_gate, with the errors of the intake and of the profile as
-- arguments, and GateB/Profile is validate_profile. GateB/Fanout puts the slices of scripts/auto_partition.py through it. GateR models
-- scripts/gate_r.py, which checks what the roles left against the report of Gate B: GateR/Status reads
-- the result and the artifact of a role, GateR/Defs is run_gate on a tree of files, and GateR/Honours
-- reads the report that Gate B writes of its specification.
--
-- Closure models scripts/verify_closure.py. Closure/Repo is what it reads of a repository, and the Host:
-- the commands and what they leave, the verifier of the AO2 binary and the JSON of its output, the write
-- of a ledger, and the environment, none of which is code of the repository. Closure/Triggers looks for
-- the reviewers that trigger rules require (Closure/Evidence is the regular expression) and runs Gate R,
-- Closure/Ledgers checks the obligation ledgers anew by check_ledger and hands on the repository that
-- it leaves, Closure/Decisions asks the verifier, whose answer null the script takes for no error, and Closure/Run is run.
--
-- AgentOs models the route of a brief: AgentOs/Brief is classify and shape_gate of
-- scripts/factory_run.py, AgentOs/Router is scripts/agent_os_router.py, AgentOs/Uat is the gate of
-- scripts/agent_os_uat_response_gate.py on the human responses, and AgentOs/Closing the closure gate of
-- scripts/agent_os_closure_gate.py, which reads that gate's report. AgentOs/Runspec is
-- scripts/agent_os_runspec_validator.py, with the regular expression for the task ids in AgentOs/Yaml and
-- the provider profile in AgentOs/Env.
--
-- Not modelled: processes, prompts, the rendering of run specifications, argument parsers, the text of
-- reports, and the scripts that scan the repository.
pub mod Base
pub mod Text
pub mod Queue
pub mod Pool
pub mod Dict
pub mod Roles
pub mod Partition
pub mod Ledger
pub mod Operator
pub mod Topology
pub mod GateB
pub mod GateR
pub mod Closure
pub mod AgentOs
