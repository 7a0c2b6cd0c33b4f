-- ===== src/Lib.antt =====
-- The security and control core of agent-builder, an autonomous agent in Go that takes goals from an
-- operator, plans them, and runs coding agents in a loop behind a verification gate.
--
-- The parts, and how they interact. An operator writes to the Telegram adapter
-- (internal/channel/telegram). It decides by its auth mode (its package authz) whether an update goes
-- through the sealed envelope (internal/envelope: signature, replay cache, decryption) or is plaintext
-- of an approved sender; what passes is shown to armor and becomes a message for the control plane. The
-- orchestrator (internal/orchestrator) takes a goal, plans it into sub-goals, asks the policy engine
-- (internal/policy) about the plan, may park it in the plan store for the operator's approval, and then
-- dispatches a worker for each sub-goal: each is asked about again, takes a permit of a semaphore, and
-- writes its attempts to the run store (internal/runstore), from which goals are resumed after a
-- restart. For each dispatch the model router (internal/router) selects an executor from the catalog
-- (internal/registry). The agent loop (internal/loop) picks a task, runs the executor, lets the gate
-- (internal/gate) verify the worktree, and retries or escalates.
--
-- The files. Definitions keep the names of the Go functions in small letters with underscores; a method
-- takes its receiver as an argument and returns the changed receiver.
--   Common: equality, tests, lists, maps (association lists), Go's signed integers, texts.
--   Envelope/Replay: ReplayCache of internal/envelope/replay.go.
--   Envelope/Open: Sign, Verify, VerifyAndOpen of internal/envelope/envelope.go, Open of
--     confidentiality.go. The libraries of cryptography, JSON and time are the record Crypto.
--   Loop: internal/loop: RunOnce of loop.go (Loop), RetryingLoop of retry_policy.go (Loop/Retry),
--     ReevaluateBlocked of blocked_action.go (Loop/Reevaluate), format_failure.go (Loop/Format,
--     Loop/Truncate). Loop/Attempts says without the loop how a retried task can end. The task
--     source, the executor, the gate, the writer of statuses, the escalation hook and the replanner
--     act on a state that the model leaves open.
--   Registry: types.go and catalog.go of internal/registry.
--   Router: internal/router/router.go; SaveState and LoadState in Router/State. Router/Quota has the
--     calls of a router as data, these two apart, and their sequences.
--   Telegram/Authz: authz.go (Ids, Store), decide.go and pairing.go (Decide) of
--     internal/channel/telegram/authz.
--   Telegram/Message, Derive, Pairing, Batch: the wire types, deriveMessage and splitVerb, the pairing
--     handlers, and processBatch of internal/channel/telegram/adapter.go and pairing.go.
--   Policy: Decide of internal/policy/client.go. The service and its connection are an argument.
--     Policy/Obligations: obligation.go.
--   Gate: New and Verify of internal/gate/gate.go.
--   Skill: select.go, registry.go and manifest.go of internal/skill.
--   Tasksource: source.go of internal/tasksource, behind the walk of the directories.
--   Runstore: record.go of internal/runstore. Runstore/FileStore: filestore.go. What the journal and
--     the snapshot hold are texts; json and the calls of the file system are arguments.
--   Orchestrator: the types of internal/orchestrator that all of it shares, and below it:
--     Status: registry.go. Semaphore: semaphore.go. Plans: store.go, and what a plan authorizes.
--     Planner: planner.go. Containment: containment.go.
--     Core: the interfaces that an Orchestrator is given (Parts), its own state (Fleet), and the
--     events   for the audit. Journal: recordAttempt and its kin of runstore.go, persistPlanRecord.
--     Worker: dispatchOne of orchestrator.go, as a machine whose steps end where it waits. Dispatch:
--     dispatchSubGoals and RenderPlanResult. Flow: Handle and ConfirmAndPlan. Resume: Resume,
--     ResumeWithFold, SolicitApproval, HasPendingPlan and ConsumePlanOnCancel. Approvals, Sweep,
--     Rehydrate: ResumeApproval, SweepApprovalTimeouts and ResumeFromRecord of   runstore.go.
--     Completion: runtocompletion.go.
--   Common/Search: the search for a part of a text, as strings.Contains does it.
-- The modules below these hold the proofs; those named Tests hold concrete runs.
--
-- Numbers. int, int64, time.Duration and time.Time are exact integers; the wrap-around of their sums at
-- 64 bits is not modelled. ParseInt keeps the range of int64. No loop needs fuel but the printing of
-- decimals, where the fuel exceeds the number; retries, replans and the rounds of RunToCompletion recur
-- on the configured bound.
--
-- Concurrency. Where the code holds a mutex, one call is one step, and sequences of calls are lists. The
-- workers of a plan run as a schedule says: a list of which worker takes its next step, and how a select
-- that it meets chooses. A schedule that ends before the workers do stands for a call that still waits,
-- and the model of the call then returns `none`. The loop of TryAcquireN, which takes permits one by
-- one, is one step. What the parts from outside do to the world is open: the theorems on what is
-- dispatched speak of any property of the world that the parts keep.
--
-- The calls of OnRequireApproval that a dispatch makes while it runs are recorded together when it has
-- ended, in one step with its end; other workers see them from then on. ResumeApproval's dispatch of one
-- worker is its three steps: where the worker has to wait for a permit, the call is left waiting.
--
-- Errors are texts; the text of a wrapped error stands only where the part returns it.
--
-- Not modelled. HTTP, the file system but for the files of the two stores, logging, random numbers,
-- and the libraries of cryptography, JSON, URLs and time. Of the orchestrator: BeginGoal with the
-- analyzer, the clarifier and the conversations, the plan store behind the memory guard, and the
-- reevaluation of blocked spawns behind the join, which leaves a dispatch as it is without a status
-- writer. The audit chain, the walk of the task directories and the writing of statuses, ingestion
-- and armor, the supervisor's processes, the command line, the executors and the sandbox are outside
-- this development.
pub mod Common
pub mod Envelope
pub mod Gate
pub mod Loop
pub mod Orchestrator
pub mod Policy
pub mod Registry
pub mod Router
pub mod Runstore
pub mod Skill
pub mod Tasksource
pub mod Telegram
