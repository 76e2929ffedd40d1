-- ===== src/Lib.antt =====
-- A verification library of the handbook's runnable labs, the Python programs under labs/.
--
-- Each lab is one component, in a module of its name with its theorems in child modules:
--
--   Shared      names and lemmas that the components share: tests on numbers, signed integers,
--               results, lists, texts and JSON values, and validators that collect errors
--               (`Contracts`).
--   Failover    labs/reliability/02-disaster-recovery-state-machine/dr_failover.py. `Types` holds the
--               dataclasses, `Guards` `_validate_region`, `_validate_policy`,
--               `destination_eligibility` and `write_allowed`, `Step` `reconcile_once` with one
--               handler for each state, and `run_until_stable`. `Spec` states the protocol as a
--               relation; the invariants are proved of the relation.
--   Queue       labs/distributed-systems/06-queue-redelivery/queue_delivery_demo.py. `Broker` and
--               `Consumer` are the classes of these names; a method that changes its object returns
--               the new record. `Rule` is the induction rule of the loop in `receive`.
--   Repair      labs/kubernetes/01-node-repair-state-machine/node_repair.py. `Fleet` holds the validation,
--               the capacities and the search for systemic failures, `Controller` `evaluate_repair`
--               with the body of its loop (`decide`) and `apply_decisions`. `Justified` and `Outcome`
--               list the ways in which these return, `Systemic`
--               and `Breaker` when the circuit breaker opens; `Limits` and
--               `Removals` count the nodes taken out of service, `Safety` is about all decisions.
--   Fencing     labs/distributed-systems/03-fencing-tokens/fencing_demo.py. `Lease` is the coordinator,
--               the two resources and `simulate`; `Traces` is the relation of all interleavings of
--               acquisitions and writes, `Stale` the late writes.
--   Rebalance   labs/distributed-systems/05-shard-rebalancing/shard_rebalance_demo.py. `Cluster` has one function
--               for each method of the class; the hash of a key is a parameter, since SHA-256 is
--               not part of the repository. `Partition` has `range_partition` and `tenant_skew`,
--               `Ownership` the theorems about the cluster.
--   Overload    labs/reliability/03-overload-blast-radius/overload_lab.py. `Admission` is the admission
--               controller, with `admit` and the body of its loop (`consider`); `Bounds` has the limits
--               that it keeps; `Replay` has `plan_replay` and `layered_retry_attempts`. The list of
--               batches is built with as many rounds as there are live ages, which is enough.
--               `Headroom` has `Cell` and `plan_failover`, with the margin in hundredths.
--   Cache       labs/distributed-systems/04-cache-races/cache_race_demo.py. `State` has `CacheState` and
--               `stampede`, `Race` the race of the lab; `Fence` is the relation of all interleavings
--               of commits, invalidations and late fills.
--   Telemetry   labs/observability/01-telemetry-pipeline/telemetry_lab.py. `Pipeline` has `ingest` with the
--               body of its loop (`ingest_one`) and the sampling of traces, with the SHA-256 of
--               an id as a parameter; `Bounds` is about what a pipeline accepts and drops.
--   Mesh        labs/service-mesh/01-xds-mtls-dns-failover/mesh_contract_lab.py. `Contract` has its functions; `Xds`,
--               `Rotation` and `Shift` are about configurations, certificates and DNS answers,
--               and the shift of traffic.
--   Outbox      labs/distributed-systems/02-transactional-outbox/outbox_lab.py. `Tables` has the two databases and
--               `create_order`, `Relay` and `Consumer` the functions of these names. `Invariant` says what
--               the databases keep to, `Transactions`, `Marks` and `Effects` that each
--               transaction keeps it, `Runs` the calls, and `Settled` all sequences of calls.
--   Rollout     labs/platform-engineering/05-fleet-rollout-planner/plan_rollout.py, from the parsed JSON (the type
--               `Json`, with Python's functions on it, is shared) to the exit code. `Input` has the
--               readers and the maintenance window, `Policy`, `Decide`, `Batches` and `Plan` have `parse_policy`,
--               `decide_cluster`, `create_batches` and `main`. datetime.fromisoformat is a parameter. The loop of
--               a ring is given a round for each of its clusters, and each round schedules one. `Selections`
--               is about one batch, `Rounds` one ring, `Complete` all rings, `Inputs` what the readers
--               guarantee, `Scheduled` the planner as a whole.
--   Secret      labs/platform-engineering/06-secret-delivery-contract/validate_secret_contract.py. A validator gives its
--               value together with the errors that it appends (`Shared/Contracts`, with the readers of fields).
--               `Authority`, `Delivery` and `Application` read and check the sections, `Validate` is `validate`;
--               `Sound`, `Kept` and `Outages` say what a section without errors means, `Promises` all of them.
--   Policy      labs/platform-engineering/02-policy-rollout/evaluate_policy.py. `Resource` has the readers, the identity of a
--               resource and `active_exception`; `Evaluate` has `evaluate`, `decision` and `main` with --now.
--               datetime.fromisoformat is a parameter. `Digests` is about images by
--               digest, `Documents` about what the readers find, `Exceptions` about active exceptions,
--               `Denied` about which resources are denied.
--   Tenant      labs/platform-engineering/03-tenant-isolation-contract/validate_tenant.py, with the readers of
--               `Shared/Contracts`. `Package` and `Workload` check the two documents, `Validate` is `validate`;
--               `Confined`, `Specs` and `Isolated` say what each section without errors means, `Promises` all of them.
--
-- Conventions. An exception is the `err` of a result, and a message with values in it is a
-- constructor that carries them. Python's integers are signed and unbounded (`ℤ`); counters that
-- start at 0 and only grow are natural numbers. The programs' floating-point percentages, lags and
-- times are exact numbers here: percentages of dr_failover.py count thousandths of a percent and its lags
-- milliseconds, so that rounding is not modelled. A dictionary is an association list, or a
-- function where its keys never change or it is read with a default; a set of texts is a list. A
-- loop over a collection is a recursion over the list; `run_until_stable` recurs on the rounds
-- that its argument `maximum_steps` allows, as the source does.
--
-- Not modelled: command lines, the parsing of JSON, tables and other output, the texts of log events, and
-- the labs that are not listed above.
pub mod Shared
pub mod Failover
pub mod Queue
pub mod Repair
pub mod Rollout
pub mod Secret
pub mod Policy
pub mod Tenant
pub mod Fencing
pub mod Rebalance
pub mod Overload
pub mod Cache
pub mod Telemetry
pub mod Mesh
pub mod Outbox
