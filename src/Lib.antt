-- ===== src/Lib.antt =====
-- Pollard records every step of an agent's run as a node of a content-addressed tree, stores the
-- nodes append-only, verifies them, and shares budgets between workers.
--
-- The parts, and the files that model them (paths from the repository's root):
--   src/pollard/_canon.py: Json, Json/Canonical and Json/Text are the identity values, the check
--     `_validate_identity_value` and the text of `canonical_bytes`; Json/Equality is Python's
--     `==`.
--   src/pollard/hashing.py: Hashing (`node_id`, `digest_payload`, `result_text_and_digest`).
--   src/pollard/tree.py: Tree (`Node`, `__post_init__` as `post_init`, `Node.make` as `make`);
--     proofs in Tree/Make.
--   src/pollard/store.py: Store (`MemoryStore`: `put`, `get`, `exists`, `children`, `update_meta`,
--     `walk`, `_pollard_drop_nodes`); proofs in Store/Rows, Table, Valid, Append, Order, Children,
--     Put, Walk, Drop; Store/Tour is `walk` with its fuel.
--   src/pollard/verify.py: Verify; proofs in Verify/Total, Chain, Stored.
--   src/pollard/arbiter.py and the arbiter of src/pollard/stores/_transactional.py: Arbiter (data,
--     `_active_amount`, the budget loop), Arbiter/Request (the digests of requests and charges),
--     Arbiter/Operations (`_reserve_once`, `_settle_once`, `_release_once`, `_pollard_renew`) and
--     Arbiter/Delivery (the tries around a connection error); proofs in Arbiter/Amounts, Rows,
--     Reserve, Windows, Settle, Settleable, Arrives, Depth, Honest, Safety, Close, Charged, Runs.
--   The node operations of src/pollard/stores/_transactional.py: Transactional (`put` as `tx_put`,
--     and so on); proofs in Transactional/Agrees, Repeat, Children.
--   src/pollard/replay.py: Replay (`recorded_node_or_missing`, `replay_node_or_missing`); proofs
--     in Replay/Recorded; `avoided_charges` and `record_avoided_charges` are in Runtime/Charge.
--   src/pollard/merge.py: Merge (`_merge_prepared`, `_merge_meta`, `_merge_meta_value` as
--     `merge_value`); proofs in Merge/Writes.
--   src/pollard/seal.py: Seal (`seal` as `seal_of`, its loop as `seal_nodes`); proofs in
--     Seal/Rolling, Intact.
--   src/pollard/scopes.py: Scopes (`_bind_configuration`); proofs in Scopes/Binding.
--   src/pollard/governor.py: Governor (`Budget.limits` as `limits_of`, `check_budget`,
--     `exhausted_after_settle`); proofs in Governor/Checks; Governor/Charges is
--     `recompute_charges` and `spent_decimal`.
--   src/pollard/runtime.py: Runtime (the state of a run, and what an operation may raise),
--     Runtime/Config (what comes from outside: meters, ids, clocks, the heartbeat), Runtime/Stream
--     (`_consume_step_result`, `_merge_stream_value`), Runtime/Cursor (`_depth`,
--     `_ensure_ancestor`, `_validate_agent_cursor`, the target of `rollback`,
--     `_deepest_non_pruned_leaf`), Runtime/Refuse (`_refuse`), Runtime/Precheck (`_precheck`,
--     `_estimates`), Runtime/Charge (`_charges`, `_estimated_charges`), Runtime/Settle
--     (settlement, release and `_recorded_node`), Runtime/Call with Unknown, Build and Finish
--     (`_call`, `_record_unknown_outcome`), Runtime/Heartbeat (`_LeaseHeartbeat`),
--     Runtime/Operations (`note`, `branch`, `rollback`, `prune`, `Runtime.run`, `Runtime.resume`),
--     Runtime/Tools (`_check_tool_authority`), Runtime/Steps (operations in a row); Json/Snapshot
--     is `_snapshot_payload`; proofs in Runtime/Call/Holds and Closes, Runtime/Cursor/Lineage,
--     Rollback and Target, Runtime/Heartbeat/Steady and Punctual, Runtime/Tools/Permits,
--     Runtime/Well, Checked, Fits and ReadOnly; Runtime/Moves, Returned and Numbers are what they
--     share.
--   src/pollard/team_context.py: of it the identity of an agent, `Agent` in Runtime/Tools.
--   src/pollard/errors.py: Errors, the exceptions as values.
-- Common holds lists, dictionaries as association lists, integers, sorting and equality; Tests holds
-- concrete runs.
--
-- How the parts interact: a node's id hashes its kind, parent, attempt and payload; the store
-- accepts a node only under that id and with its parent stored; verification recomputes ids and
-- result digests along the parents. Replaying looks a call up under the id that it would have, and
-- verifies what it finds. A call of a run looks for its recording first, then checks the budgets of
-- the run and reserves at the arbiter, runs the step, settles what it cost, and puts the node; the
-- run, the store and the arbiter are one state, which an operation changes even where it raises.
-- A run reserves, settles and releases through the two tries of Arbiter/Delivery, and an outcome
-- that stays uncertain is an error of the call.
-- The arbiter keeps settled amounts, reservations and window events in the buckets of one key-value
-- store, and each of its operations is one transaction of that store.
--
-- Choices: SHA-256 is a parameter, the hexadecimal digest of a text, and nothing is assumed of it.
-- A text is a list of code points. A float in JSON is given by its printed text. Payloads, results
-- and metadata are values, so copies do nothing. A kind outside the enumeration is not
-- representable. Decimal amounts are exact integers in the smallest unit of a meter: the rounding
-- of sums beyond 28 digits is left out. Times are naturals of one clock, and a test `now - w >= t`
-- is written `t + w <= now`. A bucket's document is held as the value that its JSON text encodes,
-- and a compound key as a pair. An operation of a store that raises writes nothing: in memory it
-- raises before it writes, and a transaction that raises is rolled back. The lease of a heartbeat
-- is three times a unit, so that its third, the interval of the renewals, is exact. Floats are
-- finite; one is equal to an integer or another float by its printed text (Json/Equality). A result
-- text that a node is given is JSON. The nodes of a run are in a memory store in either case: under
-- an arbiter they differ from those of the transactional store in how often a conflict is noted.
--
-- How amounts and JSON numbers correspond is a parameter (`Amounts`), of which nothing is assumed.
-- A step function is a parameter that changes the shared world, with all that other workers and the
-- heartbeat do meanwhile; a meter, a measurement and a callback are given by what they return or
-- raise.
--
-- Fuel: `walk` takes one round more than the size of the subtree, which is enough on every store
-- that its operations write; the loops over ancestors take one more than the number of rows.
-- `walk_loop`, `tx_walk_loop` and `seal_of` are run on fuel; any fuel above the length of the
-- result of `walk_loop` gives that result. `verify` takes one round more than there are rows, which
-- is enough on every store.
--
-- Not modelled: `roots` of both stores (its order uses Python's `str` of any value), the schema
-- version and `Node.from_storage`, the plan of a merge that is spooled to disk, the custody of
-- seals, the nodes of scopes, schemas, the registry but for its digest, approvals, revalidation,
-- teams and governance (left for later parts of this library). Of the runtime: kept chunks
-- (`keep_chunks`: their dictionaries are shared with the result, which a value cannot be),
-- registered tools, policies, confirmations, the callback for new nodes, which only warns, and the
-- asynchronous runtime. The drivers of databases, adapters, servers and the command line run other
-- parties' code; the meters compute with floats.
pub mod Common
pub mod Errors
pub mod Json
pub mod Hashing
pub mod Tree
pub mod Store
pub mod Verify
pub mod Transactional
pub mod Replay
pub mod Merge
pub mod Seal
pub mod Governor
pub mod Scopes
pub mod Runtime
pub mod Arbiter
pub mod Tests
