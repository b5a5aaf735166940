-- ===== src/Lib.antt =====
-- Orichum routes a coding session's model requests to the accounts of a user. A registry holds the
-- accounts; a model stack names the models of a session's roles; the selection binds a role to a
-- primary account and at most one recovery account; a local proxy forwards each request to the
-- account that is bound, falls back to the other one once, and records what became of it. This
-- library models that path, in the files of integrations/common.
--
-- * Account (account_registry.py): an account, its JSON and its validation. Account/Registry has the
--   registry document, `update_accounts`, `find_account` and `new_account`. The file is a stamp (what
--   `lstat` returns) and a parsed document; another process may change it during a transformation.
-- * ModelRouting (model_routing.py): `validate_routing_document`, `load_catalog`,
--   `resolve_effective`. `Document` is a routing document after validation; `normalized` is
--   `NormalizedStacks` of stack_definition.py.
-- * ModelStacks (stack_definition.py): `normalize_model_stacks` in both schema versions and
--   `serialize_model_stacks`. `seen_ids` is passed from step to step as a list; the IDs of new
--   candidates come from a digest that is a parameter.
-- * Sessions (orichum_sessions.py): `Document` reads and writes a session; `Formats` is what the
--   standard library says of UUIDs, paths and times. `Plan` is `resolve_session_plan`, over the
--   selection of RouteSelection. `Store` and `Clear` are the operations on the directory of
--   sessions, which is a dictionary from names to documents; other processes may change it before
--   an update takes its lock.
-- * StackBindings (stack_bindings.py): the accounts that candidates are locked to, in a file that is
--   its text; `save` is the transaction's. StackCatalog (stack_catalog.py): `classify_model` and
--   `project_live_catalog` on the parsed list of live models. StackStore (stack_store.py):
--   `validate_stack_bindings` and `delete_stack`; its `Disk`, `Recovery`, `Save`,
--   `Restore` and `Snapshot` are the transaction of the two files. Each call on the files is done, fails, or is where the process stops, by a list
--   of outcomes; a change is durable once its call is done.
-- * RouteIndex (route_proxy.py): the class of that name, over the store of Sessions; its policy is
--   that of RouteProxy/Policy, where the loading of a session is a parameter.
-- * RouteSelection (route_selection.py): `eligible_routes`, `choose_new_session_route`,
--   `route_chain`, `validate_route_credential`. `Query` holds the arguments that they share.
-- * RouteStatus (route_status.py): the last status of each session, in an `OrderedDict` that is
--   modelled by its entries, the oldest first.
-- * Cooldowns and AttestationGate (route_proxy.py): the two tables that the proxy's threads share.
--   The gate is a step relation on a system of numbered threads, one step for each block under the
--   lock; the table's calls are made one at a time, as its lock has it.
-- * ToolDeferral (tool_deferral.py, leanctx_profiles.py): `transform_request`.
-- * RouteProxy (route_proxy.py): `RouteProxy/Paths`, `Sse`, `Bodies` and `Policy` are the functions
--   on paths, buffers, bodies and sessions. `World` is what the handling of a request reads and
--   changes, `Upstream`, `Response` and `Handler` are the methods of `RouteProxyHandler`, with the
--   names that they have there, without the underscore. The replies of the service upstream, the
--   results of writes to the client and the clocks' readings are lists and functions in the world.
-- * Json has the values that `json.loads` returns; Base has Python's lists, dictionaries and strings.
--
-- Loops run over lists, and `new_account` and `create_logical_session` over the 32 attempts of the
-- code. The two loops of `clear_logical_sessions` that follow parents take fuel: twice the number of
-- sessions, since a turn takes an active session or one that was not retained before, and one more
-- than that number, since a depth counts no session twice. Numbers
-- are natural numbers, since the code refuses the negative ones where it reads them; `ℤ` stands where
-- a document or an argument may hold a negative number. Clocks are read in natural numbers of one
-- unit. An exception is a constructor, without the text of its message.
--
-- Not modelled: sockets, headers, the JSON text, permissions and locks of files, the leases and
-- physical runs of sessions, the command line, the installation and the wizards. `json.loads`, `json.dumps`, the SHA-256 digest,
-- `resolve_credential_ref` and `urlsplit` are parameters, and in RouteProxy the
-- loading of a session, which RouteIndex gives.
pub mod Base
pub mod Json
pub mod Account
pub mod AttestationGate
pub mod RouteSelection
pub mod RouteStatus
pub mod Cooldowns
pub mod ToolDeferral
pub mod RouteProxy
pub mod RouteIndex
pub mod ModelRouting
pub mod ModelStacks
pub mod Sessions
pub mod StackBindings
pub mod StackCatalog
pub mod StackStore
mod Examples
