-- ===== src/Lib.antt =====
-- Verification of qbt-rules, a rules engine for qBittorrent (src/qbt_rules in the repository).
--
-- The server puts a job into a queue (enqueue), from the HTTP API or the scheduler; one worker takes
-- jobs off it in order and runs the rules engine for each. The engine fetches the torrents, and for
-- each rule in file order and each torrent lets the evaluator decide whether the rule's conditions
-- hold and the executor carry out the rule's actions. Before that the rules are resolved: references
-- to named blocks are expanded and variables filled in. The editor validates a rules file before it
-- is stored.
--
--   Prelude         shared names, tests, lists and texts.
--   Queue.antt      queue_manager.py: job statuses and job dictionaries.
--   Sqlite.antt     queue_backends/sqlite_queue.py: the tables `jobs` and `queue` are lists of rows,
--                   each SQL statement is a function on them (Sqlite/Statements), and each method of
--                   SQLiteQueue is the function of its name. The UUID and the clock are arguments.
--                   Sqlite/Schema is the creation and migration of the file.
--   Value.antt      Python's values as JSON and YAML files give them, with their truth and equality.
--   Utils.antt      utils.py: tags, durations; Utils/Sizes: sizes and comparisons.
--   Conditions.antt engine.py, ConditionEvaluator. Conditions/State is its state; Operators is
--                   _apply_operator, Lookup _get_field_value, Evaluate evaluate and _evaluate_*. Snapshot
--                   gives the meaning of conditions without caches or state, for comparison.
--   Api.antt        the methods of the qBittorrent client, a parameter.
--   Actions.antt    engine.py, ActionExecutor. Actions/Idempotency is _should_skip_idempotent and what it
--                   reads, Actions/Execute is _execute_action, _log_dry_run and execute.
--   Engine.antt     engine.py, RuleStats and the engine's state. Engine/Refresh is the stats.* snapshot
--                   and how it follows an action; Engine/Run is RulesEngine.run.
--   Worker.antt     worker.py: a round of the loop cleans up, dequeues a job, runs Engine/Run for it and
--                   records the outcome in the queue of Sqlite.antt; the loop is a list of rounds.
--   Resolver.antt   resolver.py: expansion of $ref; Resolver/Tokens the substitution of ${vars.*} and
--                   ${rule.*}, Resolver/Rule resolve_rule.
--   Schema.antt     schema.py: the names, operators and actions that rules.yml may use.
--   Validation.antt rules_validation.py: Validation/Structure is check_rules_structure, Values, Conditions,
--                   Actions and Linter are the linter, Rules is check_resolution and the verdict. The
--                   other files follow conditions without errors (Reports, Accepted, Evaluable)
--                   through the resolver (Carried, Expanded, Substituted, Resolved) into the
--                   evaluator (Operators, Leaves, Evaluated).
--   Scheduler.antt  scheduler.py: the cron entries and the loop that enqueues a job when one is due.
--   Store.antt      config_store.py, EditableFile: the rules file and its versions. Store/Editor is the save
--                   request of api_rules.py, which validates a content before it is written.
--   Examples.antt   a small server, for the tests.
-- (The paths are those of src/qbt_rules.)
--
-- State is passed explicitly: a call returns its result, a value or an exception, with the state it
-- leaves behind, which survives an exception as Python's objects do. What the file system does at a
-- save of the rules file is an argument, a write that stops halfway included. The torrents of a run are the
-- dictionaries that the run updates; each step returns the dictionary as it is then.
--
-- Parameters. `Api W` has the qBittorrent client's methods over a state W of the outside world, of
-- any type; each may raise. `Services W` has the actions notify and arr_blocklist, which call other
-- services, and the message that a dry run renders. `Settings` adds the texts that the worker
-- stores. `Runtime` has Python's str, float, int and re.search where they are not written out,
-- among them the float of an int, which rounds and may overflow, the clock, and the product of a
-- float in parse_size. The compared server of Conditions/Transparency
-- answers each read as a fixed snapshot (`Steady`).
--
-- Bounds. Timestamps in the queue are natural numbers of microseconds; the ISO texts that the
-- program stores and compares are ordered as these numbers. Numbers in values are exact binary
-- fractions; infinities and NaN are left out. Texts are taken as ASCII where their letters, digits
-- and spaces matter. The loops of the modelled code run over lists. Only the expansion of references
-- takes fuel, the number of references that have a block; Resolver/Total shows that this is enough.
--
-- Not modelled: connections, threads, PRAGMAs and the file itself (a method runs in one transaction,
-- or in one statement, as the source has it); logging, metrics and the evaluator's trace argument;
-- the fields of tracker.*, as trackie is not configured here. Torrents have the texts `hash`, `name`
-- and `state` that qBittorrent's API documents. The positions of issues in a rules file, and the
-- YAML library, which is the parameter `parse` of Store/Editor, with the hash of hashlib as `etag`,
-- are left out; the croniter library is the parameters `croniter` and `get_next` of Scheduler.antt.
-- The rest of the HTTP API, the command line, configuration and Redis queue are not part of the
-- model.
mod Prelude
pub mod Queue
pub mod Sqlite
pub mod Value
pub mod Utils
pub mod Conditions
pub mod Api
pub mod Actions
pub mod Engine
pub mod Worker
pub mod Resolver
pub mod Schema
pub mod Validation
pub mod Store
pub mod Scheduler
pub mod Examples
