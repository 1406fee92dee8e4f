-- ===== src/Lib.antt =====
-- Engrava, a memory store for agents on SQLite (src/engrava). This library models the store's own
-- logic: the records, the journal of mutations, the forgetting loop, the ranking of results, the
-- locks and the buffers of the store, the deletion and the expiry of thoughts, the promotions and the
-- clusters of a consolidation, the structural splitter, the MindQL query language, and the runner of
-- an extension's schema migrations. A write of the store goes
-- through the write lock, changes rows of the table `thought`, and appends an entry to the
-- journal; `run_hygiene` scores the candidate rows with the keep-signals, selects, archives under
-- a guarded UPDATE that the journal records, and collects what was archived long enough ago.
--
-- Files and what they model:
--   Prelude       shared names, lists, orders, the stable sort, texts as lists of code points,
--                 decimals, and calls that return or raise.
--   Floats        finite floating-point numbers, taken as given with their order.
--   Thought       ThoughtRecord, its validators over two fields, the state machines and `evolve`
--                 (domain/enums.py, domain/models/thought.py, domain/models/_temporal.py).
--   Journal       JournalWriter (infrastructure/sqlite/journal_writer.py) and its table
--                 (schema_core.sql): `append`, `compute_hash`, `verify_integrity`, `get_entries`.
--   Hygiene       the signals (domain/dreaming.py), the weights and the keep score
--                 (infrastructure/sqlite/hygiene.py); `run_hygiene` up to its writes,
--                 `_select_archive_candidates`, `_hygiene_archive` and `_hygiene_gc_eligible`
--                 (infrastructure/sqlite/engrava_core.py).
--   Ranking       `_sort_scored_descending`, `_retain_ranked_by_unit`, `_collapse_ranked_by_unit`.
--   Locks         `_TaskReentrantLock` as a step relation, and `_DedupLock`.
--   Buffers       `_AccessBuffer` and `_LatencyRingBuffer`.
--   Split         `StructuralSplitProducer` with windows of characters and of words and with
--                 paragraphs, and the records that it derives (extensions/structural_split.py).
--   Expiry        the rows that `cleanup_expired` acts on (infrastructure/sqlite/engrava_core.py).
--   Deletion      the tables that hang on a thought (schema_core.sql) and each statement's effect on them
--                 (Tables); `delete_thought` and `_delete_thought_atomic` (Defs); `cleanup_expired`
--                 (Expire) and the deletions of `_hygiene_gc` (Gc), which share one round; what these
--                 leave (Effects, Delete, Due, Rows, Rounds, Cleanup, Gone, Reaped) and the
--                 references between the tables (Integrity) (infrastructure/sqlite/engrava_core.py).
--   Consolidation Promote: when a run is due, its gates, its filter and `_apply_promotions`; Clusters:
--                 the union-find of `_agglomerative_clusters`, and Pairs: its reading of the
--                 similarity matrix; Labels, Keys, Near, Lpa: `_lpa_clusters` (extensions/dreaming.py).
--   Updates       `update_thought` and `restore_thought`: the read, the columns that differ, and the
--                 UPDATE under the revision that was read (infrastructure/sqlite/engrava_core.py).
--   Mindql        Syntax: the nodes of a WHERE tree; Quote: the scanners that look past literals;
--                 Tokens: `_WhereTokenizer`; Fragment: one operand; Parse: `_BoolExprParser` (mindql/parser.py). Compile: the
--                 guards and the SQL text of FIND and COUNT (mindql/executor.py).
--   Migrations    `ExtensionMigrationRunner` (infrastructure/sqlite/extension_migrations.py):
--                 `apply_pending` and its checks (Defs), the history against the files (Recorded),
--                 whole runs (Runs, Again, Atomic), and `_split_sql_statements` and
--                 `_leading_keyword` (Script).
--   Extent        `derive_reflection_extent` (extensions/dreaming_reflection_extent.py).
--
-- State and time: a table is a list of rows; an instant is a number of microseconds, since the
-- canonical UTC texts compare as the instants do. The clock, `uuid4` and what other connections do
-- between two statements of one call are parameters, so that a theorem holds for every
-- interleaving its hypotheses admit. What is not in the repository is a parameter too: the JSON
-- codec, SHA-256, the decay hook, the word and boundary patterns of the splitter, the regular expressions of
-- MindQL, `int`, `float` and `str` methods, the effect of a migration's statements, and the
-- arithmetic of floating-point numbers, of which only the laws of the order are used. So are
-- `sqlite3.complete_statement`, numpy's similarity matrix and its products of blocks, and what
-- SQLite decides of a deletion or an expiry: whether foreign keys are enforced, which thought a trigger
-- keeps, and which statement raises; and the shuffle of the label propagation, whose rounds are at most 20. A
-- savepoint that is unwound gives back the database as it was before it.
--
-- Loops and bounds: `append` makes five attempts, counted down. The loops of the windows run on
-- fuel, as much as the content has characters or words; since a window advances by at least one,
-- that is enough, and the theorems on the windows hold without a condition on it. The WHERE parser
-- spends one unit of fuel for each call and has 4 for each token and 5 more, since at most four calls
-- in a row take no token; the tokeniser and the scan of an IN list have one for each character and
-- one more; the split of a script has one for each character, of which a round takes at least one. In
-- the union-find the fuel of `find` is a bound on the way to a root: it is 1 at first, and doubled by
-- each union, since hanging one root under another at most adds the two ways. All other loops follow
-- their list.
--
-- Not modelled: the statements that only pass text to SQLite, triggers that write or that keep an
-- edge, an embedding, an action or a vector, a stored delta that is no JSON, the queue of those that
-- wait for a lock, a connection that cannot unwind a savepoint, the sweep of orphan reflections, the
-- search arms and their fusion, the split of a MindQL query into its clauses, the flat path of its
-- WHERE clause, the guard of a raw SELECT, the cancellation of a call, the edges and the reflections
-- of a consolidation, the service manager, embeddings, configuration parsing, the command line and
-- the benchmarks.
pub mod Buffers
pub mod Consolidation
pub mod Deletion
pub mod Expiry
pub mod Extent
pub mod Floats
pub mod Hygiene
pub mod Journal
pub mod Locks
pub mod Migrations
pub mod Mindql
pub mod Prelude
pub mod Ranking
pub mod Split
pub mod Thought
pub mod Updates
