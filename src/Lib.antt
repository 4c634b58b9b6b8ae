-- ===== src/Lib.antt =====
-- FinestVX, a double-entry bookkeeping library over SQLite: its core, its ledger store and its write
-- thread.
--
-- How the parts interact: core/ builds immutable books and validates them; persistence/ writes books
-- and transactions as rows whose triggers keep an audit log, and reads them back through the payloads
-- of core/serialization.py; runtime/ sends every write through one queue to one thread, which calls
-- the store and resolves the future of the request. A pool of runtimes gives every book its own file.
-- gateway/ posts a transaction, loads its book, validates it with the book's legislative pack in
-- another interpreter and appends the result; export/ writes books as text and reads the XML back.
--
-- Which file models which part (sources from the repository's root):
-- - Core/Types, Core/Decimal, Core/Errors: src/finestvx/core/enums.py, types.py, the fields of
--   models.py, Python's decimals and the exceptions. Dates are ordinals; a
--   FluentNumber is its number with its formatting and precision, which serialization drops.
-- - Core/Engine, Core/Codec: the validators of ftllexengine and the text forms of dates and numbers,
--   as records of functions, with the laws that theorems take as hypotheses.
-- - Core/Entities, Core/Chart, Core/Periods, Core/Balance, Core/Books: the constructors and validators
--   of src/finestvx/core/models.py and validation.py. A constructor is a function from the given
--   fields to the normalized object or the error that it raises.
-- - Core/Value, Core/Serialization: src/finestvx/core/serialization.py, from and to payloads.
-- - Persistence/Rows, Persistence/Keys, Persistence/Schema: src/finestvx/persistence/schema.py. A
--   database is its tables; each INSERT is a function with the constraints of its table and its audit
--   trigger.
-- - Persistence/Store: the writes of src/finestvx/persistence/store.py as functions from a store to a
--   receipt or an error and the store afterwards; Persistence/Payload: the payloads built from rows.
-- - Persistence/Load: load_book of the same file with its error mapping, and in its children the rows
--   that writes add and loads find; Persistence/AuditLog: iter_audit_log and its pages.
-- - Persistence/Sql: src/finestvx/persistence/sql.py. Persistence/Config and Runtime/Config: the checks
--   of the configurations in persistence/config.py, runtime/service.py and runtime/multi_book.py.
-- - Persistence/Platform: what the writes use of SQLite, hashing and the clock, as a record.
-- - Legislation: src/finestvx/legislation/registry.py, and what lv/standard_2026.py and protocols.py do
--   with a transaction; Legislation/Metadata: the metadata of a pack. Validation:
--   src/finestvx/validation/reports.py and the reports on books and transactions of service.py;
--   Validation/Fx: its validate_fx_conversion.
-- - Runtime: src/finestvx/runtime/service.py, dispatch as a function and the runs of clients and write
--   thread as a step relation. Runtime/MultiBook: src/finestvx/runtime/multi_book.py, the pool as its
--   files, its open runtimes and the runtimes that refused creations leave.
-- - Legislation/Subinterpreters: src/finestvx/legislation/subinterpreters.py and the constructors of
--   results in protocols.py. Gateway: src/finestvx/gateway/service.py, operations as functions from a
--   store to a result and a store.
-- - Export: src/finestvx/export/service.py. Export/Xml writes elements and Export/Saft reads them;
--   Export/Csv has the rows and Export/Pdf the drawing calls. lxml, csv, json and reportlab are the
--   record Library.
--
-- Bounds and fuel: the walk over the ancestors of an account has the accounts plus two as fuel; the
-- write thread's loop and the loop over the audit log's pages run as many rounds as their argument
-- says. The rounding of a decimal takes the coefficient as fuel for the digits to drop.
--
-- Not modelled: isinstance guards (a value has its type), locks and timeouts, telemetry, the text of
-- error messages, the sizes in a receipt, localization, caches, read replicas and backups, the
-- interpreter pool, and the development tools of scripts/. The files of snapshots are not modelled: the
-- write thread takes one beside the database's own file and replies how that ended, and create_snapshot
-- of the pool, which can overwrite and remove the file of another book, is left out.
pub mod Prelude
pub mod Core
pub mod Persistence
pub mod Runtime
pub mod Legislation
pub mod Validation
pub mod Gateway
pub mod Export
pub mod Tests
