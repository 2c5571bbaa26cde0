-- ===== src/Store.antt =====
-- crates/chuk-train-controlplane/src/store: the metadata store, as its tables. A row is a record, a
-- query is a function of the tables, and each statement of the adapters (store/sqlite/*.rs) is one
-- update. Statements do not fail here. `now()` is the argument `at`.
pub mod Tables
pub mod Ids
pub mod RunIds
pub mod Runs
pub mod Fleet
pub mod Policy
pub mod Auth
pub mod Tokens
pub mod Ledger
pub mod Series
pub mod Thinning
