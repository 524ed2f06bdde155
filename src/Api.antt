-- ===== src/Api.antt =====
-- api/contracts.py and api/_validation.py: the data of the worker v1 contracts, and freshness.
pub mod Freshness
pub mod Contracts
