-- ===== src/Store.antt =====
-- fpt/store over the tables of db/migrations.
pub mod Database
pub mod Evidence
pub mod Queries
pub mod Listings
pub mod Observations
pub mod Deals
pub mod Pipeline
pub mod Fixture
mod Tests
