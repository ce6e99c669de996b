-- ===== src/Examples.antt =====
-- Concrete instances of what the model takes as parameters, and the theorems applied to them.
mod Numbers
mod Arrow
mod Table
mod Decisions
mod Scans
mod Loads
mod Postgres
mod Pools
mod Tables
mod Adapters
mod Objects
mod Requests
mod Queries
mod Reordered
