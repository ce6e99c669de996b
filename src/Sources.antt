-- ===== src/Sources.antt =====
-- The data adapters of adapters/data: duckdb.rs, parquet.rs, s3_parquet.rs and the connection of
-- postgres.rs.
pub mod DuckDb
pub mod Parquet
pub mod S3
pub mod Agreement
