-- ===== src/Store.antt =====
-- store/: reads and writes of the tables. A table is the list of its rows; an SQL statement is what
-- it selects from that list.
pub mod AsOf
