-- ===== src/Work.antt =====
-- tms/work: the work board.
pub mod Items
pub mod Board
