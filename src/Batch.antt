-- ===== src/Batch.antt =====
-- internal/service/batch.go: the input of a batch scan and its run. `Input` reads the rows of a text
-- or of a file and sorts them into valid, invalid and repeated domains; `Options` cleans
-- the options, `Rows` makes the work items and
-- the rows of results; `Run` is the run of the workers and the writer; `Finish` begins, ends and
-- stops a run.
pub mod Input
pub mod Options
pub mod Rows
pub mod Run
pub mod Finish
pub mod Tests
