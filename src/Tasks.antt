-- ===== src/Tasks.antt =====
-- internal/service/tasks.go, internal/service/probe.go and internal/bridge/bridge.go: how an execution
-- of a task runs. `Detail` renames the fields of a result, `Rows` writes a result to the row of a
-- region and sums the rows up, `Jobs` sends the work of a region to a remote probe, takes its
-- results and repeats jobs whose lease is over, `Run` does an execution region by region.
pub mod Tests
pub mod Create
pub mod Detail
pub mod Rows
pub mod Jobs
pub mod Run
pub mod Events
pub mod Settled
pub mod Answered
pub mod Ended
pub mod Sent
pub mod Finished
pub mod Met
pub mod Kept
pub mod Swept
pub mod Raced
pub mod Due
