-- ===== src/Worker.antt =====
-- BaseWorker of shared/wrkr/core/worker.py, over any queue: a worker takes tasks from its queue,
-- executes them, marks them, asks for help, and ends by an orderly shutdown. A call of `stop` from
-- outside is made during a task or not at all. Sleeping takes no step. The hook `_onboard` is the
-- default one, and `_on_state_change` records the states that it is called with.
pub mod Machine
pub mod Turn
pub mod Main
pub mod Ends
pub mod Run
pub mod Trace
pub mod Halts
pub mod StopAtTask
pub mod Stores
mod Examples
