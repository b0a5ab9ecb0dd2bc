-- ===== src/Queues.antt =====
-- The two verbs on a queue of callers: lib/tasks/enqueue.js, in `Member`, and lib/tasks/dequeue.js, in
-- `Dequeue`. A queue is a sorted set of urls that a database holds.
pub mod Dequeue
pub mod Member
