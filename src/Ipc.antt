-- ===== src/Ipc.antt =====
-- Processes and their message queues.
use casual.Base.{ℕ, Bool, ◌==◌, ◌&&◌}

-- `common::process::Handle`.
pub record Process : Type 0 where
  pub pid : ℕ
  pub queue : ℕ

unfoldable pub same_process : Process → Process → Bool
same_process p q = (p.pid == q.pid) && (p.queue == q.queue)

-- What becomes of a message that is pushed to a queue without blocking.
pub data Outcome : Type 0 where
  delivered full gone : Outcome
