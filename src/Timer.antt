-- ===== src/Timer.antt =====
-- src/misc/timer.cpp: the state of a timer. `expire` is the end of the run of a `onceTimer`. The thread
-- of a `repeatTimer` is in Closing, beside one that destroys it.
pub mod Laws
pub mod Closing
pub mod Joins
use cpp_gossip.Base.{ℕ, ◌*◌, Bool, true, false, not, ◌||◌, ltb, leb, if◌then◌else◌}
use cpp_gossip.Base.Int.{pos}
use cpp_gossip.Double.{Double}

pub record Timer : Type 0 where
  pub running : Bool
  pub has_task : Bool
  pub scalable : Bool
  pub time_interval : ℕ

unfoldable pub new_timer : ℕ → Bool → Bool → Timer
new_timer interval task scalable = record {
  running = false;
  has_task = task;
  scalable = scalable;
  time_interval = interval;
}

-- The copy constructor: the copy does not run.
unfoldable pub copy_timer : Timer → Timer
copy_timer t = record t { running = false }

-- `Run`: nothing if it runs already, or has no task.
unfoldable pub run : Timer → Timer
run t = if t.running || not t.has_task then t else record t { running = true }

-- `Stop`: whether there was a run to cancel.
unfoldable pub stop : Timer → Timer × Bool
stop t = if t.running then (record t { running = false }, true) else (t, false)

-- The two of a `repeatTimer`, which does not stop by itself.
unfoldable pub repeat_run : Timer → Timer
repeat_run t = if t.running || not t.has_task then t else record t { running = true }

unfoldable pub repeat_stop : Timer → Timer × Bool
repeat_stop t = if t.running then (record t { running = false }, true) else (t, false)

unfoldable pub restart : ℕ → Timer → Timer
restart interval t =
    let t' = (stop t).0 in
    run (if ltb 0 interval then record t' { time_interval = interval } else t')

-- A `onceTimer` whose time is over has called its task, and stops.
unfoldable pub expire : Timer → Timer
expire t = record t { running = false }

abbrev pub push_pull_scale_threshold : ℕ
push_pull_scale_threshold = 32

-- `pushPullScale`, and the time that a run waits with `estNumNodes() = n`.
module _ (d : Double) where
  open d use {F, of_ℤ, log2, ceil, add, sub, to_uint32}

  unfoldable pub push_pull_scale : ℕ → ℕ → ℕ
  push_pull_scale interval n =
      if leb n push_pull_scale_threshold
      then interval
      else interval
        * to_uint32 (add (ceil (sub (lg n) (lg push_pull_scale_threshold))) (of_ℤ (pos 1)))
    where
      lg : ℕ → F
      lg a = log2 (of_ℤ (pos a))

  unfoldable pub wait_time : ℕ → Timer → ℕ
  wait_time n t = if t.scalable then push_pull_scale t.time_interval n else t.time_interval
