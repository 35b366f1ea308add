-- ===== src/Timer/Laws.antt =====
-- The running flag of a timer.
use cpp_gossip.Base.{ℕ, ◌≡◌, true, false, arith, ltb, if◌then◌else◌}
use cpp_gossip.Timer.{Timer, run, stop, restart}

-- A timer that has a task runs after `Restart`, for the new interval if that is positive and for the
-- old one if not; and `Stop` then answers that there was a run, and a second `Stop` that there is none.
pub restart-stop-stop :
    (interval : ℕ) (t : Timer)
    → t.has_task ≡ true
    → (let t' = restart interval t in
        (t'.running ≡ true)
        × (t'.time_interval ≡ (if ltb 0 interval then interval else t.time_interval))
        × ((stop t').1 ≡ true)
        × ((stop (stop t').0).1 ≡ false))
unfolding restart run stop
restart-stop-stop interval t h = ground arith

-- A timer with no task never runs: `Run` and `Restart` leave it as it was, but for the interval.
pub no_task_never_runs :
    (interval : ℕ) (t : Timer)
    → t.has_task ≡ false
    → t.running ≡ false
    → (run t ≡ t) × ((restart interval t).running ≡ false) × ((stop (run t)).1 ≡ false)
unfolding restart run stop
no_task_never_runs interval t h r = ground arith
