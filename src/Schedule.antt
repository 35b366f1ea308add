-- ===== src/Schedule.antt =====
-- `schedule`, `deschedule` and `Join` of src/memberlist/memberlist.cpp.
pub mod Laws
use cpp_gossip.Base.{
  ℕ, zero, suc, ◌+◌, Bool, true, false, Option, none, some, ltb, ◌==◌, if◌then◌else◌,
}
use cpp_gossip.Config.{Config}
use cpp_gossip.Timer.{Timer, new_timer, repeat_run}

-- `scheduled` and `schedule_timer[3]`.
pub record Schedule : Type 0 where
  pub scheduled : Bool
  pub probe_timer : Option Timer
  pub push_pull_timer : Option Timer
  pub gossip_timer : Option Timer

-- A new timer that runs, if the interval asks for one.
abbrev pub started : ℕ → Bool → Option Timer → Option Timer
started interval scalable old =
    if ltb 0 interval then some (repeat_run (new_timer interval true scalable)) else old

abbrev pub reset : ℕ → Option Timer → Option Timer
reset interval old = if ltb 0 interval then none else old

unfoldable pub schedule : Config → Schedule → Schedule
schedule c s = if s.scheduled then s else record {
  scheduled = true;
  probe_timer = started c.probe_interval false s.probe_timer;
  push_pull_timer = started c.push_pull_interval true s.push_pull_timer;
  gossip_timer = started c.gossip_interval false s.gossip_timer;
}

unfoldable pub deschedule : Config → Schedule → Schedule
deschedule c s =
    if s.scheduled
    then record {
      scheduled = false;
      probe_timer = reset c.probe_interval s.probe_timer;
      push_pull_timer = reset c.push_pull_interval s.push_pull_timer;
      gossip_timer = reset c.gossip_interval s.gossip_timer;
    }
    else s

-- How `Join` ends: with the push/pull that went through, or with the end of the process.
pub data JoinResult : Type 0 where
  joined : ℕ → JoinResult
  gave_up : JoinResult

-- `fails i` says whether the push/pull of round `i` throws.
unfoldable pub join_loop : (ℕ → Bool) → ℕ → ℕ → JoinResult
join_loop fails zero i = gave_up
join_loop fails (suc rounds) i = elim (fails i) [
  | false ↦ joined i
  | true ↦ elim (i == 10) [ true ↦ gave_up | false ↦ join_loop fails rounds (i + 1) ]
]

unfoldable pub join : (ℕ → Bool) → JoinResult
join fails = join_loop fails 10 1
