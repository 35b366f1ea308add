-- ===== src/Schedule/Laws.antt =====
-- The background timers, and the attempts of `Join`.
use cpp_gossip.Base.{
  ℕ, zero, suc, ◌+◌, ◌≤◌, ◌<◌, ◌≡◌, refl, Bool, true, false, Option, none, some, arith, Bool-cases,
  inl, inr, ◌==◌, ℕ_discrete, subst,
}
use cpp_gossip.Config.{Config}
use cpp_gossip.Timer.{Timer, new_timer, repeat_run}
use cpp_gossip.Schedule.{
  Schedule, schedule, deschedule, joined, gave_up, join_loop, join, JoinResult,
}

-- The timers that stand, are those with a positive interval; all run.
abbrev pub Stands : ℕ → Option Timer → Type 0
Stands interval none = interval ≡ 0
Stands interval (some t) = (0 < interval) × (t.running ≡ true) × (t.time_interval ≡ interval)

pub record IsSchedule (c : Config) (s : Schedule) : Type 0 where
  pub probe : Stands c.probe_interval s.probe_timer
  pub push_pull : Stands c.push_pull_interval s.push_pull_timer
  pub gossip : Stands c.gossip_interval s.gossip_timer

abbrev pub idle : Schedule
idle = record { scheduled = false; probe_timer = none; push_pull_timer = none; gossip_timer = none }

-- From no timers `schedule` makes one for each positive interval, and each runs; a second call changes
-- nothing; and `deschedule` then removes them all, and again changes nothing the second time.
pub schedule-deschedule :
    (c : Config)
    → (let s = schedule c idle in
        (s.scheduled ≡ true)
        × IsSchedule c s
        × (schedule c s ≡ s)
        × (deschedule c s ≡ idle)
        × (deschedule c (deschedule c s) ≡ idle))
unfolding schedule deschedule new_timer repeat_run
schedule-deschedule c = (
  ground arith,
  record { probe = ground arith; push_pull = ground arith; gossip = ground arith },
  ground arith,
  ground arith,
  ground arith,
)

-- What the attempts from `i` on lead to: the first that goes through.
abbrev pub JoinsFrom : (ℕ → Bool) → ℕ → JoinResult → Type 0
JoinsFrom fails i (joined j) =
    (fails j ≡ false) × (i ≤ j) × (j ≤ 10) × ((k : ℕ) → i ≤ k → k < j → fails k ≡ true)
JoinsFrom fails i gave_up = (k : ℕ) → i ≤ k → k ≤ 10 → fails k ≡ true

all_from :
    (fails : ℕ → Bool) (i n : ℕ)
    → fails i ≡ true
    → ((k : ℕ) → i + 1 ≤ k → k < n → fails k ≡ true)
    → (k : ℕ) → i ≤ k
    → k < n
    → fails k ≡ true
all_from fails i n e h k a b = elim (ℕ_discrete i k) [
  | yes same ↦ subst (λ x. fails x ≡ true) same e
  | no other ↦ h k (omega arith) b
]

JoinsFrom-step :
    (fails : ℕ → Bool) (i : ℕ) (r : JoinResult)
    → fails i ≡ true
    → JoinsFrom fails (i + 1) r
    → JoinsFrom fails i r
JoinsFrom-step fails i (joined j) e h =
    (h.0, omega (arith, h.1), h.2, λ k a b. all_from fails i j e h.3 k a b)
JoinsFrom-step fails i gave_up e h =
    λ k a b. all_from fails i 11 e (λ k a b. h k a (omega arith)) k a (omega arith)

join_loop-JoinsFrom :
    (fails : ℕ → Bool) (rounds i : ℕ)
    → rounds + i ≡ 11
    → 0 < rounds
    → JoinsFrom fails i (join_loop fails rounds i)
unfolding join_loop
join_loop-JoinsFrom fails zero i e pos = elim pos [ ]
join_loop-JoinsFrom fails (suc rounds) i e pos = elim (Bool-cases (fails i)) [
  | inr ok ↦ rw (ok, join_loop) (ok, omega arith, omega arith, λ k a b. absurd (omega arith))
  | inl failed ↦ elim (Bool-cases (i == 10)) [
    | inl last ↦
        let ten : i ≡ 10 = ground arith in
        rw (failed, last, join_loop)
          (λ k a b. let here : i ≡ k = omega arith in subst (λ x. fails x ≡ true) here failed)
    | inr more ↦
        rw (failed, more, join_loop)
          (JoinsFrom-step fails i _ failed
            (join_loop-JoinsFrom fails rounds (i + 1) (omega arith) (ground arith)))
  ]
]

-- `Join` goes through with the first of its ten attempts that does not throw, and gives up exactly if
-- all ten throw.
pub join-JoinsFrom : (fails : ℕ → Bool) → JoinsFrom fails 1 (join fails)
unfolding join
join-JoinsFrom fails = join_loop-JoinsFrom fails 10 1 refl (omega arith)
