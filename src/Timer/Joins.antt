-- ===== src/Timer/Joins.antt =====
-- When the thread that shuts down comes back from its join.
use cpp_gossip.Base.{◌≡◌, refl, subst, ◌⊎◌, inl, inr, true, arith}
use cpp_gossip.Timer.Closing.{
  Runner, asleep, locking, locked, over, joining, finished, Pair, has_mutex, Step, awoke, ended,
  entered, left, acquired, stopped, joined, Steps, here, next, running_pair,
}

abbrev pub IsStuck : Pair → Type 0
IsStuck s = (t : Pair) → Step s t → ⊥

-- The task is not in its locked part while the other thread has the mutex; and once that joins, the
-- timer's thread is cancelled.
pub record IsExclusive (s : Pair) : Type 0 where
  pub exclusive : has_mutex s.closer ≡ true → s.runner ≡ locked → ⊥
  pub cancels : s.closer ≡ joining → s.cancelled ≡ true

Step-IsExclusive : {s t : Pair} → Step s t → IsExclusive s → IsExclusive t
Step-IsExclusive (awoke {s} e c) x = record {
  exclusive = λ m r. ground (arith, r);
  cancels = x.cancels;
}
Step-IsExclusive (ended {s} e c) x = record {
  exclusive = λ m r. ground (arith, r);
  cancels = x.cancels;
}
Step-IsExclusive (entered {s} e free) x = record {
  exclusive = λ m r. ground (arith, free, m);
  cancels = x.cancels;
}
Step-IsExclusive (left {s} e) x = record {
  exclusive = λ m r. ground (arith, r);
  cancels = x.cancels;
}
Step-IsExclusive (acquired {s} e free) x = record {
  exclusive = λ m r. free r;
  cancels = λ j. ground (arith, j);
}
Step-IsExclusive (stopped {s} e) x = record {
  exclusive = λ m r. x.exclusive (ground (arith, e)) r;
  cancels = λ j. refl;
}
Step-IsExclusive (joined {s} e o) x = record {
  exclusive = λ m r. ground (arith, m);
  cancels = λ j. ground (arith, j);
}

Steps-IsExclusive : {s : Pair} → Steps running_pair s → IsExclusive s
Steps-IsExclusive here = record {
  exclusive = λ m r. ground (arith, m);
  cancels = λ j. ground (arith, j);
}
Steps-IsExclusive (next r t) = Step-IsExclusive t (Steps-IsExclusive r)

abbrev joining_at : Runner → Pair
joining_at r = record { runner = r; closer = joining; cancelled = true }

locking-IsStuck : IsStuck (joining_at locking)
locking-IsStuck t (awoke e c) = ground (arith, e)
locking-IsStuck t (ended e c) = ground (arith, e)
locking-IsStuck t (entered e free) = ground (arith, free)
locking-IsStuck t (left e) = ground (arith, e)
locking-IsStuck t (acquired e free) = ground (arith, e)
locking-IsStuck t (stopped e) = ground (arith, e)
locking-IsStuck t (joined e o) = ground (arith, o)

-- What the join comes to, by where the timer's thread stands.
abbrev pub JoinEnds : Pair → Type 0
JoinEnds s =
    ((s.runner ≡ locking) × IsStuck s)
    ⊎ Steps s (record { runner = over; closer = finished; cancelled = true })

joining-cases : (r : Runner) → (r ≡ locked → ⊥) → JoinEnds (joining_at r)
joining-cases asleep free = inr (next (next here (ended refl refl)) (joined refl refl))
joining-cases locking free = inl (refl, locking-IsStuck)
joining-cases locked free = absurd (free refl)
joining-cases over free = inr (next here (joined refl refl))

-- Whenever `ShutDown` waits in the join of a timer, it either can still come to its end, or the timer's
-- thread is at the lock of its task, and then neither thread can step any more.
pub join-cases : {s : Pair} → Steps running_pair s → s.closer ≡ joining → JoinEnds s
join-cases {s} r j =
    let x = Steps-IsExclusive r in
    subst JoinEnds (ground (arith, j, x.cancels j))
      (joining-cases s.runner (x.exclusive (ground (arith, j))))

-- From a timer that sleeps, `ShutDown` can come to wait in the join for good: the timer's thread wakes,
-- and waits for the mutex that `ShutDown` holds.
pub shut_down-IsStuck : (s : Pair) × Steps running_pair s × (s.closer ≡ joining) × IsStuck s
shut_down-IsStuck = (
  joining_at locking,
  next (next (next here (awoke refl refl)) (acquired refl (λ e. ground (arith, e)))) (stopped refl),
  refl,
  locking-IsStuck,
)
