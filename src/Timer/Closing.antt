-- ===== src/Timer/Closing.antt =====
-- A repeating timer and a thread that destroys it while it holds `nodeMutex`: `ShutDown` through
-- `deschedule`, for the timers of `probe`, `pushPull` and `gossip`, whose tasks lock that mutex. The
-- destructor of a timer cancels its thread and joins it. A cancelled thread ends where it sleeps, and
-- not at a mutex.
use cpp_gossip.Base.{◌≡◌, Bool, true, false}

-- Where the timer's thread stands in the loop of its runner: asleep, at the lock of its task, in the
-- task with the mutex, or at its end.
pub data Runner : Type 0 where
  asleep : Runner
  locking : Runner
  locked : Runner
  over : Runner

-- Where the thread stands that shuts down: before, with the mutex, at the join, or at its end.
pub data Closer : Type 0 where
  before : Closer
  inside : Closer
  joining : Closer
  finished : Closer

-- The two threads, and whether the timer's thread is cancelled.
pub record Pair : Type 0 where
  pub runner : Runner
  pub closer : Closer
  pub cancelled : Bool

abbrev pub has_mutex : Closer → Bool
has_mutex before = false
has_mutex inside = true
has_mutex joining = true
has_mutex finished = false

pub data Step : Pair → Pair → Type 0 where
  awoke :
      {s : Pair} → s.runner ≡ asleep → s.cancelled ≡ false → Step s (record s { runner = locking })
  ended : {s : Pair} → s.runner ≡ asleep → s.cancelled ≡ true → Step s (record s { runner = over })
  entered :
      {s : Pair}
      → s.runner ≡ locking
      → has_mutex s.closer ≡ false
      → Step s (record s { runner = locked })
  left : {s : Pair} → s.runner ≡ locked → Step s (record s { runner = asleep })
  acquired :
      {s : Pair}
      → s.closer ≡ before
      → (s.runner ≡ locked → ⊥)
      → Step s (record s { closer = inside })
  stopped :
      {s : Pair} → s.closer ≡ inside → Step s (record s { closer = joining; cancelled = true })
  joined :
      {s : Pair} → s.closer ≡ joining → s.runner ≡ over → Step s (record s { closer = finished })

pub data Steps : Pair → Pair → Type 0 where
  here : {s : Pair} → Steps s s
  next : {s t u : Pair} → Steps s t → Step t u → Steps s u

abbrev pub running_pair : Pair
running_pair = record { runner = asleep; closer = before; cancelled = false }
