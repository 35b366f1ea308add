-- ===== src/Member/Run.antt =====
-- Everything that changes the tables, in any order, from a new member on.
use cpp_gossip.Base.{
  ℕ, ◌≢◌, refl, Bool, false, Option, none, List, [], ◌∷◌, All, inl, inr, Option-cases,
}
use cpp_gossip.Double.{Double}
use cpp_gossip.Node.{NodeStateType, state_alive, state_suspect, state_dead, state_left}
use cpp_gossip.Message.{Broadcast, Alive, Suspect, Dead, PushNodeState}
use cpp_gossip.Suspicion.{Suspicion}
use cpp_gossip.Member.{
  Member, Outcome, done, blocked, crashed, ◌>>=◌, after, Env, next_incarnation, skip_incarnation,
}
use cpp_gossip.Member.Handlers.{alive_node, dead_node, suspect_node, timeout_message}
use cpp_gossip.Member.Local.{
  set_alive, begin_leave, update_node, suspicion_timeout_fired, merge_as, merge_entry,
  merge_remote_state,
}

-- The alive message that `mergeRemoteState` makes of an entry.
abbrev pub alive_of : PushNodeState → Alive
alive_of st = record {
  incarnation = st.incarnation;
  node = st.name;
  addr = st.addr;
  port = st.port;
}

-- A broadcast that was received, a call of the program, a remote state, or the end of a suspicion.
-- `leave` is only the beginning of `Leave`, since others may come before the dead message that it
-- makes: that one counts as received.
pub data Event : Type 0 where
  alive_received : Alive → Event
  dead_received : Dead → Event
  suspect_received : Suspect → Event
  start leave : Event
  update : ℕ → Event
  merge : List (Env × PushNodeState) → Event
  timed_out : Suspicion → Event

-- The alive messages that an event brings from elsewhere.
abbrev pub Hears : (Alive → Type 0) → Event → Type 0
Hears good (alive_received a) = good a
Hears good (merge states) = All (λ x. good (alive_of x.1)) states
Hears good _ = Unit

All-Unit {ℓ} : {A : Type ℓ} (xs : List A) → All (λ x. Unit {0}) xs
All-Unit [] = tt
All-Unit (x ∷ xs) = (tt, All-Unit xs)

pub Hears-Unit : (e : Event) → Hears (λ a. Unit) e
Hears-Unit (alive_received a) = tt
Hears-Unit (dead_received msg) = tt
Hears-Unit (suspect_received s) = tt
Hears-Unit start = tt
Hears-Unit leave = tt
Hears-Unit (update fd) = tt
Hears-Unit (merge states) = All-Unit states
Hears-Unit (timed_out s) = tt

module _ (byte_size : Broadcast → ℕ) (d : Double) where
  unfoldable pub step : Env → Event → Member → Outcome
  step env (alive_received a) m = done (alive_node byte_size env a false none m)
  step env (dead_received msg) m = done (dead_node byte_size env msg m)
  step env (suspect_received s) m = suspect_node byte_size d env s m
  step env start m = done (set_alive byte_size env m)
  step env leave m = done (begin_leave m).0
  step env (update fd) m = update_node byte_size env fd m
  step env (merge states) m = merge_remote_state byte_size d states m
  step env (timed_out s) m = done (suspicion_timeout_fired byte_size env s m)

  unfoldable pub run : List (Env × Event) → Member → Outcome
  run [] m = done m
  run ((env, e) ∷ es) m = step env e m >>= (λ m'. run es m')

  pub bind-kept :
      (P : Member → Type 0) (o : Outcome) (f : Member → Outcome)
      → P (after o)
      → ((m : Member) → P m → P (after (f m)))
      → P (after (o >>= f))
  bind-kept P (done m) f c h = h m c
  bind-kept P (blocked m) f c h = c
  bind-kept P (crashed m) f c h = c

  -- What the handlers and the counter of incarnations keep, every event but `leave` keeps, if the alive
  -- messages about other nodes are as `good` wants them.
  pub record IsKept (good : Alive → Type 0) (P : Member → Type 0) : Type 0 where
    pub alive :
        (env : Env) (a : Alive) (boot : Bool) (fd : Option ℕ) (m : Member)
        → (a.node ≢ m.config.name → good a)
        → P m
        → P (alive_node byte_size env a boot fd m)
    pub dead : (env : Env) (msg : Dead) (m : Member) → P m → P (dead_node byte_size env msg m)
    pub suspect :
        (env : Env) (s : Suspect) (m : Member) → P m → P (after (suspect_node byte_size d env s m))
    pub counter : (m : Member) (inc : ℕ) → P m → P (record m { incarnation = inc })

  module _ (good : Alive → Type 0) (P : Member → Type 0) (kept : IsKept good P) where
    pub merge_entry-kept :
        (env : Env) (st : PushNodeState) (m : Member)
        → good (alive_of st)
        → P m
        → P (after (merge_entry byte_size d env st m))
    unfolding merge_entry
    merge_entry-kept env st m g c = by_state st.state
      where
        by_state : (s : NodeStateType) → P (after (merge_as byte_size d s env st m))
        by_state state_alive = kept.alive env _ _ _ m (λ other. g) c
        by_state state_left = kept.dead env _ m c
        by_state state_dead = kept.suspect env _ m c
        by_state state_suspect = kept.suspect env _ m c

    pub merge_remote_state-kept :
        (states : List (Env × PushNodeState)) (m : Member)
        → All (λ x. good (alive_of x.1)) states
        → P m
        → P (after (merge_remote_state byte_size d states m))
    unfolding merge_remote_state
    merge_remote_state-kept [] m g c = c
    merge_remote_state-kept ((env, st) ∷ rest) m g c =
        bind-kept P (merge_entry byte_size d env st m) _ (merge_entry-kept env st m g.0 c)
          (λ m'. merge_remote_state-kept rest m' g.1)

    update_node-kept :
        (env : Env) (fd : ℕ) (m : Member) → P m → P (after (update_node byte_size env fd m))
    unfolding update_node next_incarnation skip_incarnation
    update_node-kept env fd m c = elim (Option-cases (m.node_map m.config.name)) [
      | inl e ↦ rw (e, update_node) c
      | inr (p, e) ↦
          rw (e, update_node)
            (kept.alive env _ _ _ _ (λ other. absurd (other refl)) (kept.counter m _ c))
    ]

    timed_out-kept :
        (env : Env) (s : Suspicion) (m : Member)
        → P m
        → P (suspicion_timeout_fired byte_size env s m)
    unfolding suspicion_timeout_fired
    timed_out-kept env s m c = elim (Option-cases (timeout_message s m)) [
      | inl e ↦ rw (e, suspicion_timeout_fired) c
      | inr (msg, e) ↦ rw (e, suspicion_timeout_fired) (kept.dead env msg m c)
    ]

    pub set_alive-kept : (env : Env) (m : Member) → P m → P (set_alive byte_size env m)
    unfolding set_alive next_incarnation skip_incarnation
    set_alive-kept env m c =
        kept.alive env _ _ _ _ (λ other. absurd (other refl)) (kept.counter m _ c)

    module _ (ok : Event → Type 0) (hears : (e : Event) → ok e → Hears good e)
        (leaves : (m : Member) → ok leave → P m → P (begin_leave m).0) where
      step-kept : (env : Env) (e : Event) (m : Member) → ok e → P m → P (after (step env e m))
      unfolding step
      step-kept env (alive_received a) m o c =
          kept.alive env a _ _ m (λ other. hears (alive_received a) o) c
      step-kept env (dead_received msg) m o c = kept.dead env msg m c
      step-kept env (suspect_received s) m o c = kept.suspect env s m c
      step-kept env start m o c = set_alive-kept env m c
      step-kept env leave m o c = leaves m o c
      step-kept env (update fd) m o c = update_node-kept env fd m c
      step-kept env (merge states) m o c =
          merge_remote_state-kept states m (hears (merge states) o) c
      step-kept env (timed_out s) m o c = timed_out-kept env s m c

      pub run-kept :
          (es : List (Env × Event)) (m : Member) → All (λ x. ok x.1) es → P m → P (after (run es m))
      unfolding run
      run-kept [] m o c = c
      run-kept ((env, e) ∷ es) m o c =
          bind-kept P (step env e m) _ (step-kept env e m o.0 c) (λ m'. run-kept es m' o.1)
