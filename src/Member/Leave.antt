-- ===== src/Member/Leave.antt =====
-- The local node's own state.
use cpp_gossip.Base.{
  ℕ, ◌≡◌, ◌≢◌, refl, Bool, true, false, Option, none, some, List, All, arith, ◌&&◌, leb, ◌≤◌, ◌<◌,
  ◌+◌, u32_mod, insert, store,
}
use cpp_gossip.Config.{Config}
use cpp_gossip.Double.{Double}
use cpp_gossip.Node.{NodeState, is_left, is_alive}
use cpp_gossip.Message.{Broadcast, Alive, Suspect, Dead}
use cpp_gossip.Member.{
  Member, after, Env, new_member, add_node, skip_incarnation, next_incarnation, refute,
  broadcast_notify, only_broadcast,
}
use cpp_gossip.Member.Handlers.{
  apply_alive, alive_node, mark_dead, dead_node, mark_suspect, confirm_suspicion, suspect_node,
}
use cpp_gossip.Member.Local.{begin_leave, leave_message, set_alive}
use cpp_gossip.Member.Consistent.{
  IsConsistent, IsConsistent-kept, begin_leave-IsConsistent, new_member-IsConsistent, All-Unit,
}
use cpp_gossip.Member.Run.{Hears-Unit, Event, leave, IsKept, run, run-kept, set_alive-kept}

-- The member is called `c.name`, and its own state passes the test.
abbrev pub OwnEntry : (NodeState → Bool) → Member → Option ℕ → Type 0
OwnEntry test m none = ⊥
OwnEntry test m (some p) = test (m.cell p) ≡ true

-- The member has not left, and holds itself for alive; or it has left.
abbrev pub IsLocalAlive : Member → Type 0
IsLocalAlive m = (m.leave ≡ false) × OwnEntry (λ st. is_alive st.state) m (m.node_map m.config.name)

abbrev pub IsGone : Member → Type 0
IsGone m = (m.leave ≡ true) × OwnEntry (λ st. is_left st.state) m (m.node_map m.config.name)

module _ (byte_size : Broadcast → ℕ) (env : Env) where
  alive_node-IsLocalAlive :
      (a : Alive) (boot : Bool) (fd : Option ℕ) (m : Member)
      → IsConsistent m
      → IsLocalAlive m
      → IsLocalAlive (alive_node byte_size env a boot fd m)
  unfolding alive_node apply_alive add_node broadcast_notify refute only_broadcast skip_incarnation
      store insert
  alive_node-IsLocalAlive a boot fd m c l = ground (arith, c.keys a.node, c.keys m.config.name)

  dead_node-IsLocalAlive :
      (msg : Dead) (m : Member)
      → IsConsistent m
      → IsLocalAlive m
      → IsLocalAlive (dead_node byte_size env msg m)
  unfolding dead_node mark_dead broadcast_notify refute only_broadcast skip_incarnation store
  dead_node-IsLocalAlive msg m c l = ground (arith, c.keys msg.node, c.keys m.config.name)

  suspect_node-IsLocalAlive :
      (d : Double) (s : Suspect) (m : Member)
      → IsConsistent m
      → IsLocalAlive m
      → IsLocalAlive (after (suspect_node byte_size d env s m))
  unfolding suspect_node confirm_suspicion mark_suspect broadcast_notify refute only_broadcast
      skip_incarnation store
  suspect_node-IsLocalAlive d s m c l = ground (arith, c.keys s.node, c.keys m.config.name)

  alive_node-IsGone :
      (a : Alive) (boot : Bool) (fd : Option ℕ) (m : Member)
      → IsConsistent m
      → IsGone m
      → IsGone (alive_node byte_size env a boot fd m)
  unfolding alive_node apply_alive add_node broadcast_notify refute only_broadcast skip_incarnation
      store insert
  alive_node-IsGone a boot fd m c l = ground (arith, c.keys a.node, c.keys m.config.name)

  dead_node-IsGone :
      (msg : Dead) (m : Member) → IsConsistent m → IsGone m → IsGone (dead_node byte_size env msg m)
  unfolding dead_node mark_dead broadcast_notify refute only_broadcast skip_incarnation store
  dead_node-IsGone msg m c l = ground (arith, c.keys msg.node, c.keys m.config.name)

  suspect_node-IsGone :
      (d : Double) (s : Suspect) (m : Member)
      → IsConsistent m
      → IsGone m
      → IsGone (after (suspect_node byte_size d env s m))
  unfolding suspect_node confirm_suspicion mark_suspect broadcast_notify refute only_broadcast
      skip_incarnation store
  suspect_node-IsGone d s m c l = ground (arith, c.keys s.node, c.keys m.config.name)

-- The member, of this configuration, is leaving.
abbrev IsLeaving : Config → Member → Type 0
IsLeaving c m = (m.leave ≡ true) × (m.config ≡ c)

leave_again : (m : Member) → IsGone m → IsGone (begin_leave m).0
unfolding begin_leave
leave_again m g = ground (arith, g)

begin_leave-IsLeaving : (c : Config) (m : Member) → IsLeaving c m → IsLeaving c (begin_leave m).0
unfolding begin_leave
begin_leave-IsLeaving c m l = ground (arith, l)

begin_leave-starts :
    (m : Member) → m.shutdown ≡ false → m.leave ≡ false → IsLeaving m.config (begin_leave m).0
unfolding begin_leave
begin_leave-starts m up stays = ground arith

leave_message-names :
    (c : Config) (msg : Dead) (m : Member)
    → IsConsistent m
    → IsLeaving c m
    → leave_message m ≡ some msg
    → (msg.node ≡ c.name) × (msg.from ≡ c.name)
unfolding leave_message
leave_message-names c msg m ok l e = ground (arith, ok.keys m.config.name)

module _ (byte_size : Broadcast → ℕ) (c : Config) where
  alive_node-IsLeaving :
      (env : Env) (a : Alive) (boot : Bool) (fd : Option ℕ) (m : Member)
      → IsLeaving c m
      → IsLeaving c (alive_node byte_size env a boot fd m)
  unfolding alive_node apply_alive add_node broadcast_notify refute only_broadcast skip_incarnation
  alive_node-IsLeaving env a boot fd m l = ground arith

  dead_node-IsLeaving :
      (env : Env) (msg : Dead) (m : Member)
      → IsLeaving c m
      → IsLeaving c (dead_node byte_size env msg m)
  unfolding dead_node mark_dead broadcast_notify refute only_broadcast skip_incarnation
  dead_node-IsLeaving env msg m l = ground arith

  suspect_node-IsLeaving :
      (d : Double) (env : Env) (s : Suspect) (m : Member)
      → IsLeaving c m
      → IsLeaving c (after (suspect_node byte_size d env s m))
  unfolding suspect_node confirm_suspicion mark_suspect broadcast_notify refute only_broadcast
      skip_incarnation
  suspect_node-IsLeaving d env s m l = ground arith

module _ (byte_size : Broadcast → ℕ) (d : Double) (c : Config) where
  IsLeaving-kept : IsKept byte_size d (λ a. Unit) (λ m. IsConsistent m × IsLeaving c m)
  IsLeaving-kept = record {
    alive = λ env a boot fd m g h.
        (good.alive env a boot fd m g h.0, alive_node-IsLeaving byte_size c env a boot fd m h.1);
    dead = λ env msg m h. (good.dead env msg m h.0, dead_node-IsLeaving byte_size c env msg m h.1);
    suspect =
        λ env s m h. (good.suspect env s m h.0, suspect_node-IsLeaving byte_size c d env s m h.1);
    counter = λ m inc h. (good.counter m inc h.0, h.1);
  }
    where
      good : IsKept byte_size d (λ a. Unit) IsConsistent
      good = IsConsistent-kept byte_size d

  dead_node-leaves :
      (env : Env) (msg : Dead) (m : Member)
      → IsConsistent m
      → IsLeaving c m
      → (msg.node ≡ c.name) × (msg.from ≡ c.name)
      → OwnEntry
          (λ st. is_alive st.state && leb st.incarnation msg.incarnation)
          m
          (m.node_map m.config.name)
      → IsGone (dead_node byte_size env msg m)
  unfolding dead_node mark_dead broadcast_notify store
  dead_node-leaves env msg m ok l named own = ground (arith, ok.keys m.config.name)

module _ (byte_size : Broadcast → ℕ) (d : Double) where
  IsLocalAlive-kept : IsKept byte_size d (λ a. Unit) (λ m. IsConsistent m × IsLocalAlive m)
  IsLocalAlive-kept = record {
    alive = λ env a boot fd m g h. (
      good.alive env a boot fd m g h.0,
      alive_node-IsLocalAlive byte_size env a boot fd m h.0 h.1,
    );
    dead = λ env msg m h.
        (good.dead env msg m h.0, dead_node-IsLocalAlive byte_size env msg m h.0 h.1);
    suspect = λ env s m h.
        (good.suspect env s m h.0, suspect_node-IsLocalAlive byte_size env d s m h.0 h.1);
    counter = λ m inc h. (good.counter m inc h.0, h.1);
  }
    where
      good : IsKept byte_size d (λ a. Unit) IsConsistent
      good = IsConsistent-kept byte_size d

  IsGone-kept : IsKept byte_size d (λ a. Unit) (λ m. IsConsistent m × IsGone m)
  IsGone-kept = record {
    alive = λ env a boot fd m g h.
        (good.alive env a boot fd m g h.0, alive_node-IsGone byte_size env a boot fd m h.0 h.1);
    dead = λ env msg m h. (good.dead env msg m h.0, dead_node-IsGone byte_size env msg m h.0 h.1);
    suspect =
        λ env s m h. (good.suspect env s m h.0, suspect_node-IsGone byte_size env d s m h.0 h.1);
    counter = λ m inc h. (good.counter m inc h.0, h.1);
  }
    where
      good : IsKept byte_size d (λ a. Unit) IsConsistent
      good = IsConsistent-kept byte_size d

  set_alive-IsLocalAlive :
      (env : Env) (c : Config) (fd : ℕ) → IsLocalAlive (set_alive byte_size env (new_member c fd))
  unfolding set_alive new_member next_incarnation skip_incarnation alive_node apply_alive add_node
      broadcast_notify store insert
  set_alive-IsLocalAlive env c fd = ground arith

  -- Once a new member has announced itself, it holds itself for alive as long as it does not leave,
  -- whatever it receives.
  pub run-IsLocalAlive :
      (c : Config) (fd : ℕ) (env : Env) (es : List (Env × Event))
      → All (λ x. x.1 ≢ leave) es
      → IsLocalAlive (after (run byte_size d es (set_alive byte_size env (new_member c fd))))
  run-IsLocalAlive c fd env es h =
      (run-kept byte_size d _ _ IsLocalAlive-kept (λ e. e ≢ leave) (λ e _. Hears-Unit e)
        (λ m no _. absurd (no refl)) es _ h
        (
          set_alive-kept byte_size d _ IsConsistent (IsConsistent-kept byte_size d) env _
              (new_member-IsConsistent c fd),
          set_alive-IsLocalAlive env c fd,
        )).1

  run-IsLeaving :
      (c : Config) (es : List (Env × Event)) (m : Member)
      → IsConsistent m
      → IsLeaving c m
      → IsConsistent (after (run byte_size d es m)) × IsLeaving c (after (run byte_size d es m))
  run-IsLeaving c es m ok l =
      run-kept byte_size d _ (λ m. IsConsistent m × IsLeaving c m) (IsLeaving-kept byte_size d c)
        (λ e. Unit {0}) (λ e _. Hears-Unit e)
        (λ m _ h. (begin_leave-IsConsistent m h.0, begin_leave-IsLeaving c m h.1)) es m
        (All-Unit byte_size d es) (ok, l)

  never_back :
      (es : List (Env × Event)) (m : Member)
      → IsConsistent m
      → IsGone m
      → IsGone (after (run byte_size d es m))
  never_back es m ok g =
      (run-kept byte_size d _ (λ m. IsConsistent m × IsGone m) IsGone-kept (λ e. Unit {0})
        (λ e _. Hears-Unit e) (λ m _ h. (begin_leave-IsConsistent m h.0, leave_again m h.1)) es m
        (All-Unit byte_size d es) (ok, g)).1

  -- A consistent member that is not shut down and has not left calls `Leave`. Other events come
  -- before it reads its own entry, between that and `deadNode` of its message, and after that. If at
  -- `deadNode` the member still holds itself for alive, at no higher incarnation than the message's
  -- (which a refutation in between would have raised), then it holds itself for gone from then on,
  -- whatever comes.
  pub run-IsGone :
      (m : Member) (es₀ es₁ es₂ : List (Env × Event)) (env : Env) (msg : Dead)
      → IsConsistent m
      → m.shutdown ≡ false
      → m.leave ≡ false
      → (let m₀ = after (run byte_size d es₀ (begin_leave m).0) in leave_message m₀ ≡ some msg)
      → (let m₁ = after (run byte_size d es₁ (after (run byte_size d es₀ (begin_leave m).0))) in
          OwnEntry
            (λ st. is_alive st.state && leb st.incarnation msg.incarnation)
            m₁
            (m₁.node_map m₁.config.name))
      → (let m₁ = after (run byte_size d es₁ (after (run byte_size d es₀ (begin_leave m).0))) in
          IsGone (after (run byte_size d es₂ (dead_node byte_size env msg m₁))))
  run-IsGone m es₀ es₁ es₂ env msg ok up stays e own =
      let h₀ =
        run-IsLeaving m.config es₀ (begin_leave m).0 (begin_leave-IsConsistent m ok)
          (begin_leave-starts m up stays) in
      let h₁ = run-IsLeaving m.config es₁ _ h₀.0 h₀.1 in
      never_back es₂ _ (good.dead env msg _ h₁.0) (
        dead_node-leaves byte_size d m.config env msg _ h₁.0 h₁.1
          (leave_message-names m.config msg _ h₀.0 h₀.1 e) own)
    where
      good : IsKept byte_size d (λ a. Unit) IsConsistent
      good = IsConsistent-kept byte_size d

  -- A consistent member that is not shut down, holds itself for alive and has no suspicion of itself
  -- pending calls `Leave` and reads its own entry;
  -- before `deadNode` of the message, a suspicion of itself comes that is not older than the entry.
  -- Short of a wrap of the incarnation, the suspicion is refuted, the dead message is then too old and
  -- changes nothing, and the member, which has left, still holds itself for alive.
  pub leave-overtaken :
      (m : Member) (env env' : Env) (s : Suspect) (msg : Dead)
      → IsConsistent m
      → m.shutdown ≡ false
      → IsLocalAlive m
      → leave_message (begin_leave m).0 ≡ some msg
      → s.node ≡ m.config.name
      → m.node_timers m.config.name ≡ none
      → msg.incarnation ≤ s.incarnation
      → s.incarnation + 1 < u32_mod
      → m.incarnation + 1 < u32_mod
      → (let m₁ = after (suspect_node byte_size d env s (begin_leave m).0) in
          (dead_node byte_size env' msg m₁ ≡ m₁)
          × (m₁.leave ≡ true)
          × OwnEntry (λ st. is_alive st.state) m₁ (m₁.node_map m₁.config.name))
  unfolding begin_leave leave_message dead_node suspect_node confirm_suspicion mark_suspect
      broadcast_notify refute only_broadcast skip_incarnation next_incarnation store
  leave-overtaken m env env' s msg c up l e own none_yet new small room =
      ground (arith, c.keys m.config.name)
