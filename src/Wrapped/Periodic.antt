-- ===== src/Wrapped/Periodic.antt =====
-- `pushPull` of src/memberlist/state.cpp: the exchange of states that a timer starts. The tables are
-- those when `sendLocalState` reads them, and those when the answer is merged.
use cpp_gossip.Base.{ℕ, String, Bool, false, Option, none, some, List, [], ◌∷◌}
use cpp_gossip.Double.{Double}
use cpp_gossip.Node.{NodeState}
use cpp_gossip.Message.{Broadcast, MessageData, PushPull, PushNodeState}
use cpp_gossip.Handoff.{SockAddr}
use cpp_gossip.Acks.{full_addr}
use cpp_gossip.Sample.{k_random_nodes, not_other_alive}
use cpp_gossip.Member.{Member, Outcome, done, after, Env}
use cpp_gossip.Member.Local.{local_state, merge_remote_state}
use cpp_gossip.Member.Merge.{NotDead}
use cpp_gossip.Wrapped.{System, Result, Io, returned, thrown, corrupted, aborted}
use cpp_gossip.Wrapped.Stream.{send_and_receive_state}

module _ (byte_size : Broadcast → ℕ) (d : Double)
    (read : PushPull → List (Env × PushNodeState)) where
  -- The answer, merged; `catch (wrapException)` leaves the tables as they are.
  abbrev pub merged : Member → Result (Option PushPull) → Result Outcome
  merged m (returned none) = returned (done m)
  merged m (returned (some p)) = returned (merge_remote_state byte_size d (read p) m)
  merged m (thrown e) = returned (done m)
  merged m corrupted = corrupted
  merged m aborted = aborted

  module _ (sys : System) (serialize : MessageData → List ℕ) (parse : List ℕ → MessageData × Bool)
      (inet_pton : String → Option ℕ) (htons : ℕ → ℕ) where
    abbrev pub exchange_with : Member → Member → Option SockAddr → Io Outcome
    exchange_with m m' none h = (aborted, h)
    exchange_with m m' (some a) h =
        let (r, h') =
          send_and_receive_state sys serialize parse a m.config.tcp_timeout (local_state false m)
            h in
        (merged m' r, h')

    abbrev pub push_pull_with : Member → Member → List NodeState → Io Outcome
    push_pull_with m m' [] h = (returned (done m'), h)
    push_pull_with m m' (v ∷ vs) h = exchange_with m m' (full_addr inet_pton htons v.n) h

    unfoldable pub push_pull : (ℕ → ℕ) → List NodeState → Member → Member → Io Outcome
    push_pull rand nodes m m' =
        push_pull_with m m' (k_random_nodes 1 nodes (not_other_alive m.config) rand)

    -- No exception leaves the call, and a node that is known and not dead is not dead after it.
    abbrev pub IsCalm : ℕ → Result Outcome → Type 0
    IsCalm p (returned o) = NotDead p (after o)
    IsCalm p (thrown e) = ⊥
    IsCalm p corrupted = Unit
    IsCalm p aborted = Unit
