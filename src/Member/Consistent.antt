-- ===== src/Member/Consistent.antt =====
-- The invariant of the tables, for every history of a member.
use cpp_gossip.Base.{ℕ, refl, Bool, true, List, [], ◌∷◌, arith, All}
use cpp_gossip.Config.{Config}
use cpp_gossip.Double.{Double}
use cpp_gossip.Message.{Broadcast, Dead}
use cpp_gossip.Member.{Member, after, Env, new_member}
use cpp_gossip.Member.Handlers.{dead_node}
use cpp_gossip.Member.Invariant.{KeysOk, alive_node-KeysOk, dead_node-KeysOk, suspect_node-KeysOk}
use cpp_gossip.Member.Objects.{
  ObjectsOk, alive_node-ObjectsOk, dead_node-ObjectsOk, suspect_node-ObjectsOk,
}
use cpp_gossip.Member.Local.{begin_leave}
use cpp_gossip.Member.Run.{Hears-Unit, Event, IsKept, run, run-kept}

pub record IsConsistent (m : Member) : Type 0 where
  pub keys : KeysOk m
  pub objects : ObjectsOk m

-- The counter and the flag are no part of the invariant.
pub flags-IsConsistent :
    (m : Member) (inc : ℕ) (left : Bool)
    → IsConsistent m
    → IsConsistent (record m { incarnation = inc; leave = left })
flags-IsConsistent m inc left c = record {
  keys = λ k. c.keys k;
  objects = record {
    named = c.objects.named;
    once = c.objects.once;
    listed = c.objects.listed;
    counted = c.objects.counted;
  };
}

pub begin_leave-IsConsistent : (m : Member) → IsConsistent m → IsConsistent (begin_leave m).0
unfolding begin_leave
begin_leave-IsConsistent m c = ground (arith, c, flags-IsConsistent m m.incarnation true c)

module _ (byte_size : Broadcast → ℕ) where
  dead_node-IsConsistent :
      (env : Env) (msg : Dead) (m : Member)
      → IsConsistent m
      → IsConsistent (dead_node byte_size env msg m)
  dead_node-IsConsistent env msg m c = record {
    keys = dead_node-KeysOk byte_size env msg m c.keys;
    objects = dead_node-ObjectsOk byte_size env msg m c.objects;
  }

  module _ (d : Double) where
    pub IsConsistent-kept : IsKept byte_size d (λ a. Unit) IsConsistent
    IsConsistent-kept = record {
      alive = λ env a boot fd m g c. record {
        keys = alive_node-KeysOk byte_size env a boot fd m c.keys;
        objects = alive_node-ObjectsOk byte_size env a boot fd m c.objects;
      };
      dead = dead_node-IsConsistent;
      suspect = λ env s m c. record {
        keys = suspect_node-KeysOk byte_size env d s m c.keys;
        objects = suspect_node-ObjectsOk byte_size env d s m c.objects;
      };
      counter = λ m inc c. flags-IsConsistent m inc m.leave c;
    }

    pub All-Unit : (es : List (Env × Event)) → All (λ x. Unit {0}) es
    All-Unit [] = tt
    All-Unit (e ∷ es) = (tt, All-Unit es)

    pub run-IsConsistent :
        (es : List (Env × Event)) (m : Member)
        → IsConsistent m
        → IsConsistent (after (run byte_size d es m))
    run-IsConsistent es m =
        run-kept byte_size d (λ a. Unit) IsConsistent IsConsistent-kept (λ e. Unit {0})
          (λ e _. Hears-Unit e) (λ m _ c. begin_leave-IsConsistent m c) es m (All-Unit es)

pub new_member-IsConsistent : (c : Config) (fd : ℕ) → IsConsistent (new_member c fd)
unfolding new_member
new_member-IsConsistent c fd = record {
  keys = λ k. refl;
  objects = record {
    named = λ p h. absurd (omega arith);
    once = λ p. ground arith;
    listed = refl;
    counted = refl;
  };
}

-- After any sequence of received broadcasts, remote states, calls and expired suspicions, from a new
-- member on, and also where a call blocks or crashes: each name leads to an object of that name and
-- each object to itself; a node is suspect exactly if it has a suspicion, which is about it and dates
-- from its last change; the local node is never suspect; `nodes` holds each object once and nothing
-- else; and `numNodes` is their number in 32 bits.
pub run-new-IsConsistent :
    (byte_size : Broadcast → ℕ) (d : Double) (c : Config) (fd : ℕ) (es : List (Env × Event))
    → IsConsistent (after (run byte_size d es (new_member c fd)))
run-new-IsConsistent byte_size d c fd es =
    run-IsConsistent byte_size d es _ (new_member-IsConsistent c fd)
