-- ===== src/Tests.antt =====
-- Two members and what they hear, as data for the tests. Each theorem on the program is applied in one
-- of the children.
pub mod Members
pub mod Probes
pub mod Queues
pub mod Sockets
pub mod Tables
pub mod Threads
pub mod Timing
pub mod Wire
use cpp_gossip.Base.{ℕ, ◌+◌, ◌-◌, ◌*◌, ◌/◌, false, none, List, [], ◌∷◌, string_discrete, ℕ_discrete}
use cpp_gossip.Base.Int.{pos, pos_part}
use cpp_gossip.Double.{Double}
use cpp_gossip.Config.{Config, debug_config, default_port}
use cpp_gossip.Message.{Broadcast, Alive, Suspect, Dead}
use cpp_gossip.Member.{Member, after, Env, new_member}
use cpp_gossip.Member.Run.{Event, start, alive_received, suspect_received, run}

-- Whole numbers in place of `double`.
abbrev pub whole : Double
whole = record {
  F = ℕ;
  of_ℤ = pos_part;
  log = λ x. x;
  log10 = λ x. x;
  log2 = λ x. x;
  ceil = λ x. x;
  fmax = λ x y. x + (y - x);
  add = λ x y. x + y;
  sub = λ x y. x - y;
  mul = λ x y. x * y;
  div = λ x y. x / y;
  to_int64 = pos;
  to_uint32 = λ x. x;
}

-- Each broadcast has eight bytes.
abbrev pub eight : Broadcast → ℕ
eight b = 8

abbrev pub env : Env
env = record { checked_at = 100; changed_at = 101; random = 0; unset = 0 }

abbrev pub alive_b : Alive
alive_b = record { incarnation = 1; node = "b"; addr = "127.0.0.1"; port = default_port }

abbrev pub suspect_b : Suspect
suspect_b = record { incarnation = 1; node = "b"; from = "c" }

abbrev pub dead_b : Dead
dead_b = record { incarnation = 1; node = "b"; from = "c" }

abbrev pub suspect_a : Suspect
suspect_a = record { incarnation = 1; node = "a"; from = "c" }

abbrev pub history : List (Env × Event)
history = (env, start) ∷ (env, alive_received alive_b) ∷ []

-- The member `a`, which knows itself and `b`; `a` once `c` suspects `b`; and `b` by itself.
abbrev pub config_a : Config
config_a = debug_config "a"

abbrev pub config_b : Config
config_b = debug_config "b"

abbrev pub pair : Member
pair = after (run eight whole history (new_member config_a 7))

abbrev pub suspecting : Member
suspecting = after (
    run eight whole
      ((env, start) ∷ (env, alive_received alive_b) ∷ (env, suspect_received suspect_b) ∷ [])
      (new_member config_a 7))

abbrev pub alone : Member
alone = after (run eight whole ((env, start) ∷ []) (new_member config_b 7))
