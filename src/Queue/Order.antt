-- ===== src/Queue/Order.antt =====
-- The elements of the queue, `operator<` on them, and the `std::set` that it orders.
use cpp_gossip.Base.{ℕ, String, Bool, Option, none, List, [], ◌∷◌, ltb, ◌==◌, if◌then◌else◌}
use cpp_gossip.Message.{Broadcast, gen_alive_broadcast}

-- `notifyFd`, where `none` is -1.
pub record MemberlistBroadcast : Type 0 where
  pub node : String
  pub msg : Broadcast
  pub notify_fd : Option ℕ

pub record LimitedBroadcast : Type 0 where
  pub transmits : ℕ
  pub msg_len : ℕ
  pub id : ℕ
  pub b : MemberlistBroadcast

-- What stands in a search key, whose message `operator<` does not read.
abbrev pub no_broadcast : MemberlistBroadcast
no_broadcast = record { node = ""; msg = gen_alive_broadcast 0 "" "" 0; notify_fd = none }

-- `operator<`
abbrev pub before : LimitedBroadcast → LimitedBroadcast → Bool
before x y =
    if x.transmits == y.transmits
    then (if x.msg_len == y.msg_len then ltb y.id x.id else ltb y.msg_len x.msg_len)
    else ltb x.transmits y.transmits

-- `std::set::insert`: an element that is equivalent to a present one is not added.
unfoldable pub set_insert : LimitedBroadcast → List LimitedBroadcast → List LimitedBroadcast
set_insert x [] = x ∷ []
set_insert x (y ∷ ys) =
    if before x y then x ∷ y ∷ ys else if before y x then y ∷ set_insert x ys else y ∷ ys

-- `lower_bound` and `upper_bound`, as what is left of the set from there.
unfoldable pub lower_bound : LimitedBroadcast → List LimitedBroadcast → List LimitedBroadcast
lower_bound key [] = []
lower_bound key (y ∷ ys) = if before y key then lower_bound key ys else y ∷ ys

unfoldable pub upper_bound : LimitedBroadcast → List LimitedBroadcast → List LimitedBroadcast
upper_bound key [] = []
upper_bound key (y ∷ ys) = if before key y then y ∷ ys else upper_bound key ys
