-- ===== src/Life/Laws.antt =====
-- What the constructor leaves.
use cpp_gossip.Config.{Config}
use cpp_gossip.Node.{Node}
