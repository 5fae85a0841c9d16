-- ===== src/Queue.antt =====
-- OrderServer-20151216-AtHome/include/StaticClass.h: `concurrent_queue`, and `FillData` over the two
-- queues of orders on their way to the exchange. Each method holds the queue's mutex from its first
-- line to its last access, so a run of several threads is a sequence of the calls below.
pub mod Fifo
pub mod Count
pub mod Hash
pub mod Tests
use jansan.Common.{ℕ, ◌+◌, ◌≡◌, Option, none, some, List, [], ◌∷◌, ◌++◌, ℤ, pos, negsuc, arith}
use jansan.Common.Words.{◌+i◌, ◌-i◌}
use jansan.Messages.{PfHolder, zero_holder}

pub record ConcurrentQueue : Type 0 where
  pub the_queue : List PfHolder
  pub count : ℤ

unfoldable pub create : ConcurrentQueue
create = record { the_queue = []; count = pos 0 }

unfoldable pub push : PfHolder → ConcurrentQueue → ConcurrentQueue
push d q = record { the_queue = q.the_queue ++ (d ∷ []); count = q.count +i pos 1 }

unfoldable pub size : ConcurrentQueue → ℤ
size q = q.count

-- The holder that `try_pop` returns from an empty queue.
abbrev pub nothing_queued : PfHolder
nothing_queued = record zero_holder { pf = negsuc 0 }

-- The new queue and the popped value.
unfoldable pub try_pop : ConcurrentQueue → PfHolder × ConcurrentQueue
try_pop q = elim q.the_queue [
  | [] ↦ (nothing_queued, q)
  | d ∷ rest ↦ (d, record { the_queue = rest; count = q.count -i pos 1 })
]

-- `none` while the call waits. The parameter is taken by value, so the caller gets nothing.
unfoldable pub wait_and_pop : PfHolder → ConcurrentQueue → Option ConcurrentQueue
wait_and_pop popped q = elim q.the_queue [
  | [] ↦ none
  | d ∷ rest ↦ some (record q { the_queue = rest })
]

-- The two global queues.
pub record FillData : Type 0 where
  pub bid : ConcurrentQueue
  pub mkt : ConcurrentQueue

unfoldable pub bid_queue : PfHolder → FillData → FillData
unfolding push
bid_queue d f = record f { bid = push d f.bid }

unfoldable pub mkt_queue : PfHolder → FillData → FillData
unfolding push
mkt_queue d f = record f { mkt = push d f.mkt }
