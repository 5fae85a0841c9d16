-- ===== src/Queue/Tests.antt =====
-- The queue of OrderServer-20151216-AtHome/include/StaticClass.h with two orders.
use jansan.Common.{◌≡◌, refl, arith, List, [], ◌∷◌, ◌++◌, length, pos}
use jansan.Messages.{PfHolder, zero_holder}
use jansan.Queue.{ConcurrentQueue, size}
use jansan.Queue.Fifo.{Call, pushes, pops, run, taken, given, taken-run}
use jansan.Queue.Count.{size-run}

abbrev first_order : PfHolder
first_order = record zero_holder { pf = pos 1 }

abbrev second_order : PfHolder
second_order = record zero_holder { pf = pos 2 }

abbrev calls : List Call
calls = pushes first_order ∷ pops ∷ pushes second_order ∷ pops ∷ pops ∷ []

abbrev two_orders : ConcurrentQueue
two_orders = record { the_queue = first_order ∷ second_order ∷ []; count = pos 2 }

taken-run_example :
    taken calls two_orders ++ (run calls two_orders).the_queue ≡ two_orders.the_queue ++ given calls
taken-run_example = taken-run calls two_orders

size-run_example : size (run calls two_orders) ≡ pos (length (run calls two_orders).the_queue)
size-run_example = size-run calls two_orders tt (omega arith) refl
