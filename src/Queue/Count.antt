-- ===== src/Queue/Count.antt =====
-- `_count` against the length of the queue.
use jansan.Common.{
  ℕ, suc, ◌+◌, ◌<◌, ◌≤◌, ◌^◌, ◌≡◌, refl, List, [], ◌∷◌, some, length, length-append, pos, arith,
}
use jansan.Common.Words.{◌+i◌, ◌-i◌}
use jansan.Messages.{PfHolder}
use jansan.Queue.{ConcurrentQueue, push, try_pop, size, wait_and_pop}
use jansan.Queue.Fifo.{Call, pushes, pops, waits, step, run}

-- The counter is the number of orders in the queue.
abbrev pub IsCounted : ConcurrentQueue → Type 0
IsCounted q = q.count ≡ pos (length q.the_queue)

pub +i_one : (n : ℕ) → n + 1 < 2 ^ 31 → pos n +i pos 1 ≡ pos (n + 1)
unfolding ◌+i◌
+i_one n h = ground arith

pub -i_one : (n : ℕ) → n + 1 < 2 ^ 31 → pos (n + 1) -i pos 1 ≡ pos n
unfolding ◌-i◌
-i_one n h = ground arith

push-IsCounted :
    (d : PfHolder) (q : ConcurrentQueue)
    → length q.the_queue + 1 < 2 ^ 31
    → IsCounted q
    → IsCounted (push d q)
unfolding push
push-IsCounted d q h c =
    rw c (ground (arith, +i_one (length q.the_queue), length-append q.the_queue (d ∷ [])))

try_pop-IsCounted :
    (xs : List PfHolder) (q : ConcurrentQueue)
    → q.the_queue ≡ xs
    → length q.the_queue < 2 ^ 31
    → IsCounted q
    → IsCounted (try_pop q).1
unfolding try_pop
try_pop-IsCounted [] q e h c = ground arith
try_pop-IsCounted (x ∷ xs) q e h c = ground (arith, -i_one (length xs))

-- The calls of `push`, `try_pop` and `size` alone, as the program makes them.
abbrev pub IsPlain : List Call → Type 0
IsPlain [] = Unit {0}
IsPlain (pushes d ∷ cs) = IsPlain cs
IsPlain (pops ∷ cs) = IsPlain cs
IsPlain (waits d ∷ cs) = ⊥

length-try_pop-le :
    (xs : List PfHolder) (q : ConcurrentQueue)
    → q.the_queue ≡ xs
    → length (try_pop q).1.the_queue ≤ length q.the_queue
unfolding try_pop
length-try_pop-le [] q e = ground arith
length-try_pop-le (x ∷ xs) q e = ground arith

-- As long as nobody calls `wait_and_pop` and fewer than 2 ^ 31 orders can be queued, `size` is the
-- number of orders in the queue after any run of calls.
pub size-run :
    (cs : List Call) (q : ConcurrentQueue)
    → IsPlain cs
    → length q.the_queue + length cs < 2 ^ 31
    → IsCounted q
    → size (run cs q) ≡ pos (length (run cs q).the_queue)
unfolding size run step
size-run [] q p h c = c
size-run (pushes d ∷ cs) q p h c =
    size-run cs (push d q) p (grow d q (length cs) h) (push-IsCounted d q (omega arith) c)
  where
    grow :
        (d : PfHolder) (q : ConcurrentQueue) (n : ℕ)
        → length q.the_queue + suc n < 2 ^ 31
        → length (push d q).the_queue + n < 2 ^ 31
    grow d q n h = omega (arith, length-append q.the_queue (d ∷ []))
size-run (pops ∷ cs) q p h c =
    size-run cs (try_pop q).1 p (omega (arith, length-try_pop-le q.the_queue q refl))
      (try_pop-IsCounted q.the_queue q refl (omega arith) c)
size-run (waits d ∷ cs) q p h c = absurd p

-- `wait_and_pop` forgets the counter: from a correct and not empty queue it leaves a queue with one
-- order less than `size` says.
wait_and_pop_miscounts :
    (d x : PfHolder) (q : ConcurrentQueue) (xs : List PfHolder)
    → q.the_queue ≡ x ∷ xs
    → IsCounted q
    → (r : ConcurrentQueue) × (wait_and_pop d q ≡ some r) × (size r ≡ pos (length r.the_queue + 1))
unfolding wait_and_pop size
wait_and_pop_miscounts d x q xs e c = (record q { the_queue = xs }, ground arith, ground arith)
