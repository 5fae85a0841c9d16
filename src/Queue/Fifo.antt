-- ===== src/Queue/Fifo.antt =====
-- The calls that threads make on one queue, in the order in which they get its mutex.
use mathlib.Core.List.{append_assoc, append-nil}
use jansan.Common.{◌≡◌, refl, ap, sym, ◌∙◌, List, [], ◌∷◌, ◌++◌, Option, none, some, arith}
use jansan.Messages.{PfHolder}
use jansan.Queue.{ConcurrentQueue, push, try_pop, wait_and_pop}

pub data Call : Type 0 where
  pushes : PfHolder → Call
  pops : Call
  waits : PfHolder → Call

-- A call that must wait leaves the queue as it is.
abbrev after_wait : ConcurrentQueue → Option ConcurrentQueue → ConcurrentQueue
after_wait q none = q
after_wait q (some r) = r

unfoldable pub step : Call → ConcurrentQueue → ConcurrentQueue
unfolding push try_pop wait_and_pop
step (pushes d) q = push d q
step pops q = (try_pop q).1
step (waits d) q = after_wait q (wait_and_pop d q)

unfoldable pub run : List Call → ConcurrentQueue → ConcurrentQueue
run [] q = q
run (c ∷ cs) q = run cs (step c q)

abbrev first : List PfHolder → List PfHolder
first [] = []
first (d ∷ ds) = d ∷ []

-- What `try_pop` returns, where there was something to take.
abbrev handed_out : List PfHolder → PfHolder → List PfHolder
handed_out [] popped = []
handed_out (_ ∷ _) popped = popped ∷ []

-- What a call takes out of the queue, and what it puts in. What `try_pop` takes is what it returns;
-- what `wait_and_pop` takes is the front, which its caller does not get.
abbrev removed : Call → ConcurrentQueue → List PfHolder
removed (pushes d) q = []
removed pops q = handed_out q.the_queue (try_pop q).0
removed (waits d) q = first q.the_queue

abbrev added : Call → List PfHolder
added (pushes d) = d ∷ []
added pops = []
added (waits d) = []

pub taken : List Call → ConcurrentQueue → List PfHolder
taken [] q = []
taken (c ∷ cs) q = removed c q ++ taken cs (step c q)

pub given : List Call → List PfHolder
given [] = []
given (c ∷ cs) = added c ++ given cs

step-order :
    (c : Call) (q : ConcurrentQueue) → removed c q ++ (step c q).the_queue ≡ q.the_queue ++ added c
unfolding step try_pop
step-order (pushes d) q = refl
step-order pops q = popped q.the_queue q refl
  where
    popped :
        (xs : List PfHolder) (q : ConcurrentQueue)
        → q.the_queue ≡ xs
        → removed pops q ++ (step pops q).the_queue ≡ q.the_queue ++ []
    popped [] q e = rw append-nil (ground arith)
    popped (x ∷ xs) q e = rw append-nil (ground arith)
step-order (waits d) q = popped q.the_queue q refl
  where
    popped :
        (xs : List PfHolder) (q : ConcurrentQueue)
        → q.the_queue ≡ xs
        → first q.the_queue ++ (step (waits d) q).the_queue ≡ q.the_queue ++ []
    popped [] q e = rw append-nil (ground arith)
    popped (x ∷ xs) q e = rw append-nil (ground arith)

-- In any run of calls, what leaves the queue, followed by what is left in it, is what was in it,
-- followed by what was pushed, in that order: none is lost in the queue, made up or overtaken. What
-- leaves with a `try_pop` on a queue that is not empty is what this call returns; what leaves with a
-- `wait_and_pop` is the front of the queue.
pub taken-run :
    (cs : List Call) (q : ConcurrentQueue)
    → taken cs q ++ (run cs q).the_queue ≡ q.the_queue ++ given cs
unfolding taken run given
taken-run [] q = sym (append-nil q.the_queue)
taken-run (c ∷ cs) q =
    append_assoc (removed c q) (taken cs (step c q)) (run cs (step c q)).the_queue
    ∙ ap (◌++◌ (removed c q)) (taken-run cs (step c q))
    ∙ sym (append_assoc (removed c q) (step c q).the_queue (given cs))
    ∙ ap (λ xs. xs ++ given cs) (step-order c q)
    ∙ append_assoc q.the_queue (added c) (given cs)
