-- ===== src/Session/Drain.antt =====
-- What TapSignOn::SendToExchange (OrderServer-20151216-AtHome/src/TapSignOn.cpp) does with the orders
-- that wait, once the exchange has invited enough packets.
use jansan.Common.{
  ℕ, suc, ◌+◌, ◌<◌, ◌^◌, ◌≡◌, refl, ◌∙◌, ap, arith, true, List, [], ◌∷◌, ◌++◌, map, length,
  length-append, All, ◌⊎◌, inl, inr, pos, ltb_ℤ, ◌=?ℤ◌, if◌then◌else◌,
}
use jansan.Common.Words.{◌-i◌}
use jansan.Messages.{PfHolder, OeRequestTr, OmRequestTr}
use jansan.Queue.{ConcurrentQueue, FillData, size, try_pop}
use jansan.Queue.Count.{ -i_one}
use jansan.Session.{
  Session, Sent, sent_oe, sent_om, may_send, pop_next, send_oe, send_om, send_out, round, run, step,
  Event, turns,
}

-- A queue of these orders, with its counter, and the two queues.
abbrev pub queue_of : List PfHolder → ConcurrentQueue
queue_of ds = record { the_queue = ds; count = pos (length ds) }

abbrev pub load : List PfHolder → List PfHolder → FillData
load mkt bid = record { bid = queue_of bid; mkt = queue_of mkt }

-- A message without the number, the sum and the code that the session gives it.
abbrev pub body : Sent → Sent
body (sent_oe o) = sent_oe (record o { sequence_number = pos 0; check_sum = []; open_close = 0 })
body (sent_om o) = sent_om (record o { sequence_number = pos 0; check_sum = []; open_close = 0 })

-- The message that a holder holds.
abbrev pub request : PfHolder → Sent
request d = if d.size =?ℤ pos 136 then body (sent_oe d.oetr) else body (sent_om d.omtr)

-- The two sizes that the session knows.
abbrev pub IsSendable : PfHolder → Type 0
IsSendable d = (d.size ≡ pos 136) ⊎ (d.size ≡ pos 164)

-- These orders wait, and n packets are invited.
abbrev pub Waits : List PfHolder → List PfHolder → ℕ → Session → Type 0
Waits mkt bid n s = (s.fill ≡ load mkt bid) × (s.invitation_count ≡ pos n)

one_less : (n : ℕ) → suc n < 2 ^ 31 → pos (suc n) -i pos 1 ≡ pos n
one_less n h = ap (λ x. pos x -i pos 1) (suc_one n) ∙ -i_one n (omega arith)
  where
    suc_one : (n : ℕ) → suc n ≡ n + 1
    suc_one n = omega arith

some_wait : (n : ℕ) → ltb_ℤ (pos 0) (pos (suc n)) ≡ true
some_wait n = ground arith

module _ (d : PfHolder) (ds : List PfHolder) (s : Session) where
  pop_next_mkt :
      (bid : List PfHolder)
      → suc (length ds) < 2 ^ 31
      → s.fill ≡ load (d ∷ ds) bid
      → pop_next s ≡ record s { out = d; fill = load ds bid }
  unfolding pop_next size try_pop
  pop_next_mkt bid small e = rw (e, some_wait (length ds), one_less (length ds) small) refl

  pop_next_bid :
      suc (length ds) < 2 ^ 31
      → s.fill ≡ load [] (d ∷ ds)
      → pop_next s ≡ record s { out = d; fill = load [] ds }
  unfolding pop_next size try_pop
  pop_next_bid small e = rw (e, some_wait (length ds), one_less (length ds) small) refl

may_send_some :
    (d : PfHolder) (ds mkt bid : List PfHolder) (n : ℕ) (s : Session)
    → ((mkt ≡ d ∷ ds) ⊎ (bid ≡ d ∷ ds))
    → Waits mkt bid (suc n) s
    → may_send s ≡ true
unfolding size
may_send_some d ds mkt bid n s some_order (f, i) = rw (f, i) (ground arith)

module _ (sum_oe : OeRequestTr → List ℕ) (sum_om : OmRequestTr → List ℕ) where
  -- One message, with the body that was asked for, for one invitation.
  abbrev Sent1 : List PfHolder → List PfHolder → ℕ → PfHolder → Session × List Sent → Type 0
  Sent1 mkt bid n d r = (map body r.1 ≡ request d ∷ []) × Waits mkt bid n r.0

  send_out-Sent1 :
      (mkt bid : List PfHolder) (n : ℕ) (d : PfHolder) (s : Session)
      → suc n < 2 ^ 31
      → IsSendable d
      → s.out ≡ d
      → Waits mkt bid (suc n) s
      → Sent1 mkt bid n d (send_out sum_oe sum_om s)
  unfolding send_out send_oe send_om
  send_out-Sent1 mkt bid n d s small (inl oe) out (f, i) =
      rw (out, oe) (refl, (f, ap (λ x. x -i pos 1) i ∙ one_less n small))
  send_out-Sent1 mkt bid n d s small (inr om) out (f, i) =
      rw (out, om) (refl, (f, ap (λ x. x -i pos 1) i ∙ one_less n small))

  round-Sent1 :
      (mkt bid : List PfHolder) (n : ℕ) (d : PfHolder) (s : Session)
      → suc n < 2 ^ 31
      → IsSendable d
      → may_send s ≡ true
      → pop_next s ≡ record s { out = d; fill = load mkt bid }
      → s.invitation_count ≡ pos (suc n)
      → Sent1 mkt bid n d (round sum_oe sum_om s)
  unfolding round
  round-Sent1 mkt bid n d s small ok may popped i =
      rw (may, popped)
        (send_out-Sent1 mkt bid n d (record s { out = d; fill = load mkt bid }) small ok refl
          (refl, i))

  abbrev pub turns_for : List PfHolder → List Event
  turns_for [] = []
  turns_for (d ∷ ds) = turns ∷ turns_for ds

  -- All that waits is sent: `ds` are the orders that are left.
  abbrev pub Drained : ℕ → List PfHolder → Session × List Sent → Type 0
  Drained n ds r = (map body r.1 ≡ map request ds) × Waits [] [] n r.0

  map-append : (xs ys : List Sent) → map body (xs ++ ys) ≡ map body xs ++ map body ys
  map-append [] ys = refl
  map-append (x ∷ xs) ys = ap (◌∷◌ (body x)) (map-append xs ys)

  and_then :
      (n : ℕ) (d : PfHolder) (ds : List PfHolder) (r t : Session × List Sent)
      → map body r.1 ≡ request d ∷ []
      → Drained n ds t
      → Drained n (d ∷ ds) (t.0, r.1 ++ t.1)
  and_then n d ds r t one (rest, w) =
      (map-append r.1 t.1 ∙ ap (λ x. x ++ map body t.1) one ∙ ap (◌∷◌ (request d)) rest, w)

  drain_bid :
      (bid : List PfHolder) (n : ℕ) (s : Session)
      → length bid + n < 2 ^ 31
      → All IsSendable bid
      → Waits [] bid (length bid + n) s
      → Drained n bid (run sum_oe sum_om (turns_for bid) s)
  unfolding run step
  drain_bid [] n s small ok (f, i) = (refl, (f, i ∙ ap pos (omega arith)))
  drain_bid (d ∷ bid) n s small (ok, oks) (f, i) =
      let i' : s.invitation_count ≡ pos (suc (length bid + n)) = i ∙ ap pos (omega arith) in
      let first =
        round-Sent1 [] bid (length bid + n) d s (omega arith) ok
          (may_send_some d bid [] (d ∷ bid) (length bid + n) s (inr refl) (f, i'))
          (pop_next_bid d bid s (omega arith) f) i' in
      and_then n d bid (round sum_oe sum_om s)
        (run sum_oe sum_om (turns_for bid) (round sum_oe sum_om s).0) first.0
        (drain_bid bid n (round sum_oe sum_om s).0 (omega arith) oks first.1)

  -- Once the exchange has invited as many packets as orders wait, as many rounds of the loop send
  -- every order that waits, each once, the market orders first and each queue in its order; both
  -- queues are then empty, and the invitations that were left over stay.
  pub run-Drained :
      (mkt bid : List PfHolder) (n : ℕ) (s : Session)
      → length (mkt ++ bid) + n < 2 ^ 31
      → All IsSendable mkt
      → All IsSendable bid
      → Waits mkt bid (length (mkt ++ bid) + n) s
      → Drained n (mkt ++ bid) (run sum_oe sum_om (turns_for (mkt ++ bid)) s)
  unfolding run step
  run-Drained [] bid n s small ok_m ok w = drain_bid bid n s small ok w
  run-Drained (d ∷ mkt) bid n s small (ok, oks) ok_b (f, i) =
      let left : ℕ = length (mkt ++ bid) + n in
      let i' : s.invitation_count ≡ pos (suc left) = i ∙ ap pos (omega arith) in
      let first =
        round-Sent1 mkt bid left d s (omega arith) ok
          (may_send_some d mkt (d ∷ mkt) bid left s (inl refl) (f, i'))
          (pop_next_mkt d mkt s bid (omega (arith, length-append mkt bid)) f) i' in
      and_then n d (mkt ++ bid) (round sum_oe sum_om s)
        (run sum_oe sum_om (turns_for (mkt ++ bid)) (round sum_oe sum_om s).0) first.0
        (run-Drained mkt bid n (round sum_oe sum_om s).0 (omega arith) oks ok_b first.1)
