-- ===== src/Session/Priority.antt =====
-- Which order a round of TapSignOn::SendToExchange sends
-- (OrderServer-20151216-AtHome/src/TapSignOn.cpp).
use jansan.Common.{
  ℕ, ◌≡◌, refl, ◌∙◌, ap, arith, Bool, true, false, List, [], ◌∷◌, ◌++◌, ℤ, pos, ltb_ℤ, ◌||◌,
  if◌then◌else◌,
}
use jansan.Common.Words.{◌+i◌, ◌-i◌}
use jansan.Messages.{PfHolder, OeRequestTr, OmRequestTr}
use jansan.Queue.{ConcurrentQueue, size, try_pop}
use jansan.Queue.Count.{IsCounted}
use jansan.Session.{Session, sent_oe, may_send, pop_next, send_oe, send_out, round, numbered_oe}

counted_pos :
    (q : ConcurrentQueue) (d : PfHolder) (ds : List PfHolder)
    → q.the_queue ≡ d ∷ ds
    → IsCounted q
    → ltb_ℤ (pos 0) (size q) ≡ true
unfolding size
counted_pos q d ds e c = ground arith

or_true : (b : Bool) → (b || true) ≡ true
or_true true = refl
or_true false = refl

try_pop_first :
    (q : ConcurrentQueue) (d : PfHolder) (ds : List PfHolder)
    → q.the_queue ≡ d ∷ ds
    → try_pop q ≡ (d, record { the_queue = ds; count = q.count -i pos 1 })
unfolding try_pop
try_pop_first q d ds e = rw e refl

-- The session after a market order has left its queue.
popped : Session → PfHolder → List PfHolder → Session
popped s d ds = record s {
  out = d;
  fill = record s.fill { mkt = record { the_queue = ds; count = s.fill.mkt.count -i pos 1 } };
}

pop_next_market :
    (s : Session) (d : PfHolder) (ds : List PfHolder)
    → s.fill.mkt.the_queue ≡ d ∷ ds
    → IsCounted s.fill.mkt
    → pop_next s ≡ popped s d ds
unfolding pop_next popped
pop_next_market s d ds e c =
    simp (counted_pos s.fill.mkt d ds e c, try_pop_first s.fill.mkt d ds e, pop_next)

may_send_market :
    (s : Session) (d : PfHolder) (ds : List PfHolder)
    → ltb_ℤ (pos 0) s.invitation_count ≡ true
    → s.fill.mkt.the_queue ≡ d ∷ ds
    → IsCounted s.fill.mkt
    → may_send s ≡ true
may_send_market s d ds invited e c =
    rw (invited, counted_pos s.fill.mkt d ds e c) (or_true (ltb_ℤ (pos 0) (size s.fill.bid)))

module _ (sum_oe : OeRequestTr → List ℕ) (sum_om : OmRequestTr → List ℕ) where
  -- The holder of an order that went out under a number.
  abbrev pub gone : ℤ → PfHolder → PfHolder
  gone seq d = record d { oetr = numbered_oe sum_oe sum_om seq d.oetr }

  round-popped :
      (s : Session) (d : PfHolder) (ds : List PfHolder)
      → ltb_ℤ (pos 0) s.invitation_count ≡ true
      → s.fill.mkt.the_queue ≡ d ∷ ds
      → IsCounted s.fill.mkt
      → d.size ≡ pos 136
      → round sum_oe sum_om s ≡ send_oe sum_oe sum_om (popped s d ds)
  unfolding round send_out popped
  round-popped s d ds invited e c oe =
      ap (λ b. if b then send_out sum_oe sum_om (pop_next s) else (s, []))
        (may_send_market s d ds invited e c)
      ∙ ap (send_out sum_oe sum_om) (pop_next_market s d ds e c)
      ∙ rw (oe, send_out) refl

  -- While the exchange invites a packet, the oldest market order goes out before any order of leg 1,
  -- under the next sequence number; it leaves its queue and is noted in `_QueueHolder`.
  pub round_market :
      (s : Session) (d : PfHolder) (ds : List PfHolder)
      → ltb_ℤ (pos 0) s.invitation_count ≡ true
      → s.fill.mkt.the_queue ≡ d ∷ ds
      → IsCounted s.fill.mkt
      → d.size ≡ pos 136
      → let r = round sum_oe sum_om s in
        (r.1 ≡ sent_oe (numbered_oe sum_oe sum_om (s.seq_no +i pos 1) d.oetr) ∷ [])
        × (r.0.fill.mkt.the_queue ≡ ds)
        × (r.0.fill.bid ≡ s.fill.bid)
        × (r.0.queue_holder ≡ s.queue_holder ++ gone (s.seq_no +i pos 1) d ∷ [])
  unfolding send_oe popped
  round_market s d ds invited e c oe =
      rw (round-popped s d ds invited e c oe) (refl, refl, refl, refl)
