-- ===== src/Session.antt =====
-- TapSignOn::SendToExchange of OrderServer-20151216-AtHome/src/TapSignOn.cpp: one round of the loop
-- that takes orders out of the two queues and sends them while the exchange invites packets. The
-- md5 sums (`md5CheckSum` of Packets.cpp, over the library of include/md5.h) and the socket are not
-- modelled: a sum is a parameter, and `sent` is what the round gives to the socket.
pub mod Holder
pub mod Rounds
pub mod Priority
pub mod Drain
pub mod LogOn
pub mod Answers
pub mod Tests
use jansan.Common.{
  ℕ, zero, suc, Bool, List, [], ◌∷◌, ◌++◌, ◌||◌, ◌&&◌, ℤ, pos, ◌=?ℤ◌, ltb_ℤ, if◌then◌else◌,
}
use jansan.Common.Words.{◌+i◌, ◌-i◌, ntohl}
use jansan.Messages.{PfHolder, OeRequestTr, OmRequestTr}
use jansan.Queue.{ConcurrentQueue, FillData, size, try_pop, bid_queue, mkt_queue}

-- `pkt.SeqNo`, `pkt.InvitationCount`, `_QueueHolder`, and the local `_out`, which a round leaves to
-- the next.
pub record Session : Type 0 where
  pub seq_no : ℤ
  pub invitation_count : ℤ
  pub queue_holder : List PfHolder
  pub out : PfHolder
  pub fill : FillData

pub data Sent : Type 0 where
  sent_oe : OeRequestTr → Sent
  sent_om : OmRequestTr → Sent

-- 'O'
abbrev pub code_o : ℕ
code_o = 79

abbrev pub may_send : Session → Bool
may_send s =
    ltb_ℤ (pos 0) s.invitation_count
    && (ltb_ℤ (pos 0) (size s.fill.bid) || ltb_ℤ (pos 0) (size s.fill.mkt))

-- The market orders go first.
unfoldable pub pop_next : Session → Session
pop_next s =
    if ltb_ℤ (pos 0) (size s.fill.mkt)
    then record s {
      out = (try_pop s.fill.mkt).0;
      fill = record s.fill { mkt = (try_pop s.fill.mkt).1 };
    }
    else if ltb_ℤ (pos 0) (size s.fill.bid)
    then record s {
      out = (try_pop s.fill.bid).0;
      fill = record s.fill { bid = (try_pop s.fill.bid).1 };
    }
    else s

-- case 15000 of BindConnection.
unfoldable pub invite : Session → Session
invite s = record s { invitation_count = s.invitation_count +i pos 1 }

pub data Event : Type 0 where
  turns : Event
  invites : Event
  pushes_bid : PfHolder → Event
  pushes_mkt : PfHolder → Event

module _ (sum_oe : OeRequestTr → List ℕ) (sum_om : OmRequestTr → List ℕ) where
  abbrev pub numbered_oe : ℤ → OeRequestTr → OeRequestTr
  numbered_oe seq_no o =
      let obj = record o { sequence_number = ntohl seq_no; open_close = code_o } in
      record obj { check_sum = sum_oe obj }

  abbrev pub numbered_om : ℤ → OmRequestTr → OmRequestTr
  numbered_om seq_no o =
      let obj = record o { sequence_number = ntohl seq_no; open_close = code_o } in
      record obj { check_sum = sum_om obj }

  -- case 136: a new order, which is also noted in `_QueueHolder`.
  unfoldable pub send_oe : Session → Session × List Sent
  send_oe s =
      let seq = s.seq_no +i pos 1 in
      let pf = record s.out { oetr = numbered_oe seq s.out.oetr } in
      (
        record s {
          seq_no = seq;
          out = pf;
          invitation_count = s.invitation_count -i pos 1;
          queue_holder = s.queue_holder ++ (pf ∷ []);
        },
        sent_oe pf.oetr ∷ [],
      )

  -- case 164: a modification or a cancellation.
  unfoldable pub send_om : Session → Session × List Sent
  send_om s =
      let seq = s.seq_no +i pos 1 in
      let pf = record s.out { omtr = numbered_om seq s.out.omtr } in
      (
        record s { seq_no = seq; out = pf; invitation_count = s.invitation_count -i pos 1 },
        sent_om pf.omtr ∷ [],
      )

  unfoldable pub send_out : Session → Session × List Sent
  send_out s =
      if s.out.size =?ℤ pos 136
      then send_oe s
      else if s.out.size =?ℤ pos 164
      then send_om s
      else (s, [])

  unfoldable pub round : Session → Session × List Sent
  round s = if may_send s then send_out (pop_next s) else (s, [])

  -- What happens to a session, one thing after the other: a round of the loop, an invitation, and the
  -- orders that other threads push.
  unfoldable pub step : Event → Session → Session × List Sent
  step turns s = round s
  step invites s = (invite s, [])
  step (pushes_bid d) s = (record s { fill = bid_queue d s.fill }, [])
  step (pushes_mkt d) s = (record s { fill = mkt_queue d s.fill }, [])

  unfoldable pub run : List Event → Session → Session × List Sent
  run [] s = (s, [])
  run (e ∷ es) s = let first = step e s in let rest = run es first.0 in (rest.0, first.1 ++ rest.1)
