-- ===== src/Session/Tests.antt =====
-- TapSignOn::SendToExchange of OrderServer-20151216-AtHome with one order in each queue.
use jansan.Common.{map, ◌+◌, ℕ, ◌≡◌, refl, arith, List, [], ◌∷◌, ◌++◌, pos, inl, inr}
use jansan.Common.Words.{ntohl, ◌+i◌}
use jansan.Messages.{PfHolder, OeRequestTr, OmRequestTr, zero_holder}
use jansan.Session.{
  Session, sent_oe, numbered_oe, round, send_oe, Event, turns, invites, pushes_mkt, run,
}
use jansan.Session.Holder.{Wanted, get_pf}
use jansan.Session.Holder.Found.{answered, answer_to, get_pf-send_oe}
use jansan.Session.Drain.{Drained, turns_for, run-Drained}
use jansan.Session.LogOn.{Member, Link, Received, invitation, other_code, run_received}
use jansan.Session.LogOn.Started.{number_of, log_on-Sends}
use jansan.Session.Rounds.{invited, Sends, run-Sends}
use jansan.Session.Priority.{gone, round_market}

abbrev sum_oe : OeRequestTr → List ℕ
sum_oe o = []

abbrev sum_om : OmRequestTr → List ℕ
sum_om o = []

abbrev hedge : PfHolder
hedge = record zero_holder { pf = pos 7; size = pos 136 }

abbrev session : Session
session = record {
  seq_no = pos 2;
  invitation_count = pos 5;
  queue_holder = [];
  out = zero_holder;
  fill = record {
    bid = record { the_queue = record hedge { size = pos 164 } ∷ []; count = pos 1 };
    mkt = record { the_queue = hedge ∷ []; count = pos 1 };
  };
}

abbrev events : List Event
events = turns ∷ invites ∷ pushes_mkt hedge ∷ turns ∷ turns ∷ []

run-Sends_example : Sends 2 6 (run sum_oe sum_om events session)
run-Sends_example = run-Sends sum_oe sum_om events 2 5 session (omega arith) (refl, refl)

round_market_example :
    ((round sum_oe sum_om session).1
      ≡ sent_oe (numbered_oe sum_oe sum_om (pos 2 +i pos 1) hedge.oetr) ∷ [])
    × ((round sum_oe sum_om session).0.fill.mkt.the_queue ≡ [])
    × ((round sum_oe sum_om session).0.fill.bid ≡ session.fill.bid)
    × ((round sum_oe sum_om session).0.queue_holder
        ≡ [] ++ gone sum_oe sum_om (pos 2 +i pos 1) hedge ∷ [])
round_market_example = round_market sum_oe sum_om session hedge [] refl refl refl refl

abbrev wanted : Wanted
wanted = answer_to hedge.oetr

abbrev other : PfHolder
other = record hedge { pf = pos 9; oetr = record hedge.oetr { price = pos 100 } }

abbrev sending : Session
sending = record session { out = hedge; queue_holder = other ∷ [] }

get_pf-send_oe_example :
    get_pf wanted (pos 1000001) (pos 3) (send_oe sum_oe sum_om sending).0.queue_holder ≡ (
      answered
          (pos 1000001)
          (pos 3)
          (record hedge { oetr = numbered_oe sum_oe sum_om (pos 2 +i pos 1) hedge.oetr }),
      other ∷ [],
    )
get_pf-send_oe_example = get_pf-send_oe sum_oe sum_om (pos 1000001) (pos 3) sending (refl, tt)

run-Drained_example : Drained sum_oe sum_om 3 (hedge ∷ record hedge { size = pos 164 } ∷ []) (
    run sum_oe sum_om
      (turns_for sum_oe sum_om (hedge ∷ record hedge { size = pos 164 } ∷ []))
      session)
run-Drained_example =
    run-Drained sum_oe sum_om (hedge ∷ []) (record hedge { size = pos 164 } ∷ []) 3 session
      (omega arith) (inl refl, tt) (inr refl, tt) (refl, refl)

abbrev member : Member
member = record { password = []; broker_id = []; ws_class_name = []; broker_name = [] }

abbrev link : Link
link = record {
  session = record session { seq_no = pos 0; invitation_count = pos 0 };
  counter = pos 0;
  last_seq = pos 0;
}

abbrev received : List Received
received = invitation ∷ other_code ∷ invitation ∷ invitation ∷ []

log_on-Sends_example :
    (map number_of (run_received member (λ p. []) (λ p. []) received link).1
      ≡ ntohl (pos 1) ∷ ntohl (pos 2) ∷ [])
    × Sends 2
        (1 + invited events)
        (run sum_oe sum_om events (run_received member (λ p. []) (λ p. []) received link).0.session)
log_on-Sends_example =
    log_on-Sends member (λ p. []) (λ p. []) sum_oe sum_om invitation other_code
      (invitation ∷ invitation ∷ []) events link refl refl (omega arith) 1 refl
