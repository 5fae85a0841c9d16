-- ===== src/Client/Tests.antt =====
-- AutoClient of OrderServer-20151216-AtHome with one client.
use jansan.Common.{ℤ, ◌=?ℤ◌, ◌==◌, ◌≡◌, refl, arith, false, none, some, [], ◌∷◌, pos}
use jansan.Common.Maps.{lookup, assign, remove}
use jansan.Common.Words.{htons, htonl}
use jansan.Messages.{buy, zero_om, zero_oe, OeRequest}
use jansan.Tag.{subscription_tag}
use jansan.Strategy.Sample.{pair, far_price, fill_of_two, placed, acceptance}
use jansan.Strategy.{World}
use jansan.Strategy.Confirm.{order_mod_rej_out, order_confirmation_tr}
use jansan.Strategy.Events.{step}
use jansan.Strategy.Events as Events
use jansan.Strategy.Subscribe.{on_subscription, on_un_subscription}
use jansan.Client.{AutoClient, Node}
use jansan.Client.Orphan.{handle_un_subscription_orphans}
use jansan.Client.Sample.{hub, hub-IsHub, machine, no_strategy, client}
use jansan.Client.Tags.{decode, hears}
use jansan.Client.Tags.Decode.{address, decode-subscription_tag, decode_four_digits}
use jansan.Client.Tags.Filter.{hears-subscription_tag}
use jansan.Client.Prices.{deliver, call_slots, entry_at}
use jansan.Client.Pairs.{
  handle_subscription, handle_un_subscription, wire, open_portfolio, subscribe_token_on_false,
  set_symbols, fresh_node, with_packs,
}
use jansan.Client.Reports.{Report, confirmation, trade_confirmation, mod_rej, on_report}
use jansan.Client.Reports.Steps.{Moves, world_of, on_report-Moves, on_report_stops}
use jansan.Client.Manual.{manual_order_entry, manual_order_mod_cncl_entry}
use jansan.Client.Stop.{dispose}
use jansan.Client.Life.{subscribes, orders, live, act}
use jansan.Client.Life.Calls.{replay}
use jansan.Client.Life.Unnoted.{IsUnnoted, live-Ignores}
use jansan.Client.Life.Subscribed.{IsKept}
use jansan.Client.Life.Silent.{calls_at, dispose-Silent}
use jansan.Client.Life.Reached.{AreNew, live-deliver}

decode-subscription_tag_example :
    decode (subscription_tag (pos 123) (pos 45)) (address 0 0 0) ≡ address 65 123 45
decode-subscription_tag_example =
    decode-subscription_tag 123 45 (address 0 0 0) (omega arith) (omega arith) (omega arith)
      (omega arith)

decode_four_digits_example :
    decode (subscription_tag (pos 1234) (pos 5)) (address 0 0 0) ≡ address 65 123 45
decode_four_digits_example =
    decode_four_digits 1234 5 (address 0 0 0) (omega arith) (omega arith) (omega arith)
      (omega arith)

hears-subscription_tag_example : hears (pos 123) (subscription_tag (pos 124) (pos 7)) ≡ (123 == 124)
hears-subscription_tag_example =
    hears-subscription_tag 123 124 7 (omega arith, omega arith) (omega arith, omega arith)
      (omega arith, omega arith)

abbrev trade : Report
trade = trade_confirmation fill_of_two

not_there : lookup (pos 7) no_strategy.stg_class ≡ none
unfolding lookup
not_there = refl

on_report_stops_example :
    on_report machine (subscription_tag (pos 123) (pos 7)) trade no_strategy ≡ none
on_report_stops_example =
    on_report_stops machine 123 7 fill_of_two no_strategy (omega arith) (omega arith) (omega arith)
      (omega arith) not_there

abbrev zero_rejection : OeRequest
zero_rejection = record {
  error_code = pos 0;
  token_no = htonl (pos 101);
  order_number = pos 1000001;
  buy_sell_indicator = htons buy;
  volume = pos 0;
  price = pos 0;
}

abbrev rejection : Report
rejection = mod_rej zero_rejection

-- The strategy of portfolio 7 is told that a modification was refused.
abbrev refused : World
refused =
    let w = world_of machine (pos 7) client in
    record w { stg = order_mod_rej_out zero_rejection w.stg }

refused-step :
    step machine.hit (Events.Event.mod_rejects zero_rejection) (world_of machine (pos 7) client)
    ≡ some refused
unfolding step
refused-step = refl

on_report-Moves_example :
    (d : AutoClient hub) × (on_report machine (subscription_tag (pos 123) (pos 7)) rejection client
      ≡ some (d, (pos 123, pos 7, rejection) ∷ []))
    × Moves machine (pos 7) refused client d
on_report-Moves_example =
    on_report-Moves machine 123 7 rejection (Events.Event.mod_rejects zero_rejection) refused client
      (omega arith) (omega arith) (omega arith) (omega arith) refl refused-step

abbrev subscribed : AutoClient hub
subscribed = handle_subscription machine pair no_strategy

subscribed-live : live machine (subscribes pair ∷ []) no_strategy ≡ some subscribed
unfolding live act
subscribed-live = refl

no_strategy-IsKept : IsKept no_strategy
unfolding lookup
no_strategy-IsKept = record { told = λ t. refl; known = λ t on. absurd (ground (arith, on)) }

dispose-Silent_example :
    ((t : ℤ) → replay t (dispose subscribed).calls false ≡ some false)
    × ((s : ℤ)
        → (pos 0 =?ℤ s) ≡ false
        → calls_at s (dispose subscribed).calls ≡ calls_at s subscribed.calls)
dispose-Silent_example =
    dispose-Silent machine (subscribes pair ∷ []) no_strategy subscribed no_strategy-IsKept
      subscribed-live

new_pair : AreNew machine hub-IsHub (subscribes pair ∷ []) no_strategy
unfolding lookup act
new_pair = (refl, tt)

live-deliver_example : (e : AutoClient hub) × (deliver far_price subscribed ≡ some e)
live-deliver_example =
    live-deliver machine hub-IsHub (subscribes pair ∷ []) no_strategy subscribed (λ j. tt) new_pair
      subscribed-live far_price

abbrev ordered : AutoClient hub
ordered = manual_order_entry machine zero_oe subscribed

ordered-live : live machine (subscribes pair ∷ orders zero_oe ∷ []) no_strategy ≡ some ordered
unfolding live act
ordered-live = refl

no_strategy-IsUnnoted : IsUnnoted machine no_strategy
no_strategy-IsUnnoted = record { below = omega arith; empty = refl }

live-Ignores_example : manual_order_mod_cncl_entry zero_om ordered ≡ ordered
live-Ignores_example =
    live-Ignores machine (subscribes pair ∷ orders zero_oe ∷ []) no_strategy ordered
      no_strategy-IsUnnoted ordered-live zero_om

-- A pair that is subscribed twice and then unsubscribed leaves a slot of its strategy, which the next
-- price of the far token calls.
twice_subscribed :
    deliver far_price (handle_un_subscription pair (handle_subscription machine pair subscribed))
    ≡ none
unfolding deliver handle_un_subscription handle_subscription wire open_portfolio lookup assign
    remove subscribe_token_on_false call_slots entry_at set_symbols fresh_node with_packs
    on_un_subscription on_subscription
twice_subscribed = refl

-- The first buy order of portfolio 7 waits for its confirmation.
abbrev waiting_node : Node
waiting_node = record { address = 9; stg = placed.stg; ct1 = none; ct2 = none; ct3 = none }

abbrev waiting_client : AutoClient hub
waiting_client = record no_strategy { stg_class = (pos 7, waiting_node) ∷ [] }

waiting_there : lookup (pos 7) waiting_client.stg_class ≡ some waiting_node
unfolding lookup
waiting_there = refl

abbrev gone : AutoClient hub
gone = handle_un_subscription pair waiting_client

handle_un_subscription_orphans_example :
    (gone.fill ≡ waiting_client.fill)
    × (lookup (pos 7) gone.stg_class ≡ none)
    × ((d : AutoClient hub) × (on_report machine
            (subscription_tag (pos 123) (pos 7))
            (confirmation acceptance)
            gone
          ≡ some (d, (pos 123, pos 7, confirmation acceptance) ∷ []))
        × (d.fill ≡ waiting_client.fill)
        × (lookup (pos 7) d.stg_class
            ≡ some (record (fresh_node machine gone.next_address) {
              stg = order_confirmation_tr acceptance (fresh_node machine gone.next_address).stg;
            })))
handle_un_subscription_orphans_example =
    handle_un_subscription_orphans machine 123 7 acceptance pair waiting_node waiting_client
      (omega arith) (omega arith) (omega arith) (omega arith) refl waiting_there
      record { buys = refl; sells = refl; unknown = refl }
