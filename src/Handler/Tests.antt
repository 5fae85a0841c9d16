-- ===== src/Handler/Tests.antt =====
-- ClientHandler of OrderServer-20151216-AtHome with one client.
use jansan.Common.{
  ◌≡◌, refl, arith, false, Option, none, some, List, [], ◌∷◌, ◌++◌, ℤ, pos, ◌=?ℤ◌, if◌then◌else◌,
}
use jansan.Common.Maps.{lookup, assign, or_new}
use jansan.Messages.{FoPairDiff, zero_oe, zero_om}
use jansan.Strategy.Sample.{pair, world}
use jansan.Client.{AutoClient}
use jansan.Client.Sample.{hub, machine, no_slots, no_strategy, client}
use jansan.Client.Life.Calls.{replay}
use jansan.Handler.{Server, SignIn, Request, Sent, reply, e_login, login}
use jansan.Handler.Receive.{dispatch, recieve}
use jansan.Handler.Presence.{server_of, present, after_login, dispatch-present}
use jansan.Handler.Replies.{about, recieve-others}
use jansan.Handler.History.{Happening, recieves, happen, history, history-replay}

abbrev server : Server machine
server = record {
  stg_map = (pos 123, client) ∷ [];
  cimlist = [];
  load_cim_list = false;
  cont_map = [];
  auto_stg_id = pos 1;
  fill = world.fill;
}

abbrev sign_in : SignIn
sign_in = record { transection_code = pos 2319; clint_id = pos 123; status = pos 0 }

abbrev difference : FoPairDiff
difference = record {
  portfolio_name = pos 7;
  bnsf_diff = pos 100;
  bfsn_diff = pos 100;
  bnsf_mnq = pos 1;
  bfsn_mnq = pos 1;
  bnsf_mxq = pos 10;
  bfsn_mxq = pos 10;
  fo_pair = pair;
}

abbrev request : Request
request = record {
  size = pos 100;
  transection_code = e_login;
  clint_id = pos 123;
  sign_in = sign_in;
  fo_pair = pair;
  fo_pair_diff = difference;
  t_code = pos 0;
  moe = zero_oe;
  mom = zero_om;
}

-- A second login takes the client away.
dispatch-present_example :
    present machine no_strategy no_slots (pos 123) (
      server_of machine no_strategy no_slots (dispatch machine no_strategy no_slots request server))
    ≡ (if request.transection_code =?ℤ e_login
        then after_login machine no_strategy no_slots request.sign_in
            (pos 123)
            (present machine no_strategy no_slots (pos 123) server)
        else present machine no_strategy no_slots (pos 123) server)
dispatch-present_example = dispatch-present machine no_strategy no_slots request (pos 123) server

recieve-others_example :
    (s' : Server machine) × (sent : List Sent) × (recieve machine no_strategy no_slots request
        server
      ≡ some (s', sent ++ reply request ∷ []))
    × ((q : ℤ) → (about request =?ℤ q) ≡ false → lookup q s'.stg_map ≡ lookup q server.stg_map)
recieve-others_example =
    recieve-others machine no_strategy no_slots request server (omega arith) (omega arith)

-- A login, and a subscription.
abbrev happenings : List (Happening machine no_strategy no_slots)
happenings = recieves request ∷ recieves (record request { transection_code = pos 73 }) ∷ []

abbrev no_client : Server machine
no_client = record server { stg_map = [] }

abbrev final : Option (Server machine) → Server machine
final none = no_client
final (some s) = s

abbrev after : Server machine
after = final (history machine no_strategy no_slots happenings no_client)

abbrev user : AutoClient hub
user = or_new no_strategy (lookup (pos 123) after.stg_map)

after-history : history machine no_strategy no_slots happenings no_client ≡ some after
unfolding history happen recieve
after-history = refl

user-after : lookup (pos 123) after.stg_map ≡ some user
unfolding history happen recieve dispatch login lookup assign
user-after = refl

history-replay_example :
    replay (pos 101) user.calls false ≡ some (or_new false (lookup (pos 101) user.sub_status))
history-replay_example =
    history-replay machine no_strategy no_slots happenings no_client after refl after-history
      (pos 123) user user-after (pos 101)
