-- ===== src/Session/LogOn.antt =====
-- The log-on of TapSignOn::BindConnection (OrderServer-20151216-AtHome/src/TapSignOn.cpp) with its
-- packets (Packets.cpp, include/structure.h). The log-off is only prepared here: the code that
-- sends it is behind an endless loop. The fields of a packet that are 0 or blank are left out.
pub mod Started
use jansan.Common.{ℕ, Bool, true, false, Option, List, [], ◌∷◌, ◌++◌, ℤ, pos, ◌=?ℤ◌, if◌then◌else◌}
use jansan.Common.Words.{◌+i◌, ◌-i◌, ntohl, ntohs, to_short}
use jansan.Session.{Session, invite}

-- PacketFormat, before every packet.
pub record PacketFormat : Type 0 where
  pub length : ℤ
  pub seq_number : ℤ
  pub checksum : List ℕ
  pub message_count : ℤ

-- MESSAGE_HEADER
pub record MessageHeader : Type 0 where
  pub transaction_code : ℤ
  pub trader_id : ℤ
  pub message_length : ℤ

-- MS_SIGN_ON_2300
pub record SignOn : Type 0 where
  pub send_pf : PacketFormat
  pub header : MessageHeader
  pub user_id : ℤ
  pub password : List ℕ
  pub broker_id : List ℕ
  pub branch_id : ℤ
  pub version_number : ℤ
  pub user_type : ℤ
  pub ws_class_name : List ℕ
  pub broker_name : List ℕ

-- MS_SYSTEM_INFO_REQ_1600
pub record SystemInfoReq : Type 0 where
  pub send_pf : PacketFormat
  pub header : MessageHeader

-- SignOutRequest_2320
pub record SignOut : Type 0 where
  pub send_pf : PacketFormat
  pub header : MessageHeader

pub data Control : Type 0 where
  sign_on : SignOn → Control
  system_info : SystemInfoReq → Control

-- A packet of the exchange: 15000, or any other; what is done with the answers to orders is not part of
-- the log-on.
pub data Received : Type 0 where
  invitation : Received
  other_code : Received

-- The session, with the local `counter` and `LastSeq`.
pub record Link : Type 0 where
  pub session : Session
  pub counter : ℤ
  pub last_seq : ℤ

-- What the sign-on packet is made of, apart from the numbers.
pub record Member : Type 0 where
  pub password : List ℕ
  pub broker_id : List ℕ
  pub ws_class_name : List ℕ
  pub broker_name : List ℕ

-- Fun_SignOut_2320; the second number is not read. The sum is the md5 sum of the packet.
unfoldable pub fun_sign_out_2320 : (SignOut → List ℕ) → ℤ → ℤ → SignOut
fun_sign_out_2320 sum user_id sequance_number =
    let obj : SignOut = record {
      send_pf = record {
        length = ntohs (pos 66);
        seq_number = ntohl (pos 3);
        checksum = [];
        message_count = ntohs (pos 1);
      };
      header = record {
        transaction_code = ntohs (pos 2320);
        trader_id = ntohl (to_short user_id);
        message_length = ntohs (pos 40);
      };
    } in
    record obj { send_pf = record (obj.send_pf) { checksum = sum obj } }

-- The sums are md5 sums of the packets.
module _ (member : Member) (sum_on : SignOn → List ℕ) (sum_info : SystemInfoReq → List ℕ) where
  unfoldable pub login_packet_2300 : ℤ → ℤ → ℤ → ℤ → SignOn
  login_packet_2300 user_id branch_id version_number user_type =
      let obj : SignOn = record {
        send_pf = record {
          length = ntohs (pos 240);
          seq_number = ntohl (pos 1);
          checksum = [];
          message_count = ntohs (pos 1);
        };
        header = record {
          transaction_code = ntohs (pos 2300);
          trader_id = ntohl user_id;
          message_length = ntohs (pos 214);
        };
        user_id = ntohl user_id;
        password = member.password;
        broker_id = member.broker_id;
        branch_id = ntohs branch_id;
        version_number = ntohl version_number;
        user_type = ntohs user_type;
        ws_class_name = member.ws_class_name;
        broker_name = member.broker_name;
      } in
      record obj { send_pf = record (obj.send_pf) { checksum = sum_on obj } }

  unfoldable pub system_info_request_packet_1600 : ℤ → SystemInfoReq
  system_info_request_packet_1600 user_id =
      let obj : SystemInfoReq = record {
        send_pf = record {
          length = ntohs (pos 70);
          seq_number = ntohl (pos 2);
          checksum = [];
          message_count = ntohs (pos 1);
        };
        header = record {
          transaction_code = ntohs (pos 1600);
          trader_id = ntohl user_id;
          message_length = ntohs (pos 44);
        };
      } in
      record obj { send_pf = record (obj.send_pf) { checksum = sum_info obj } }

  abbrev pub taken : Received → Session → Session
  taken invitation s = invite s
  taken other_code s = s

  -- A packet of the log-on uses an invitation, whether there is one or not.
  abbrev pub log_on : ℤ → Control → Link → Link × List Control
  log_on seq packet l = (
    record l {
      session = record (l.session) {
        seq_no = seq;
        invitation_count = l.session.invitation_count -i pos 1;
      };
      last_seq = seq;
    },
    packet ∷ [],
  )

  -- The first two packets that come in, whatever they are, are answered with the log-on.
  unfoldable pub greet : Link → Link × List Control
  greet l =
      if l.counter =?ℤ pos 1
      then log_on (pos 1) (sign_on (login_packet_2300 (pos 28823) (pos 4) (pos 93800) (pos 0))) l
      else if l.counter =?ℤ pos 2
      then log_on (pos 2) (system_info (system_info_request_packet_1600 (pos 28823))) l
      else (l, [])

  unfoldable pub bind_connection : Received → Link → Link × List Control
  bind_connection r l =
      greet (record l { session = taken r l.session; counter = l.counter +i pos 1 })

  unfoldable pub run_received : List Received → Link → Link × List Control
  run_received [] l = (l, [])
  run_received (r ∷ rs) l =
      let first = bind_connection r l in
      let rest = run_received rs first.0 in (rest.0, first.1 ++ rest.1)
