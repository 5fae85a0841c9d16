-- ===== src/Client/Tags.antt =====
-- The tags under which AutoClient::Eventsubscriber (OrderServer-20151216-AtHome/src/AutoClient.cpp)
-- listens for the answers of the exchange, and how it reads them. `AutoClient::concat` is the same
-- function as `StrategyClass::concat`. The library that carries the messages hands over those that
-- begin with the eight bytes of a tag that was asked for.
pub mod Decode
pub mod Filter
use jansan.Common.{
  ℕ, zero, suc, ◌+◌, ◌/◌, Bool, true, false, ◌||◌, List, [], ◌∷◌, ◌++◌, map, ℤ, pos, negsuc, sub_ℕ,
  ◌-ℤ◌, ◌*ℤ◌, ◌=?ℤ◌, ltb_ℤ, if◌then◌else◌,
}
use jansan.Common.Words.{to_int, to_short}
use jansan.Tag.{concat, e_order}

-- MsgType, CID and PFNum, which are members: a round that sets none of them leaves those of the round
-- before.
pub record Address : Type 0 where
  pub msg_type : ℤ
  pub cid : ℤ
  pub pf_num : ℤ

-- C++ division by a positive number, which rounds towards 0.
unfoldable pub quot : ℤ → ℕ → ℤ
quot (pos n) d = pos (n / d)
quot (negsuc n) d = sub_ℕ 0 (suc n / d)

abbrev read_tag : ℤ → ℕ → ℕ → Address
read_tag tag head tail =
    let msg_type = to_short (quot tag head) in
    record {
      msg_type = msg_type;
      cid = to_int (quot (tag -ℤ msg_type *ℤ pos head) tail);
      pf_num = to_short (tag -ℤ quot tag tail *ℤ pos tail);
    }

unfoldable pub decode : ℤ → Address → Address
decode tag before =
    if ltb_ℤ tag (pos 999999)
    then read_tag tag 10000 10
    else if ltb_ℤ (pos 999999) tag
    then read_tag tag 100000 100
    else before

-- n numbers from k on.
abbrev pub count_from : ℕ → ℕ → List ℕ
count_from k zero = []
count_from k (suc n) = k ∷ count_from (k + 1) n

-- The tags that a client asks for.
unfoldable pub tags_of : ℤ → List ℤ
tags_of client =
    map (λ ipf. concat (concat e_order client) (to_short (pos ipf))) (count_from 1 99 ++ 999 ∷ [])

abbrev pub any_is : ℤ → List ℤ → Bool
any_is tag [] = false
any_is tag (t ∷ ts) = t =?ℤ tag || any_is tag ts

unfoldable pub hears : ℤ → ℤ → Bool
hears client tag = any_is tag (tags_of client)
