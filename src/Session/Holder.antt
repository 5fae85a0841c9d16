-- ===== src/Session/Holder.antt =====
-- TapSignOn::GetPF of OrderServer-20151216-AtHome/src/TapSignOn.cpp, with FindByToken of
-- include/Enums.h: the holder of the order that an answer of the exchange is about is looked for
-- among those that were sent. The holder that is returned is also put into `_PFHashMap`, which is in
-- Session/Answers.
pub mod Found
use jansan.Common.{Bool, Option, none, some, List, [], ◌∷◌, ℤ, ◌=?ℤ◌, ◌&&◌, if◌then◌else◌}
use jansan.Messages.{PfHolder, zero_holder}

-- What an answer says of a new order.
pub record Wanted : Type 0 where
  pub token : ℤ
  pub price : ℤ
  pub qty : ℤ
  pub side : ℤ

abbrev pub find_by_token : Wanted → PfHolder → Bool
find_by_token x j =
    j.oetr.token_no =?ℤ x.token
    && j.oetr.price =?ℤ x.price
    && j.oetr.volume =?ℤ x.qty
    && j.oetr.buy_sell_indicator =?ℤ x.side

abbrev cons_rest : PfHolder → Option (PfHolder × List PfHolder) → Option (PfHolder × List PfHolder)
cons_rest d none = none
cons_rest d (some (f, rest)) = some (f, d ∷ rest)

-- `find_if` and `erase`: the first holder that fits, and the others.
unfoldable pub take_first : Wanted → List PfHolder → Option (PfHolder × List PfHolder)
take_first x [] = none
take_first x (d ∷ ds) =
    let later = take_first x ds in if find_by_token x d then some (d, ds) else cons_rest d later

abbrev found_or_zero : List PfHolder → Option (PfHolder × List PfHolder) → PfHolder × List PfHolder
found_or_zero holders none = (zero_holder, holders)
found_or_zero holders (some r) = r

-- The holder, and what `_QueueHolder` is afterwards.
unfoldable pub get_pf : Wanted → ℤ → ℤ → List PfHolder → PfHolder × List PfHolder
get_pf x order_number last_seq holders =
    let r = found_or_zero holders (take_first x holders) in
    (record r.0 { order_no = order_number; hash_key = last_seq }, r.1)
