-- ===== src/Strategy/Confirm/Latest.antt =====
-- What a strategy knows of its buy order after the exchange's answers about it: ORDER_CONFIRMATION_TR
-- and ORDER_MOD_CONFIRMATION_TR of OrderServer-20151216-AtHome/src/StrategyClass.cpp.
use jansan.Common.{ℤ, ◌≡◌, refl, ◌∙◌, ap, sym, List, [], ◌∷◌, =?ℤ_refl}
use jansan.Common.Words.{htonl, htons}
use jansan.Messages.{open_, replaced, OeResponseTr, OmRequestTr}
use jansan.Strategy.{Strategy, World}
use jansan.Strategy.Confirm.{order_confirmation_tr, order_mod_confirmation_tr, confirm_buy}

-- An answer about the buy order of leg 1.
abbrev pub IsForBuy : OeResponseTr → Strategy → Type 0
IsForBuy r s =
    (htonl r.token_no ≡ s.feeds.far_fp.token) × (htons r.buy_sell_indicator ≡ s.sides.create)

order_confirmation_buy :
    (r : OeResponseTr) (s : Strategy)
    → IsForBuy r s
    → order_confirmation_tr r s ≡ confirm_buy open_ r s
unfolding order_confirmation_tr
order_confirmation_buy r s (t, b) =
    rw (t, b, =?ℤ_refl s.feeds.far_fp.token, =?ℤ_refl s.sides.create)

order_mod_confirmation_buy :
    (r : OeResponseTr) (s : Strategy)
    → IsForBuy r s
    → order_mod_confirmation_tr r s ≡ confirm_buy replaced r s
unfolding order_mod_confirmation_tr
order_mod_confirmation_buy r s (t, b) =
    rw (t, b, =?ℤ_refl s.feeds.far_fp.token, =?ℤ_refl s.sides.create)

-- The exchange accepts the buy order, and then confirms modifications of it.
unfoldable pub modified : List OeResponseTr → Strategy → Strategy
modified [] s = s
modified (r ∷ rs) s = modified rs (order_mod_confirmation_tr r s)

abbrev pub answered : OeResponseTr → List OeResponseTr → World → World
answered r rs w = record w { stg = modified rs (order_confirmation_tr r w.stg) }

unfoldable pub latest : OeResponseTr → List OeResponseTr → OeResponseTr
latest r [] = r
latest r (next ∷ rs) = latest next rs

pub data AreForBuy (s : Strategy) : List OeResponseTr → Type 0 where
  no_more : AreForBuy s []
  one_more :
      (r : OeResponseTr) (rs : List OeResponseTr)
      → IsForBuy r s
      → AreForBuy s rs
      → AreForBuy s (r ∷ rs)

-- A message about the order that an answer is about, as the exchange describes it there.
pub record IsAbout (r : OeResponseTr) (m : OmRequestTr) : Type 0 where
  pub number : m.order_number ≡ r.order_number
  pub side : m.buy_sell_indicator ≡ r.buy_sell_indicator
  pub volume : m.volume ≡ r.volume
  pub disclosed : m.disclosed_volume ≡ r.disclosed_volume
  pub disclosed_left : m.disclosed_volume_remaining ≡ r.disclosed_volume_remaining
  pub left : m.total_volume_remaining ≡ r.total_volume_remaining
  pub filled_today : m.volume_filled_today ≡ r.volume_filled_today
  pub entered : m.entry_date_time ≡ r.entry_date_time
  pub changed : m.last_modified ≡ r.last_modified
  pub filler : m.filler ≡ r.filler

-- A strategy that has come from `s` by answers about its buy order, of which `r` is the last.
pub record Knows (r : OeResponseTr) (s t : Strategy) : Type 0 where
  pub about : IsAbout r t.nm_pack.far_month_mod_buy
  pub price : t.nm_pack.far_month_mod_buy.price ≡ r.price
  pub token : t.nm_pack.far_month_mod_buy.token_no ≡ s.nm_pack.far_month_mod_buy.token_no
  pub feeds : t.feeds ≡ s.feeds
  pub sides : t.sides ≡ s.sides
  pub codes : (t.cancel_code ≡ s.cancel_code) × (t.modification_code ≡ s.modification_code)
  pub rate : t.buy_mod_quote_rate ≡ s.buy_mod_quote_rate
  pub holders : t.holders ≡ s.holders

confirm_buy-IsAbout :
    (r : OeResponseTr) (s : Strategy) → IsAbout r (confirm_buy open_ r s).nm_pack.far_month_mod_buy
confirm_buy-IsAbout r s = record {
  number = refl;
  side = refl;
  volume = refl;
  disclosed = refl;
  disclosed_left = refl;
  left = refl;
  filled_today = refl;
  entered = refl;
  changed = refl;
  filler = refl;
}

accepted-Knows :
    (r : OeResponseTr) (s : Strategy) → IsForBuy r s → Knows r s (order_confirmation_tr r s)
accepted-Knows r s f = rw (order_confirmation_buy r s f) record {
  about = confirm_buy-IsAbout r s;
  price = refl;
  token = refl;
  feeds = refl;
  sides = refl;
  codes = (refl, refl);
  rate = refl;
  holders = refl;
}

modified_once-Knows :
    (r next : OeResponseTr) (s t : Strategy)
    → Knows r s t
    → IsForBuy next s
    → Knows next s (order_mod_confirmation_tr next t)
modified_once-Knows r next s t k f =
    let g : IsForBuy next t =
      (f.0 ∙ ap (λ p. p.far_fp.token) (sym k.feeds), f.1 ∙ ap (λ p. p.create) (sym k.sides)) in
    rw (order_mod_confirmation_buy next t g) record {
      about = confirm_buy-IsAbout next t;
      price = refl;
      token = k.token;
      feeds = k.feeds;
      sides = k.sides;
      codes = k.codes;
      rate = k.rate;
      holders = k.holders;
    }

modified-Knows :
    (r : OeResponseTr) (rs : List OeResponseTr) (s t : Strategy)
    → Knows r s t
    → AreForBuy s rs
    → Knows (latest r rs) s (modified rs t)
unfolding modified latest
modified-Knows r [] s t k no_more = k
modified-Knows r (next ∷ rs) s t k (one_more _ _ f fs) =
    modified-Knows next rs s (order_mod_confirmation_tr next t) (modified_once-Knows r next s t k f)
      fs

pub answered-Knows :
    (r : OeResponseTr) (rs : List OeResponseTr) (w : World)
    → IsForBuy r w.stg
    → AreForBuy w.stg rs
    → Knows (latest r rs) w.stg (answered r rs w).stg
answered-Knows r rs w f fs =
    modified-Knows r rs w.stg (order_confirmation_tr r w.stg) (accepted-Knows r w.stg f) fs

-- The code and the price of a message are not part of what it is about.
pub recoded-IsAbout :
    (r : OeResponseTr) (m : OmRequestTr) (code price : ℤ)
    → IsAbout r m
    → IsAbout r (record m { transaction_code = code; price = price })
recoded-IsAbout r m code price h = record {
  number = h.number;
  side = h.side;
  volume = h.volume;
  disclosed = h.disclosed;
  disclosed_left = h.disclosed_left;
  left = h.left;
  filled_today = h.filled_today;
  entered = h.entered;
  changed = h.changed;
  filler = h.filler;
}
