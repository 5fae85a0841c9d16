-- ===== src/Session/Holder/Found.antt =====
-- Which holder TapSignOn::GetPF (OrderServer-20151216-AtHome/src/TapSignOn.cpp) gives for an answer.
use mathlib.Core.List.{append-nil}
use jansan.Common.{
  ℕ, ◌≡◌, refl, ap, ◌∙◌, true, false, none, some, List, [], ◌∷◌, ◌++◌, All, ℤ, pos, =?ℤ_refl,
}
use jansan.Messages.{PfHolder, zero_holder, OeRequestTr, OmRequestTr}
use jansan.Common.Words.{◌+i◌}
use jansan.Session.{Session, send_oe, numbered_oe}
use jansan.Session.Holder.{Wanted, find_by_token, take_first, get_pf}

-- No holder of the list fits.
abbrev pub IsNew : Wanted → List PfHolder → Type 0
IsNew x holders = All (λ d. find_by_token x d ≡ false) holders

-- The holder as it is returned.
abbrev pub answered : ℤ → ℤ → PfHolder → PfHolder
answered order_number last_seq d = record d { order_no = order_number; hash_key = last_seq }

take_first-append :
    (x : Wanted) (front rest : List PfHolder) (d : PfHolder)
    → IsNew x front
    → find_by_token x d ≡ true
    → take_first x (front ++ d ∷ rest) ≡ some (d, front ++ rest)
unfolding take_first
take_first-append x [] rest d new fits = rw fits refl
take_first-append x (e ∷ front) rest d (old, new) fits =
    rw (old, take_first-append x front rest d new fits) refl

take_first-none :
    (x : Wanted) (holders : List PfHolder) → IsNew x holders → take_first x holders ≡ none
unfolding take_first
take_first-none x [] new = refl
take_first-none x (e ∷ holders) (old, new) = rw (old, take_first-none x holders new) refl

-- The first holder whose order has the token, price, quantity and side of the answer is returned, with
-- the order's number, and leaves the list; the others stay in their order. So of two strategies with
-- equal orders on their way, the one that sent first gets the first answer.
pub get_pf-append :
    (x : Wanted) (order_number last_seq : ℤ) (front rest : List PfHolder) (d : PfHolder)
    → IsNew x front
    → find_by_token x d ≡ true
    → get_pf x order_number last_seq (front ++ d ∷ rest)
      ≡ (answered order_number last_seq d, front ++ rest)
unfolding get_pf
get_pf-append x order_number last_seq front rest d new fits =
    rw (take_first-append x front rest d new fits) refl

-- An answer that fits no holder gets an empty holder, of portfolio 0, with the order's number.
pub get_pf-IsNew :
    (x : Wanted) (order_number last_seq : ℤ) (holders : List PfHolder)
    → IsNew x holders
    → get_pf x order_number last_seq holders ≡ (answered order_number last_seq zero_holder, holders)
unfolding get_pf
get_pf-IsNew x order_number last_seq holders new = rw (take_first-none x holders new) refl

-- The answer to an order, as the order was sent.
abbrev pub answer_to : OeRequestTr → Wanted
answer_to o = record {
  token = o.token_no;
  price = o.price;
  qty = o.volume;
  side = o.buy_sell_indicator;
}

fits_own : (d : PfHolder) → find_by_token (answer_to d.oetr) d ≡ true
fits_own d =
    rw
      (
        =?ℤ_refl d.oetr.token_no,
        =?ℤ_refl d.oetr.price,
        =?ℤ_refl d.oetr.volume,
        =?ℤ_refl d.oetr.buy_sell_indicator,
      )
      refl

-- An order is sent, and no order that was sent before and still waits has its token, price, quantity
-- and side: the answer to it finds its own holder, as it was sent, and the list is as before the order.
pub get_pf-send_oe :
    (sum_oe : OeRequestTr → List ℕ) (sum_om : OmRequestTr → List ℕ) (order_number last_seq : ℤ)
    (s : Session)
    → IsNew (answer_to s.out.oetr) s.queue_holder
    → get_pf (answer_to s.out.oetr) order_number last_seq (send_oe sum_oe sum_om s).0.queue_holder
      ≡ (
        answered order_number last_seq
            (record s.out { oetr = numbered_oe sum_oe sum_om (s.seq_no +i pos 1) s.out.oetr }),
        s.queue_holder,
      )
unfolding send_oe
get_pf-send_oe sum_oe sum_om order_number last_seq s new =
    get_pf-append (answer_to s.out.oetr) order_number last_seq s.queue_holder []
      (record s.out { oetr = numbered_oe sum_oe sum_om (s.seq_no +i pos 1) s.out.oetr }) new
      (fits_own s.out)
    ∙ ap
        (λ l. (
          answered order_number last_seq
              (record s.out { oetr = numbered_oe sum_oe sum_om (s.seq_no +i pos 1) s.out.oetr }),
          l,
        ))
        (append-nil s.queue_holder)
