-- ===== src/Session/Answers/Routes/Runs.antt =====
-- Where BindConnection (OrderServer-20151216-AtHome/src/TapSignOn.cpp) sends the answers about one
-- order, over any run of answers.
use jansan.Common.{
  ◌≡◌, refl, ◌∙◌, true, List, [], ◌∷◌, ◌++◌, All, ℤ, pos, ◌=?ℤ◌, ltb_ℤ, if◌then◌else◌, if_intro,
  arith,
}
use jansan.Messages.{PfHolder, OeResponseTr}
use jansan.Session.Answers.{
  OrderMap, IsOrderMap, Answer, accepts, changes, rejects, fills, Desk, get_new, of_response,
  cancel_orphan, on_acceptance, on_answer, run_answers,
}
use jansan.Session.Answers.Routes.{
  number_of, about, under, LeavesOpen, about-append, about-passed_on-other, IsHeld, get_new-IsHeld,
}
use jansan.Session.Answers.Routes.Steps.{
  Routes, on_change-Routes, on_fill-Routes, on_rejection-Routes, other_Routes,
}

cons_if :
    (d : PfHolder) (n : ℤ) (a : Answer) (later : List Answer)
    → (if number_of a =?ℤ n then (d.subscription_tag, a) ∷ [] else [])
        ++ under d.subscription_tag n later
      ≡ under d.subscription_tag n (a ∷ later)
cons_if d n a later = ground arith

module _ (b : OrderMap) (h : IsOrderMap b) where
  on_acceptance-Routes :
      (n : ℤ) (d : PfHolder) (r : OeResponseTr) (s : Desk b)
      → LeavesOpen n (accepts r)
      → IsHeld b n d s
      → Routes b h n d (accepts r) (on_acceptance b r s)
  unfolding on_acceptance cancel_orphan
  on_acceptance-Routes n d r s other e =
      let found = get_new b (of_response r) r.order_number s in
      let held = get_new-IsHeld b h (of_response r) r.order_number n d s e in
      other_Routes b h n d (accepts r) (on_acceptance b r s) other
        (if_intro (IsHeld b n d) (found.0.pf =?ℤ pos 0) (λ _. held) λ _. held)
        (about-passed_on-other n found.0 (accepts r) other)

  on_answer-Routes :
      (n : ℤ) (d : PfHolder) (a : Answer) (s : Desk b)
      → ltb_ℤ (pos 0) n ≡ true
      → ltb_ℤ (pos 0) d.pf ≡ true
      → LeavesOpen n a
      → IsHeld b n d s
      → Routes b h n d a (on_answer b a s)
  unfolding on_answer
  on_answer-Routes n d (accepts r) s num real stays e = on_acceptance-Routes n d r s stays e
  on_answer-Routes n d (changes r) s num real stays e = on_change-Routes b h n d r s real e
  on_answer-Routes n d (rejects q) s num real stays e = on_rejection-Routes b h n d q s num real e
  on_answer-Routes n d (fills t) s num real stays e = on_fill-Routes b h n d t s real stays e

  -- While an order is held for a portfolio, every answer about it, in any run of answers that neither
  -- accepts another order under its number nor fills it completely, is published once, in order, under
  -- the subscription tag of the strategy that sent it, and nothing else is published about it.
  pub run_answers-under :
      (n : ℤ) (d : PfHolder) (answers : List Answer) (s : Desk b)
      → ltb_ℤ (pos 0) n ≡ true
      → ltb_ℤ (pos 0) d.pf ≡ true
      → All (LeavesOpen n) answers
      → IsHeld b n d s
      → IsHeld b n d (run_answers b answers s).0
        × (about n (run_answers b answers s).1 ≡ under d.subscription_tag n answers)
  unfolding run_answers
  run_answers-under n d [] s num real stays e = (e, refl)
  run_answers-under n d (a ∷ later) s num real (stay, stays) e =
      let first = on_answer-Routes n d a s num real stay e in
      let next = (on_answer b a s).0 in
      let rest = run_answers-under n d later next num real stays first.0 in
      (
        rest.0,
        about-append n (on_answer b a s).1 (run_answers b later next).1
            ∙ rw (first.1, rest.1) (cons_if d n a later),
      )
