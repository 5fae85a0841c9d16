-- ===== src/Session/Answers/Routes.antt =====
-- Where BindConnection (OrderServer-20151216-AtHome/src/TapSignOn.cpp) sends the answers about one
-- order.
pub mod Steps
pub mod Runs
use jansan.Common.{
  ◌≡◌, refl, sym, ◌∙◌, ap, subst, ℕ, Bool, true, false, Option, none, some, List, [], ◌∷◌, ◌++◌,
  All, ℤ, pos, ◌=?ℤ◌, ltb_ℤ, leb_ℤ, if◌then◌else◌, if_intro, Bool-cases, =?ℤ→eq, Option-cases, inl,
  inr, arith,
}
use jansan.Common.Words.{ntohl}
use jansan.Messages.{PfHolder, zero_holder, OeResponseTr, OeRequest, TradeConfirmTr}
use jansan.Session.Holder.{Wanted, get_pf}
use jansan.Session.Answers.{
  OrderMap, IsOrderMap, kept_or, Answer, accepts, changes, rejects, fills, Out, published, to_admin,
  Desk, get_record_by_order, get_new, look_up, of_response, of_rejection, passed_on, fill_passed_on,
  known_first, on_rejection, on_change, on_fill, cancel_orphan, on_acceptance, on_answer,
  run_answers,
}

abbrev pub number_of : Answer → ℤ
number_of (accepts r) = r.order_number
number_of (changes r) = r.order_number
number_of (rejects q) = q.order_number
number_of (fills t) = t.response_order_number

-- What is published about an order, in its order.
abbrev pub about : ℤ → List Out → List (ℤ × Answer)
about n [] = []
about n (published tag a ∷ outs) =
    let rest = about n outs in if number_of a =?ℤ n then (tag, a) ∷ rest else rest
about n (to_admin c p t ∷ outs) = about n outs

abbrev pub under : ℤ → ℤ → List Answer → List (ℤ × Answer)
under tag n [] = []
under tag n (a ∷ later) =
    let rest = under tag n later in if number_of a =?ℤ n then (tag, a) ∷ rest else rest

-- An answer after which the order is still there: not another acceptance under its number, and not a
-- fill that leaves nothing of it.
abbrev pub LeavesOpen : ℤ → Answer → Type 0
LeavesOpen n (accepts r) = (r.order_number =?ℤ n) ≡ false
LeavesOpen n (changes r) = Unit {0}
LeavesOpen n (rejects q) = Unit {0}
LeavesOpen n (fills t) =
    (t.response_order_number =?ℤ n) ≡ true → leb_ℤ (ntohl t.remaining_volume) (pos 0) ≡ false

pub about-append : (n : ℤ) (a b : List Out) → about n (a ++ b) ≡ about n a ++ about n b
about-append n [] b = refl
about-append n (published tag x ∷ a) b = ground (arith, about-append n a b)
about-append n (to_admin c p t ∷ a) b = about-append n a b

pub about-passed_on-other :
    (n : ℤ) (c : PfHolder) (a : Answer) → (number_of a =?ℤ n) ≡ false → about n (passed_on c a) ≡ []
about-passed_on-other n c a other =
    if_intro (λ outs. about n outs ≡ []) (ltb_ℤ (pos 0) c.pf) (λ _. rw other refl) λ _. refl

pub about-passed_on-own :
    (n : ℤ) (d : PfHolder) (a : Answer)
    → (number_of a =?ℤ n) ≡ true
    → ltb_ℤ (pos 0) d.pf ≡ true
    → about n (passed_on d a) ≡ (d.subscription_tag, a) ∷ []
about-passed_on-own n d a own real = rw (real, own) refl

-- The holder of order `n` is `d`.
abbrev pub IsHeld : (b : OrderMap) → ℤ → PfHolder → Desk b → Type 0
IsHeld b n d s = b.find n s.out_pf ≡ some d

pub change_unknown :
    (b : OrderMap) (r : OeResponseTr) (s : Desk b)
    → b.find r.order_number s.out_pf ≡ none
    → (on_change b r s).1 ≡ []
unfolding on_change get_record_by_order
change_unknown b r s e = rw e refl

module _ (b : OrderMap) (h : IsOrderMap b) where
  insert-IsHeld :
      (k n : ℤ) (c d : PfHolder) (m : b.Map)
      → b.find n m ≡ some d
      → b.find n (b.insert k c m) ≡ some d
  insert-IsHeld k n c d m e = elim (Bool-cases (b.clashes c m)) [
    | inl clash ↦ subst (λ x. b.find n x ≡ some d) (sym (h.insert_clash k c m clash)) e
    | inr free ↦ h.find-insert k n c m free ∙ kept
  ]
    where
      kept : (if k =?ℤ n then kept_or (b.find k m) c else b.find n m) ≡ some d
      kept =
          if_intro (λ y. y ≡ some d) (k =?ℤ n)
            (λ own. ap (λ o. kept_or o c) (ap (λ i. b.find i m) (=?ℤ→eq k n own) ∙ e)) λ _. e

  pub get_new-IsHeld :
      (x : Wanted) (k n : ℤ) (d : PfHolder) (s : Desk b)
      → IsHeld b n d s
      → IsHeld b n d (get_new b x k s).1
  unfolding get_new
  get_new-IsHeld x k n d s e = insert-IsHeld _ n _ d s.out_pf e

  erase-IsHeld :
      (k n : ℤ) (d : PfHolder) (m : b.Map)
      → (k =?ℤ n) ≡ false
      → b.find n m ≡ some d
      → b.find n (b.erase k m) ≡ some d
  erase-IsHeld k n d m other e = h.find-erase k n m ∙ rw other e

  pub look_up-own :
      (k n remaining : ℤ) (d : PfHolder) (s : Desk b)
      → (k =?ℤ n) ≡ true
      → leb_ℤ remaining (pos 0) ≡ false
      → IsHeld b n d s
      → look_up b k remaining s ≡ (d, s)
  unfolding get_record_by_order
  look_up-own k n remaining d s own left e =
      rw (ap (λ i. b.find i s.out_pf) (=?ℤ→eq k n own) ∙ e, left) refl

  pub look_up-IsHeld :
      (k n remaining : ℤ) (d : PfHolder) (s : Desk b)
      → (k =?ℤ n) ≡ false
      → IsHeld b n d s
      → IsHeld b n d (look_up b k remaining s).1
  unfolding get_record_by_order
  look_up-IsHeld k n remaining d s other e = elim (Option-cases (b.find k s.out_pf)) [
    | inl none_found ↦ rw none_found e
    | inr (c, found) ↦ rw found (
        if_intro (λ m. b.find n m ≡ some d) (leb_ℤ remaining (pos 0))
          (λ _. erase-IsHeld k n d s.out_pf other e) λ _. e)
  ]

  pub known_first-IsHeld :
      (q : OeRequest) (n : ℤ) (d : PfHolder) (s : Desk b)
      → (q.order_number =?ℤ n) ≡ false
      → IsHeld b n d s
      → IsHeld b n d (known_first b q s).1
  known_first-IsHeld q n d s other e =
      if_intro (λ (r : PfHolder × Desk b). IsHeld b n d r.1) (ltb_ℤ (pos 0) q.order_number)
        (λ _. look_up-IsHeld q.order_number n (pos 1) d s other e) λ _. e
