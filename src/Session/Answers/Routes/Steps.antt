-- ===== src/Session/Answers/Routes/Steps.antt =====
-- What each case of BindConnection (OrderServer-20151216-AtHome/src/TapSignOn.cpp) publishes about one
-- order that is held.
use jansan.Common.{
  ◌≡◌, refl, sym, ◌∙◌, ap, subst, Bool, true, false, List, [], ◌∷◌, ℤ, pos, ◌=?ℤ◌, ltb_ℤ, leb_ℤ,
  if◌then◌else◌, if_intro, Bool-cases, =?ℤ→eq, inl, inr, arith,
}
use jansan.Common.Words.{ntohl}
use jansan.Messages.{PfHolder, OeResponseTr, OeRequest, TradeConfirmTr}
use jansan.Session.Answers.{
  OrderMap, IsOrderMap, Answer, changes, rejects, fills, Out, published, to_admin, Desk, get_new,
  look_up, of_rejection, passed_on, fill_passed_on, known_first, on_rejection, on_change, on_fill,
}
use jansan.Session.Answers.Routes.{
  number_of, about, LeavesOpen, about-passed_on-other, about-passed_on-own, IsHeld, look_up-own,
  look_up-IsHeld, known_first-IsHeld, get_new-IsHeld,
}

module _ (b : OrderMap) (h : IsOrderMap b) where
  -- What a step does with the order `n`, which is held by `d`.
  abbrev pub Routes : ℤ → PfHolder → Answer → Desk b × List Out → Type 0
  Routes n d a r =
      IsHeld b n d r.0
      × (about n r.1 ≡ (if number_of a =?ℤ n then (d.subscription_tag, a) ∷ [] else []))

  pub other_Routes :
      (n : ℤ) (d : PfHolder) (a : Answer) (r : Desk b × List Out)
      → (number_of a =?ℤ n) ≡ false
      → IsHeld b n d r.0
      → about n r.1 ≡ []
      → Routes n d a r
  other_Routes n d a r other e quiet = (e, quiet ∙ rw other refl)

  own_Routes :
      (n : ℤ) (d : PfHolder) (a : Answer) (s : Desk b) (outs : List Out) (r : Desk b × List Out)
      → (number_of a =?ℤ n) ≡ true
      → IsHeld b n d s
      → about n outs ≡ (d.subscription_tag, a) ∷ []
      → r ≡ (s, outs)
      → Routes n d a r
  own_Routes n d a s outs r own e told seen =
      subst (Routes n d a) (sym seen) (e, told ∙ rw own refl)

  on_change-own :
      (n : ℤ) (d : PfHolder) (r : OeResponseTr) (s : Desk b)
      → (r.order_number =?ℤ n) ≡ true
      → IsHeld b n d s
      → on_change b r s ≡ (s, passed_on d (changes r))
  unfolding on_change
  on_change-own n d r s own e =
      ap {A = PfHolder × Desk b} (λ x. (x.1, passed_on x.0 (changes r)))
        (look_up-own b h r.order_number n (pos 1) d s own refl e)

  on_change-other :
      (n : ℤ) (d : PfHolder) (r : OeResponseTr) (s : Desk b)
      → (r.order_number =?ℤ n) ≡ false
      → IsHeld b n d s
      → Routes n d (changes r) (on_change b r s)
  unfolding on_change
  on_change-other n d r s other e =
      other_Routes n d (changes r) (on_change b r s) other
        (look_up-IsHeld b h r.order_number n (pos 1) d s other e)
        (about-passed_on-other n (look_up b r.order_number (pos 1) s).0 (changes r) other)

  pub on_change-Routes :
      (n : ℤ) (d : PfHolder) (r : OeResponseTr) (s : Desk b)
      → ltb_ℤ (pos 0) d.pf ≡ true
      → IsHeld b n d s
      → Routes n d (changes r) (on_change b r s)
  on_change-Routes n d r s real e = elim (Bool-cases (r.order_number =?ℤ n)) [
    | inl own ↦
        own_Routes n d (changes r) s (passed_on d (changes r)) (on_change b r s) own e
          (about-passed_on-own n d (changes r) own real) (on_change-own n d r s own e)
    | inr other ↦ on_change-other n d r s other e
  ]

  on_fill-own :
      (n : ℤ) (d : PfHolder) (t : TradeConfirmTr) (s : Desk b)
      → ltb_ℤ (pos 0) d.pf ≡ true
      → (t.response_order_number =?ℤ n) ≡ true
      → leb_ℤ (ntohl t.remaining_volume) (pos 0) ≡ false
      → IsHeld b n d s
      → on_fill b t s ≡ (s, published d.subscription_tag (fills t) ∷ to_admin d.cid d.pf t ∷ [])
  unfolding on_fill
  on_fill-own n d t s real own left e =
      ap {A = PfHolder × Desk b} (λ x. (x.1, fill_passed_on x.0 t))
        (look_up-own b h t.response_order_number n (ntohl t.remaining_volume) d s own left e)
      ∙ rw real refl

  on_fill-other :
      (n : ℤ) (d : PfHolder) (t : TradeConfirmTr) (s : Desk b)
      → (t.response_order_number =?ℤ n) ≡ false
      → IsHeld b n d s
      → Routes n d (fills t) (on_fill b t s)
  unfolding on_fill
  on_fill-other n d t s other e =
      let known = look_up b t.response_order_number (ntohl t.remaining_volume) s in
      other_Routes n d (fills t) (on_fill b t s) other
        (look_up-IsHeld b h t.response_order_number n (ntohl t.remaining_volume) d s other e)
        (if_intro (λ outs. about n outs ≡ []) (ltb_ℤ (pos 0) known.0.pf) (λ _. rw other refl)
          λ _. refl)

  pub on_fill-Routes :
      (n : ℤ) (d : PfHolder) (t : TradeConfirmTr) (s : Desk b)
      → ltb_ℤ (pos 0) d.pf ≡ true
      → LeavesOpen n (fills t)
      → IsHeld b n d s
      → Routes n d (fills t) (on_fill b t s)
  on_fill-Routes n d t s real open_after e = elim (Bool-cases (t.response_order_number =?ℤ n)) [
    | inl own ↦
        own_Routes n d (fills t) s
          (published d.subscription_tag (fills t) ∷ to_admin d.cid d.pf t ∷ []) (on_fill b t s) own
          e (rw own refl) (on_fill-own n d t s real own (open_after own) e)
    | inr other ↦ on_fill-other n d t s other e
  ]

  known_first-own :
      (n : ℤ) (d : PfHolder) (q : OeRequest) (s : Desk b)
      → ltb_ℤ (pos 0) n ≡ true
      → (q.order_number =?ℤ n) ≡ true
      → IsHeld b n d s
      → known_first b q s ≡ (d, s)
  known_first-own n d q s num own e =
      rw (ap (λ i. ltb_ℤ (pos 0) i) (=?ℤ→eq q.order_number n own) ∙ num)
        (look_up-own b h q.order_number n (pos 1) d s own refl e)

  on_rejection-own :
      (n : ℤ) (d : PfHolder) (q : OeRequest) (s : Desk b)
      → ltb_ℤ (pos 0) n ≡ true
      → ltb_ℤ (pos 0) d.pf ≡ true
      → (q.order_number =?ℤ n) ≡ true
      → IsHeld b n d s
      → on_rejection b q s ≡ (s, passed_on d (rejects q))
  unfolding on_rejection
  on_rejection-own n d q s num real own e =
      let not_zero : (d.pf =?ℤ pos 0) ≡ false = ground arith in
      rw (known_first-own n d q s num own e, not_zero) refl

  either-IsHeld :
      (n : ℤ) (d : PfHolder) (c : Bool) (x y : PfHolder × Desk b)
      → IsHeld b n d x.1
      → IsHeld b n d y.1
      → IsHeld b n d (if c then x else y).1
  either-IsHeld n d true x y hx hy = hx
  either-IsHeld n d false x y hx hy = hy

  on_rejection-other :
      (n : ℤ) (d : PfHolder) (q : OeRequest) (s : Desk b)
      → (q.order_number =?ℤ n) ≡ false
      → IsHeld b n d s
      → Routes n d (rejects q) (on_rejection b q s)
  unfolding on_rejection
  on_rejection-other n d q s other e =
      let known = known_first b q s in
      let found = get_new b (of_rejection q) q.order_number known.1 in
      let kept = known_first-IsHeld b h q n d s other e in
      other_Routes n d (rejects q) (on_rejection b q s) other
        (either-IsHeld n d (known.0.pf =?ℤ pos 0) found known
          (get_new-IsHeld b h (of_rejection q) q.order_number n d known.1 kept) kept)
        (about-passed_on-other n (if known.0.pf =?ℤ pos 0 then found else known).0 (rejects q)
          other)

  pub on_rejection-Routes :
      (n : ℤ) (d : PfHolder) (q : OeRequest) (s : Desk b)
      → ltb_ℤ (pos 0) n ≡ true
      → ltb_ℤ (pos 0) d.pf ≡ true
      → IsHeld b n d s
      → Routes n d (rejects q) (on_rejection b q s)
  on_rejection-Routes n d q s num real e = elim (Bool-cases (q.order_number =?ℤ n)) [
    | inl own ↦
        own_Routes n d (rejects q) s (passed_on d (rejects q)) (on_rejection b q s) own e
          (about-passed_on-own n d (rejects q) own real) (on_rejection-own n d q s num real own e)
    | inr other ↦ on_rejection-other n d q s other e
  ]
