-- ===== src/Depth/Stream/Subscribed.antt =====
-- Eventsubscriber of Depth Data 20151224/main.cpp: the token objects after a subscription.
use jansan.Common.{
  ◌≡◌, ◌≢◌, refl, sym, ◌∙◌, ◌⊎◌, inl, inr, none, some, ℤ, pos, ◌=?ℤ◌, ltb_ℤ, if_intro, Bool-cases,
  Option-cases, subst, =?ℤ_refl, =?ℤ→eq,
}
use jansan.Common.Words.{to_short}
use jansan.Depth.Bimap.{Bimap}
use jansan.Depth.Token.{TokenWise, create_token}
use jansan.Depth.Stream.{
  Server, Subscription, find_token, add_token, event_subscriber, thousandth, e_fo_pair, e_ioc_pair,
}

module _ (b : Bimap) (past_end : b.Map → ℤ) where
  -- The objects of `s` are those of `s'`, and `s'` may have more.
  abbrev Extends : Server b → Server b → Type 0
  Extends s s' =
      (t : ℤ) (tw : TokenWise b)
      → find_token t s.tokens ≡ some tw
      → find_token t s'.tokens ≡ some tw

  abbrev pub HasToken : ℤ → Server b → Type 0
  HasToken t s = (tw : TokenWise b) × (find_token t s.tokens ≡ some tw)

  add_token-Extends : (t : ℤ) (s : Server b) → Extends s (add_token b past_end t s)
  unfolding add_token find_token
  add_token-Extends t s u tw e = elim (Option-cases (find_token t s.tokens)) [
    | inr (x, f) ↦ rw (f, add_token) e
    | inl f ↦
        rw (f, add_token)
          (elim (Bool-cases (t =?ℤ u)) [
            | inl q ↦
                absurd
                  (none≢some (sym (subst (λ i. find_token i s.tokens ≡ none) (=?ℤ→eq t u q) f) ∙ e))
            | inr q ↦ rw q e
          ])
  ]
    where
      none≢some : none ≢ some tw
      none≢some h = cc

  add_token-HasToken : (t : ℤ) (s : Server b) → HasToken t (add_token b past_end t s)
  unfolding add_token find_token
  add_token-HasToken t s = elim (Option-cases (find_token t s.tokens)) [
    | inr (x, f) ↦ (x, rw (f, add_token) f)
    | inl f ↦ (create_token b past_end t (s.p_close t), rw (f, add_token, =?ℤ_refl t) refl)
  ]

  then_has : (t : ℤ) (s s' : Server b) → Extends s s' → HasToken t s → HasToken t s'
  then_has t s s' h (tw, e) = (tw, h t tw e)

  add_both-Extends :
      (t u : ℤ) (s : Server b) → Extends s (add_token b past_end u (add_token b past_end t s))
  add_both-Extends t u s v tw e =
      add_token-Extends u (add_token b past_end t s) v tw (add_token-Extends t s v tw e)

  add_both-HasToken :
      (t u : ℤ) (s : Server b)
      → HasToken u (add_token b past_end u (add_token b past_end t s))
        × HasToken t (add_token b past_end u (add_token b past_end t s))
  add_both-HasToken t u s = (
    add_token-HasToken u (add_token b past_end t s),
    then_has t (add_token b past_end t s) (add_token b past_end u (add_token b past_end t s))
        (add_token-Extends u (add_token b past_end t s)) (add_token-HasToken t s),
  )

  event_subscriber-Extends :
      (su_id : ℤ) (pair : Subscription) (s : Server b)
      → Extends s (event_subscriber b past_end su_id pair s)
  unfolding event_subscriber
  event_subscriber-Extends su_id pair s =
      if_intro (Extends s) (to_short (thousandth su_id) =?ℤ e_fo_pair)
        (λ _. add_both-Extends pair.token_far pair.token_near s)
        λ _.
          if_intro (Extends s) (to_short (thousandth su_id) =?ℤ e_ioc_pair)
            (λ _.
              if_intro (Extends s) (ltb_ℤ (pos 0) pair.token_three)
                (λ _ v tw e.
                  add_token-Extends pair.token_three _ v tw
                    (add_both-Extends pair.token_near pair.token_far s v tw e))
                λ _. add_both-Extends pair.token_near pair.token_far s)
            λ _ t tw e. e

  -- After a subscription of a pair of either kind, its near and far tokens have objects.
  event_subscriber-HasToken :
      (su_id : ℤ) (pair : Subscription) (s : Server b)
      → ((to_short (thousandth su_id) ≡ e_fo_pair) ⊎ (to_short (thousandth su_id) ≡ e_ioc_pair))
      → HasToken pair.token_near (event_subscriber b past_end su_id pair s)
        × HasToken pair.token_far (event_subscriber b past_end su_id pair s)
  unfolding event_subscriber
  event_subscriber-HasToken su_id pair s (inl e) =
      rw e (add_both-HasToken pair.token_far pair.token_near s)
  event_subscriber-HasToken su_id pair s (inr e) =
      let both = add_token b past_end pair.token_far (add_token b past_end pair.token_near s) in
      let all = add_token b past_end pair.token_three both in
      let more = add_token-Extends pair.token_three both in
      let (far, near) = add_both-HasToken pair.token_near pair.token_far s in
      rw e (
        if_intro (λ x. HasToken pair.token_near x × HasToken pair.token_far x)
          (ltb_ℤ (pos 0) pair.token_three)
          (λ _. (
            then_has pair.token_near both all more near,
            then_has pair.token_far both all more far,
          ))
          λ _. (near, far))

  -- A subscription, of whatever kind, keeps every object, with its book.
  find_token-event_subscriber :
      (su_id : ℤ) (pair : Subscription) (s : Server b) (t : ℤ) (tw : TokenWise b)
      → find_token t s.tokens ≡ some tw
      → find_token t (event_subscriber b past_end su_id pair s).tokens ≡ some tw
  find_token-event_subscriber su_id pair s t tw e = event_subscriber-Extends su_id pair s t tw e
