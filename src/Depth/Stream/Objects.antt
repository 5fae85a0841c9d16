-- ===== src/Depth/Stream/Objects.antt =====
-- The token objects of Depth Data 20151224/main.cpp (`_map`): what becomes of the object of a token.
use jansan.Common.{
  ◌≡◌, ◌≢◌, refl, Option, none, some, List, [], ◌∷◌, ◌++◌, ℤ, ◌=?ℤ◌, if◌then◌else◌, =?ℤ→eq,
  Bool-cases, Option-cases, inl, inr, subst, arith, if_intro,
}
use jansan.Messages.{FinalPrice}
use jansan.Depth.Bimap.{Bimap, IsBimap}
use jansan.Depth.Token.{Message, TokenWise, on_message, run}
use jansan.Depth.Stream.{find_token, put_token}

module _ (b : Bimap) (laws : IsBimap b) (past_end : b.Map → ℤ) where
  -- The object of a token after the messages.
  abbrev pub Follows : List Message → Option (TokenWise b) → Option (TokenWise b) → Type 0
  Follows ms none new = new ≡ none
  Follows ms (some tw) new =
      (tw' : TokenWise b) × (run b past_end ms tw ≡ some tw') × (new ≡ some tw')

  pub Follows-nil : (o : Option (TokenWise b)) → Follows [] o o
  unfolding run
  Follows-nil none = refl
  Follows-nil (some tw) = (tw, refl, refl)

  none≢some : {t : TokenWise b} → none ≢ some t
  none≢some e = cc

  run-append :
      (ms ns : List Message) (t u v : TokenWise b)
      → run b past_end ms t ≡ some u
      → run b past_end ns u ≡ some v
      → run b past_end (ms ++ ns) t ≡ some v
  unfolding run
  run-append [] ns t u v e e' = cc
  run-append (m ∷ ms) ns t u v e e' = elim (Option-cases (on_message b past_end m t)) [
    | inl f ↦ absurd (none≢some (rw (f, run) at e))
    | inr (r, f) ↦ rw (f, run) (run-append ms ns r.0 u v (rw (f, run) at e) e')
  ]

  pub find-put :
      (t u : ℤ) (tw old : TokenWise b) (m : List (ℤ × TokenWise b))
      → find_token t m ≡ some old
      → find_token u (put_token t tw m) ≡ (if t =?ℤ u then some tw else find_token u m)
  unfolding find_token put_token
  find-put t u tw old [] e = cc
  find-put t u tw old ((i, x) ∷ m) e = ground (arith, find-put t u tw old m)

  Follows-none : (ms : List Message) (o : Option (TokenWise b)) → o ≡ none → Follows ms o o
  Follows-none ms none e = refl
  Follows-none ms (some tw) e = cc

  -- A message for a token that has no object.
  pub missed :
      (t u : ℤ) (ms : List Message) (m : List (ℤ × TokenWise b))
      → find_token t m ≡ none
      → Follows (if t =?ℤ u then ms else []) (find_token u m) (find_token u m)
  missed t u ms m e =
      if_intro (λ x. Follows x (find_token u m) (find_token u m)) (t =?ℤ u)
        (λ q. Follows-none ms _ (subst (λ i. find_token i m ≡ none) (=?ℤ→eq t u q) e))
        λ _. Follows-nil (find_token u m)

  pub reached :
      (t u : ℤ) (msg : Message) (tw : TokenWise b) (r : TokenWise b × FinalPrice)
      (m : List (ℤ × TokenWise b))
      → find_token t m ≡ some tw
      → on_message b past_end msg tw ≡ some r
      → Follows
          (if t =?ℤ u then msg ∷ [] else [])
          (find_token u m)
          (if t =?ℤ u then some r.0 else find_token u m)
  unfolding run
  reached t u msg tw r m e f = elim (Bool-cases (t =?ℤ u)) [
    | inl q ↦
        let found = subst (λ i. find_token i m ≡ some tw) (=?ℤ→eq t u q) e in
        rw (q, found) (r.0, rw (f, run) refl, refl)
    | inr q ↦ rw q (Follows-nil (find_token u m))
  ]

  pub Follows-trans :
      (ms ns : List Message) (o o' o'' : Option (TokenWise b))
      → Follows ms o o'
      → Follows ns o' o''
      → Follows (ms ++ ns) o o''
  Follows-trans ms ns none o' o'' h h' = subst (λ x. Follows ns x o'') h h'
  Follows-trans ms ns (some tw) o' o'' (u, e, f) h' =
      let (v, e', f') = subst (λ x. Follows ns x o'') f h' in (v, run-append ms ns tw u v e e', f')
