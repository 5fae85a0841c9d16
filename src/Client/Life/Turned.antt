-- ===== src/Client/Life/Turned.antt =====
-- What StopAllOrder of AutoClient (OrderServer-20151216-AtHome, src/AutoClient.cpp) does to the tokens
-- that are subscribed.
use jansan.Common.{
  ◌≡◌, refl, sym, ◌∙◌, ap, subst, arith, Bool, true, false, ◌||◌, Option, none, some, List, [], ◌∷◌,
  ℤ, ◌=?ℤ◌, =?ℤ→eq, if◌then◌else◌, if_intro, Bool-cases, inl, inr,
}
use jansan.Common.Maps.{lookup, or_new}
use jansan.Client.{Hub, Node, NfToken, AutoClient}
use jansan.Client.Pairs.{zero_token, un_subscribe_token_on_true}
use jansan.Client.Stop.{
  touch, stopped_at, stop_strategy, stop_symbol, stop_symbols, stop_all_order, drop_symbol,
  drop_symbols,
}
use jansan.Client.Life.Calls.{replay, status-assign, names, listed, touched-listed}
use jansan.Client.Life.Subscribed.{status, IsKept, on_true-IsKept, Kin, Kin-IsKept, Kin-refl}

-- Whether some entry of a dictionary names a token.
abbrev any_names : ℤ → List (ℤ × NfToken) → Bool
any_names t [] = false
any_names t ((k, n) ∷ ns) = names t n || any_names t ns

listed-any_names :
    (t : ℤ) (dict : List (ℤ × NfToken)) → listed t (lookup t dict) ≡ true → any_names t dict ≡ true
unfolding lookup
listed-any_names t [] was = was
listed-any_names t ((k, n) ∷ ns) was = elim (Bool-cases (k =?ℤ t)) [
  | inl same ↦ ground (arith, was, same)
  | inr other ↦ ground (arith, listed-any_names t ns (sym (rw other refl) ∙ was))
]

module _ {h : Hub} where
  touch-Kin : (token : ℤ) (c : AutoClient h) → Kin c (touch token c)
  touch-Kin token c = record {
    sub_status = refl;
    calls = refl;
    symbols = λ t was. touched-listed token t c.symbol_dictionary was;
  }

  stopped_at-Kin : (pf : ℤ) (c : AutoClient h) (o : Option Node) → Kin c (stopped_at pf c o)
  stopped_at-Kin pf c none = Kin-refl c
  stopped_at-Kin pf c (some node) = record {
    sub_status = refl;
    calls = refl;
    symbols = λ t was. was;
  }

  -- What becomes of the status of every token, next to the invariant.
  record Leads (off : ℤ → Bool) (c d : AutoClient h) : Type 0 where
    kept : IsKept d
    turned : (t : ℤ) → status t d ≡ (if off t then false else status t c)

  on_true-status :
      (token : ℤ) (c : AutoClient h) (t : ℤ)
      → status t (un_subscribe_token_on_true token c) ≡ (if token =?ℤ t then false else status t c)
  unfolding un_subscribe_token_on_true
  on_true-status token c t =
      if_intro (λ (d : AutoClient h). status t d ≡ (if token =?ℤ t then false else status t c))
        (or_new false (lookup token c.sub_status)) (λ on. status-assign token t false c.sub_status)
        λ off. elim (Bool-cases (token =?ℤ t)) [
          | inl same ↦
              rw same (
                subst (λ x. or_new false (lookup x c.sub_status) ≡ false) (=?ℤ→eq token t same) off)
          | inr other ↦ rw other refl
        ]

  on_true-Leads :
      (token : ℤ) (c : AutoClient h)
      → IsKept c
      → Leads (λ t. token =?ℤ t) c (un_subscribe_token_on_true token c)
  on_true-Leads token c k = record {
    kept = on_true-IsKept token c k;
    turned = on_true-status token c;
  }

  Kin-Leads : (c d : AutoClient h) → Kin c d → IsKept c → Leads (λ t. false) c d
  Kin-Leads c d kin k = record {
    kept = Kin-IsKept c d kin k;
    turned = λ t. ap (λ m. or_new false (lookup t m)) kin.sub_status;
  }

  Leads-Leads :
      (f g : ℤ → Bool) (c d e : AutoClient h)
      → Leads f c d
      → Leads g d e
      → Leads (λ t. f t || g t) c e
  Leads-Leads f g c d e first second = record {
    kept = second.kept;
    turned =
        λ t. second.turned t ∙ ap (λ b. if g t then false else b) (first.turned t) ∙ ground arith;
  }

  stop_symbol-Leads :
      (it : NfToken) (c : AutoClient h)
      → IsKept c
      → Leads
          (λ t. ((false || it.far_token =?ℤ t) || it.near_token =?ℤ t) || it.token_three =?ℤ t)
          c
          (stop_symbol it c)
  unfolding stop_symbol stop_strategy
  stop_symbol-Leads it c k =
      let far = touch it.far_token c in
      let pf = (or_new zero_token (lookup it.far_token far.symbol_dictionary)).pf_number in
      let c1 = un_subscribe_token_on_true it.far_token far in
      let c2 = un_subscribe_token_on_true it.near_token c1 in
      let c3 = un_subscribe_token_on_true it.token_three c2 in
      let near = touch it.near_token c3 in
      let l0 = Kin-Leads c far (touch-Kin it.far_token c) k in
      let l1 = on_true-Leads it.far_token far l0.kept in
      let l2 = on_true-Leads it.near_token c1 l1.kept in
      let l3 = on_true-Leads it.token_three c2 l2.kept in
      let l4 = Kin-Leads c3 near (touch-Kin it.near_token c3) l3.kept in
      let l5 =
        Kin-Leads near (stop_strategy pf near) (stopped_at-Kin pf near (lookup pf near.stg_class))
          l4.kept in
      record {
        kept = l5.kept;
        turned = λ t.
            l5.turned t
            ∙ l4.turned t
            ∙ l3.turned t
            ∙ ap (λ b. if it.token_three =?ℤ t then false else b)
                (l2.turned t
                  ∙ ap (λ b. if it.near_token =?ℤ t then false else b)
                      (l1.turned t
                        ∙ ap (λ b. if it.far_token =?ℤ t then false else b) (l0.turned t)))
            ∙ ground arith;
      }

  stop_symbols-Leads :
      (its : List (ℤ × NfToken)) (c : AutoClient h)
      → IsKept c
      → Leads (λ t. any_names t its) c (stop_symbols its c)
  unfolding stop_symbols
  stop_symbols-Leads [] c k = record { kept = k; turned = λ t. refl }
  stop_symbols-Leads ((key, it) ∷ its) c k =
      let first = stop_symbol-Leads it c k in
      let rest = stop_symbols-Leads its (stop_symbol it c) first.kept in
      record {
        kept = rest.kept;
        turned = λ t.
            rest.turned t
            ∙ ap (λ b. if any_names t its then false else b) (first.turned t)
            ∙ ground arith;
      }

  pub stop_all_order-Silent :
      (c : AutoClient h) (t : ℤ) → IsKept c → replay t (stop_all_order c).calls false ≡ some false
  unfolding stop_all_order
  stop_all_order-Silent c t k =
      let leads = stop_symbols-Leads c.symbol_dictionary c k in
      leads.kept.told t
      ∙ ap some (
          leads.turned t
          ∙ off (status t c) (any_names t c.symbol_dictionary)
              λ on. listed-any_names t c.symbol_dictionary (k.known t on))
    where
      off : (on any : Bool) → (on ≡ true → any ≡ true) → (if any then false else on) ≡ false
      off true any h = rw (h refl) refl
      off false true h = refl
      off false false h = refl

  pub drop_symbols-calls :
      (its : List (ℤ × NfToken)) (c : AutoClient h) → (drop_symbols its c).calls ≡ c.calls
  unfolding drop_symbols drop_symbol
  drop_symbols-calls [] c = refl
  drop_symbols-calls ((key, it) ∷ its) c = drop_symbols-calls its (drop_symbol it c)
