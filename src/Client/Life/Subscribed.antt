-- ===== src/Client/Life/Subscribed.antt =====
-- What an AutoClient (OrderServer-20151216-AtHome, src/AutoClient.cpp) asks of the data socket, in the
-- course of its life and at its end.
use jansan.Common.{
  ◌≡◌, refl, sym, ◌∙◌, ap, subst, arith, Bool, true, false, some, [], ◌∷◌, ℤ, ◌=?ℤ◌, =?ℤ→eq,
  if_intro, Bool-cases, inl, inr,
}
use jansan.Common.Maps.{lookup, or_new}
use jansan.Client.{Hub, subscribe_token, un_subscribe_token, AutoClient}
use jansan.Client.Pairs.{subscribe_token_on_false, un_subscribe_token_on_true}
use jansan.Client.Life.Calls.{
  replay, then_replay, replay-append, told-subscribe_token, told-un_subscribe_token, status-assign,
  listed,
}

module _ {h : Hub} where
  abbrev pub status : ℤ → AutoClient h → Bool
  status t c = or_new false (lookup t c.sub_status)

  -- The calls of every token alternate, `SubStatus` says what the last one was, and a token that is
  -- subscribed has an entry of `SymbolDictionary` that names it.
  pub record IsKept (c : AutoClient h) : Type 0 where
    pub told : (t : ℤ) → replay t c.calls false ≡ some (status t c)
    pub known : (t : ℤ) → status t c ≡ true → listed t (lookup t c.symbol_dictionary) ≡ true

  pub on_false-IsKept :
      (token : ℤ) (c : AutoClient h)
      → listed token (lookup token c.symbol_dictionary) ≡ true
      → IsKept c
      → IsKept (subscribe_token_on_false token c)
  unfolding subscribe_token_on_false
  on_false-IsKept token c seen k =
      if_intro IsKept (status token c) (λ _. k)
        λ off. record {
          told = λ t.
              replay-append t c.calls (subscribe_token c.datasock token ∷ []) false
              ∙ ap (then_replay t (subscribe_token c.datasock token ∷ [])) (k.told t)
              ∙ told-subscribe_token c.datasock t token (λ t. status t c) off
              ∙ ap some (sym (status-assign token t true c.sub_status));
          known = λ t on. elim (Bool-cases (token =?ℤ t)) [
            | inl same ↦
                subst (λ x. listed x (lookup x c.symbol_dictionary) ≡ true) (=?ℤ→eq token t same)
                  seen
            | inr other ↦
                k.known t (sym (status-assign token t true c.sub_status ∙ rw other refl) ∙ on)
          ];
        }

  pub on_true-IsKept :
      (token : ℤ) (c : AutoClient h) → IsKept c → IsKept (un_subscribe_token_on_true token c)
  unfolding un_subscribe_token_on_true
  on_true-IsKept token c k =
      if_intro IsKept (status token c)
        (λ on. record {
          told = λ t.
              replay-append t c.calls (un_subscribe_token c.datasock token ∷ []) false
              ∙ ap (then_replay t (un_subscribe_token c.datasock token ∷ [])) (k.told t)
              ∙ told-un_subscribe_token c.datasock t token (λ t. status t c) on
              ∙ ap some (sym (status-assign token t false c.sub_status));
          known = λ t still. elim (Bool-cases (token =?ℤ t)) [
            | inl same ↦
                absurd (ground (arith, status-assign token t false c.sub_status, still, same))
            | inr other ↦
                k.known t (sym (status-assign token t false c.sub_status ∙ rw other refl) ∙ still)
          ];
        })
        λ _. k

  -- What does not subscribe or unsubscribe a token, and takes no entry out of the dictionary.
  pub record Kin (c d : AutoClient h) : Type 0 where
    pub sub_status : d.sub_status ≡ c.sub_status
    pub calls : d.calls ≡ c.calls
    pub symbols :
        (t : ℤ)
        → listed t (lookup t c.symbol_dictionary) ≡ true
        → listed t (lookup t d.symbol_dictionary) ≡ true

  pub Kin-IsKept : (c d : AutoClient h) → Kin c d → IsKept c → IsKept d
  Kin-IsKept c d kin k = record {
    told = λ t.
        ap (λ cs. replay t cs false) kin.calls
        ∙ k.told t
        ∙ ap (λ m. some (or_new false (lookup t m))) (sym kin.sub_status);
    known = λ t on.
        kin.symbols t (k.known t (ap (λ m. or_new false (lookup t m)) (sym kin.sub_status) ∙ on));
  }

  pub Kin-refl : (c : AutoClient h) → Kin c c
  Kin-refl c = record { sub_status = refl; calls = refl; symbols = λ t was. was }

  pub on_false-symbols :
      (token : ℤ) (c : AutoClient h)
      → (subscribe_token_on_false token c).symbol_dictionary ≡ c.symbol_dictionary
  unfolding subscribe_token_on_false
  on_false-symbols token c =
      if_intro (λ (d : AutoClient h). d.symbol_dictionary ≡ c.symbol_dictionary) (status token c)
        (λ _. refl) λ _. refl
