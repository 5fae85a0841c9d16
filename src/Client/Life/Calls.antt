-- ===== src/Client/Life/Calls.antt =====
-- The calls of the data socket in OrderServer-20151216-AtHome/src/AutoClient.cpp
-- (SubscribeTokenOnFalse, UnSubscribeTokenOnTrue), and the entries of `SymbolDictionary` that name
-- a token.
use jansan.Common.{
  ◌≡◌, refl, sym, ◌∙◌, ap, subst, arith, Bool, true, false, ◌||◌, Option, none, some, List, [], ◌∷◌,
  ◌++◌, ℤ, ◌=?ℤ◌, =?ℤ_refl, =?ℤ→eq, if◌then◌else◌, Bool-cases, inl, inr,
}
use jansan.Common.Maps.{lookup, assign, lookup-assign, or_new}
use jansan.Messages.{FoPair}
use jansan.Client.{NfToken, SockCall, subscribe_token, un_subscribe_token}
use jansan.Client.Pairs.{set_symbol, set_symbols, zero_token}

-- What has been asked for a token: whether it is subscribed after the calls; `none` if it
-- was subscribed twice, or unsubscribed without being subscribed.
abbrev pub replay : ℤ → List SockCall → Bool → Option Bool
replay t [] on = some on
replay t (subscribe_token sock x ∷ cs) on =
    let skipped = replay t cs on in
    let told = replay t cs true in if x =?ℤ t then (if on then none else told) else skipped
replay t (un_subscribe_token sock x ∷ cs) on =
    let skipped = replay t cs on in
    let told = replay t cs false in if x =?ℤ t then (if on then told else none) else skipped

abbrev pub then_replay : ℤ → List SockCall → Option Bool → Option Bool
then_replay t cs none = none
then_replay t cs (some on) = replay t cs on

pub replay-append :
    (t : ℤ) (cs ds : List SockCall) (on : Bool)
    → replay t (cs ++ ds) on ≡ then_replay t ds (replay t cs on)
replay-append t [] ds on = refl
replay-append t (subscribe_token sock x ∷ cs) ds on =
    ground (arith, replay-append t cs ds true, replay-append t cs ds on)
replay-append t (un_subscribe_token sock x ∷ cs) ds on =
    ground (arith, replay-append t cs ds false, replay-append t cs ds on)

-- Whether an entry of `SymbolDictionary` names a token.
abbrev pub names : ℤ → NfToken → Bool
names t n = n.far_token =?ℤ t || n.near_token =?ℤ t || n.token_three =?ℤ t

abbrev pub listed : ℤ → Option NfToken → Bool
listed t none = false
listed t (some n) = names t n

-- One more call, of a token that is not subscribed, and of one that is.
pub told-subscribe_token :
    (sock t token : ℤ) (status : ℤ → Bool)
    → status token ≡ false
    → then_replay t (subscribe_token sock token ∷ []) (some (status t))
      ≡ some (if token =?ℤ t then true else status t)
told-subscribe_token sock t token status off = elim (Bool-cases (token =?ℤ t)) [
  | inl same ↦ rw (same, sym (ap status (=?ℤ→eq token t same)), off) refl
  | inr other ↦ rw other refl
]

pub told-un_subscribe_token :
    (sock t token : ℤ) (status : ℤ → Bool)
    → status token ≡ true
    → then_replay t (un_subscribe_token sock token ∷ []) (some (status t))
      ≡ some (if token =?ℤ t then false else status t)
told-un_subscribe_token sock t token status on = elim (Bool-cases (token =?ℤ t)) [
  | inl same ↦ rw (same, sym (ap status (=?ℤ→eq token t same)), on) refl
  | inr other ↦ rw other refl
]

pub status-assign :
    (token t : ℤ) (b : Bool) (m : List (ℤ × Bool))
    → or_new false (lookup t (assign token b m))
      ≡ (if token =?ℤ t then b else or_new false (lookup t m))
status-assign token t b m = ground (arith, lookup-assign token t b m)

-- The tokens of a pair are in the dictionary after its subscription, and those that were remain.
abbrev pair_of : FoPair → NfToken
pair_of p = record zero_token {
  near_token = p.token_near;
  far_token = p.token_far;
  token_three = p.token_three;
}

own :
    (p : FoPair) (token : ℤ)
    → (p.token_far =?ℤ token || p.token_near =?ℤ token || p.token_three =?ℤ token) ≡ true
    → names token (pair_of p) ≡ true
own p token h = h

pub set_symbol-listed :
    (p : FoPair) (token t : ℤ) (dict : List (ℤ × NfToken))
    → names token (pair_of p) ≡ true
    → listed t (lookup t (set_symbol p token dict))
      ≡ (if token =?ℤ t then true else listed t (lookup t dict))
set_symbol-listed p token t dict own =
    ap (listed t) (
      lookup-assign token t
        (record (or_new zero_token (lookup token dict)) {
          near_token = p.token_near;
          far_token = p.token_far;
          token_three = p.token_three;
          pf_number = p.portfolio_name;
        })
        dict)
    ∙ elim (Bool-cases (token =?ℤ t)) [
      | inl same ↦ rw same (subst (λ x. names x (pair_of p) ≡ true) (=?ℤ→eq token t same) own)
      | inr other ↦ rw other refl
    ]

pub set_symbols-listed :
    (p : FoPair) (t : ℤ) (dict : List (ℤ × NfToken))
    → listed t (lookup t (set_symbols p dict))
      ≡ (p.token_three =?ℤ t || p.token_far =?ℤ t || p.token_near =?ℤ t || listed t (lookup t dict))
unfolding set_symbols
set_symbols-listed p t dict =
    let near = set_symbol p p.token_near dict in
    let far = set_symbol p p.token_far near in
    ground (
      arith,
      set_symbol-listed p p.token_three t far
          (own p p.token_three (ground (arith, =?ℤ_refl p.token_three))),
      set_symbol-listed p p.token_far t near
          (own p p.token_far (ground (arith, =?ℤ_refl p.token_far))),
      set_symbol-listed p p.token_near t dict
          (own p p.token_near (ground (arith, =?ℤ_refl p.token_near))),
    )

pub touched-listed :
    (token t : ℤ) (dict : List (ℤ × NfToken))
    → listed t (lookup t dict) ≡ true
    → listed t (lookup t (assign token (or_new zero_token (lookup token dict)) dict)) ≡ true
touched-listed token t dict was =
    ap (listed t) (lookup-assign token t (or_new zero_token (lookup token dict)) dict)
    ∙ elim (Bool-cases (token =?ℤ t)) [
      | inl same ↦ rw same (
          subst (λ x. listed t (some (or_new zero_token (lookup x dict))) ≡ true)
            (sym (=?ℤ→eq token t same)) (known (lookup t dict) was))
      | inr other ↦ rw other was
    ]
  where
    known : (o : Option NfToken) → listed t o ≡ true → listed t (some (or_new zero_token o)) ≡ true
    known none was = absurd (ground (arith, was))
    known (some n) was = was
