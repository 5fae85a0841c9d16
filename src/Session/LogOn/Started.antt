-- ===== src/Session/LogOn/Started.antt =====
-- The state in which the log-on of TapSignOn (OrderServer-20151216-AtHome/src/TapSignOn.cpp) leaves the
-- session, and what is sent from there.
use jansan.Common.{
  ℕ, suc, ◌+◌, ◌^◌, ◌≤◌, ◌<◌, ◌≡◌, refl, sym, ◌∙◌, ap, subst, arith, List, [], ◌∷◌, ◌++◌, length,
  map, ℤ, pos, sub_ℕ,
}
use jansan.Common.Words.{◌+i◌, ◌-i◌, ntohl, to_int}
use jansan.Messages.{OeRequestTr, OmRequestTr}
use jansan.Session.{Session, invite, Event, run}
use jansan.Session.Rounds.{Sends, invited, run-Sends}
use jansan.Session.LogOn.{
  Control, sign_on, system_info, Received, invitation, other_code, Link, Member, SignOn,
  SystemInfoReq, login_packet_2300, system_info_request_packet_1600, taken, greet, bind_connection,
  run_received,
}

-- The invitations among what came in.
abbrev pub invitations : List Received → ℕ
invitations [] = 0
invitations (invitation ∷ rs) = suc (invitations rs)
invitations (other_code ∷ rs) = invitations rs

-- The number that a packet of the log-on has.
abbrev pub number_of : Control → ℤ
number_of (sign_on p) = p.send_pf.seq_number
number_of (system_info p) = p.send_pf.seq_number

one_more : (i c : ℕ) → i + c < 2 ^ 30 → sub_ℕ i c +i pos 1 ≡ sub_ℕ (i + 1) c
unfolding ◌+i◌ to_int
one_more i c h = ground arith

one_less : (i c : ℕ) → i + c < 2 ^ 30 → sub_ℕ i c -i pos 1 ≡ sub_ℕ i (c + 1)
unfolding ◌-i◌ to_int
one_less i c h = ground arith

counts : (n : ℕ) → n < 2 ^ 30 → pos n +i pos 1 ≡ pos (n + 1)
unfolding ◌+i◌ to_int
counts n h = ground arith

at_most_one : (r : Received) → invitations (r ∷ []) ≤ 1
at_most_one invitation = omega arith
at_most_one other_code = omega arith

one_by_one :
    (i : ℕ) (r : Received) (rs : List Received)
    → i + invitations (r ∷ []) + invitations rs ≡ i + invitations (r ∷ rs)
one_by_one i invitation rs = omega arith
one_by_one i other_code rs = omega arith

what_is_left :
    (r r' : Received) (rs : List Received) (n : ℕ)
    → invitations (r ∷ r' ∷ rs) ≡ 2 + n
    → sub_ℕ (0 + invitations (r ∷ []) + invitations (r' ∷ []) + invitations rs) 2 ≡ pos n
what_is_left r r' rs n enough =
    let total : 0 + invitations (r ∷ []) + invitations (r' ∷ []) + invitations rs ≡ 2 + n =
      omega (arith, one_by_one 0 r (r' ∷ rs), one_by_one 0 r' rs, enough) in
    ap (λ x. sub_ℕ x 2) total ∙ ground arith

at_most : (rs : List Received) → invitations rs ≤ length rs
at_most [] = omega arith
at_most (invitation ∷ rs) = omega (arith, at_most rs)
at_most (other_code ∷ rs) = omega (arith, at_most rs)

numbers-append :
    (xs ys : List Control) → map number_of (xs ++ ys) ≡ map number_of xs ++ map number_of ys
numbers-append [] ys = refl
numbers-append (x ∷ xs) ys = ap (◌∷◌ (number_of x)) (numbers-append xs ys)

both :
    (xs ys zs : List Control) {a b : ℤ}
    → map number_of xs ≡ a ∷ []
    → map number_of ys ≡ b ∷ []
    → zs ≡ []
    → map number_of (xs ++ (ys ++ zs)) ≡ a ∷ b ∷ []
both xs ys zs {a = a} {b = b} x y z =
    numbers-append xs (ys ++ zs)
    ∙ ap (λ u. u ++ map number_of (ys ++ zs)) x
    ∙ ap (λ u. a ∷ u)
        (numbers-append ys zs ∙ ap (λ u. u ++ map number_of zs) y ∙ ap (λ u. b ∷ map number_of u) z)

invite-seq : (s : Session) → (invite s).seq_no ≡ s.seq_no
unfolding invite
invite-seq s = refl

-- The counter, and the invitations that are left if so many packets were sent.
record Stage (c i sent : ℕ) (l : Link) : Type 0 where
  counter : l.counter ≡ pos c
  left : l.session.invitation_count ≡ sub_ℕ i sent

module _ (member : Member) (sum_on : SignOn → List ℕ) (sum_info : SystemInfoReq → List ℕ) where
  abbrev greets : Link → Link × List Control
  greets = greet member sum_on sum_info

  abbrev come : Received → Link → Link
  come r l = record l {
    session = taken member sum_on sum_info r l.session;
    counter = l.counter +i pos 1;
  }

  come-Stage :
      (r : Received) (c i sent : ℕ) (l : Link)
      → c < 2 ^ 29
      → i < 2 ^ 29
      → sent < 2 ^ 29
      → Stage c i sent l
      → Stage (c + 1) (i + invitations (r ∷ [])) sent (come r l)
  unfolding invite
  come-Stage invitation c i sent l hc hi hs st = record {
    counter = ap (λ x. x +i pos 1) st.counter ∙ counts c (omega arith);
    left = ap (λ x. x +i pos 1) st.left ∙ one_more i sent (omega arith);
  }
  come-Stage other_code c i sent l hc hi hs st = record {
    counter = ap (λ x. x +i pos 1) st.counter ∙ counts c (omega arith);
    left = st.left ∙ ap (λ x. sub_ℕ x sent) (omega arith);
  }

  -- A packet of the log-on has gone out under a number.
  record Greeted (c i sent : ℕ) (n : ℤ) (r : Link × List Control) : Type 0 where
    stage : Stage c i sent r.0
    seq : r.0.session.seq_no ≡ n
    numbers : map number_of r.1 ≡ ntohl n ∷ []

  greet_first : (i : ℕ) (l : Link) → i < 2 ^ 29 → Stage 1 i 0 l → Greeted 1 i 1 (pos 1) (greets l)
  unfolding greet login_packet_2300
  greet_first i l h st = rw st.counter (record {
    stage = record {
      counter = refl;
      left = ap (λ x. x -i pos 1) st.left ∙ one_less i 0 (omega arith);
    };
    seq = refl;
    numbers = refl;
  })

  greet_second : (i : ℕ) (l : Link) → i < 2 ^ 29 → Stage 2 i 1 l → Greeted 2 i 2 (pos 2) (greets l)
  unfolding greet system_info_request_packet_1600
  greet_second i l h st = rw st.counter (record {
    stage = record {
      counter = refl;
      left = ap (λ x. x -i pos 1) st.left ∙ one_less i 1 (omega arith);
    };
    seq = refl;
    numbers = refl;
  })

  greet_later : (c : ℕ) (l : Link) → 2 < c → l.counter ≡ pos c → greets l ≡ (l, [])
  unfolding greet
  greet_later c l h e = rw e (ground arith)

  -- The log-on is over.
  record Over (i : ℕ) (r : Link × List Control) : Type 0 where
    seq : r.0.session.seq_no ≡ pos 2
    left : r.0.session.invitation_count ≡ sub_ℕ i 2
    silent : r.1 ≡ []

  run_later :
      (rs : List Received) (c i : ℕ) (l : Link)
      → 2 ≤ c
      → c + length rs < 2 ^ 29
      → i + length rs < 2 ^ 29
      → Stage c i 2 l
      → l.session.seq_no ≡ pos 2
      → Over (i + invitations rs) (run_received member sum_on sum_info rs l)
  unfolding run_received bind_connection
  run_later [] c i l lo hc hi st seq = record {
    seq = seq;
    left = st.left ∙ ap (λ x. sub_ℕ x 2) (omega arith);
    silent = refl;
  }
  run_later (r ∷ rs) c i l lo hc hi st seq =
      let next = come-Stage r c i 2 l (omega arith) (omega arith) (omega arith) st in
      let rest =
        run_later rs (c + 1) (i + invitations (r ∷ [])) (come r l) (omega arith) (omega arith)
          (omega (arith, at_most_one r)) next (come-seq r l ∙ seq) in
      subst
        (λ (x : Link × List Control). Over (i + invitations (r ∷ rs)) (
          (run_received member sum_on sum_info rs x.0).0,
          x.1 ++ (run_received member sum_on sum_info rs x.0).1,
        ))
        (sym (greet_later (c + 1) (come r l) (omega arith) next.counter))
        (subst (λ n. Over n (run_received member sum_on sum_info rs (come r l))) (one_by_one i r rs)
          rest)
    where
      come-seq : (r : Received) (l : Link) → (come r l).session.seq_no ≡ l.session.seq_no
      come-seq invitation l = invite-seq l.session
      come-seq other_code l = refl

  -- Before the first packet of the exchange, the session has no invitation. Once the exchange has
  -- sent two packets or more, with two invitations or more among them, and no order has been sent,
  -- the log-on has gone out: the sign-on under the number 1 and the request for the system
  -- information under the number 2, and nothing else. From then on, rounds of the send loop, new
  -- invitations and new orders in any order send at most as many messages as there are invitations
  -- left, and number them one after the other, from 3 on.
  pub log_on-Sends :
      (sum_oe : OeRequestTr → List ℕ) (sum_om : OmRequestTr → List ℕ) (r r' : Received)
      (rs : List Received) (es : List Event) (l : Link)
      → l.counter ≡ pos 0
      → l.session.invitation_count ≡ pos 0
      → 2 + length rs + invited es < 2 ^ 29
      → (n : ℕ) → invitations (r ∷ r' ∷ rs) ≡ 2 + n
      → (map number_of (run_received member sum_on sum_info (r ∷ r' ∷ rs) l).1
          ≡ ntohl (pos 1) ∷ ntohl (pos 2) ∷ [])
        × Sends 2
            (n + invited es)
            (run sum_oe sum_om es (run_received member sum_on sum_info (r ∷ r' ∷ rs) l).0.session)
  unfolding run_received bind_connection
  log_on-Sends sum_oe sum_om r r' rs es l start none small n enough =
      let i1 = 0 + invitations (r ∷ []) in
      let i2 = i1 + invitations (r' ∷ []) in
      let l1 = come r l in
      let s1 =
        come-Stage r 0 0 0 l (omega arith) (omega arith) (omega arith)
          (record { counter = start; left = none }) in
      let g1 = greet_first i1 l1 (omega (arith, at_most_one r)) s1 in
      let l2 = come r' (greets l1).0 in
      let s2 =
        come-Stage r' 1 i1 1 (greets l1).0 (omega arith) (omega (arith, at_most_one r))
          (omega arith) g1.stage in
      let g2 = greet_second i2 l2 (omega (arith, at_most_one r, at_most_one r')) s2 in
      let over =
        run_later rs 2 i2 (greets l2).0 (omega arith) (omega arith)
          (omega (arith, at_most_one r, at_most_one r')) g2.stage g2.seq in
      (
        both (greets l1).1 (greets l2).1 (run_received member sum_on sum_info rs (greets l2).0).1
            g1.numbers g2.numbers over.silent,
        run-Sends sum_oe sum_om es 2 n
            (run_received member sum_on sum_info rs (greets l2).0).0.session
            (omega (arith, at_most (r ∷ r' ∷ rs), enough))
            (over.seq, over.left ∙ what_is_left r r' rs n enough),
      )
