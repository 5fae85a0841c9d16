-- ===== src/Session/Rounds.antt =====
-- Invitations and sequence numbers in the session of TapSignOn::SendToExchange
-- (OrderServer-20151216-AtHome/src/TapSignOn.cpp).
use jansan.Common.{
  ℕ, zero, suc, ◌+◌, ◌<◌, ◌^◌, ◌≡◌, refl, sym, ◌∙◌, ap, subst, arith, false, List, [], ◌∷◌, ◌++◌,
  map, length, length-append, ℤ, pos, ltb_ℤ, ◌=?ℤ◌, if_intro,
}
use jansan.Common.Words.{◌+i◌, ◌-i◌, ntohl}
use jansan.Messages.{OeRequestTr, OmRequestTr}
use jansan.Queue.{size, bid_queue, mkt_queue}
use jansan.Queue.Count.{+i_one, -i_one}
use jansan.Session.{
  Session, Sent, sent_oe, sent_om, may_send, pop_next, send_oe, send_om, send_out, round, run, step,
  invite, Event, turns, invites, pushes_bid, pushes_mkt,
}

abbrev pub sequence_of : Sent → ℤ
sequence_of (sent_oe o) = o.sequence_number
sequence_of (sent_om o) = o.sequence_number

-- n sequence numbers after k, as they stand in messages.
abbrev pub numbers_after : ℕ → ℕ → List ℤ
numbers_after k zero = []
numbers_after k (suc n) = ntohl (pos (k + 1)) ∷ numbers_after (k + 1) n

-- The session has sent up to the number k, and has n invitations.
abbrev pub At : ℕ → ℕ → Session → Type 0
At k n s = (s.seq_no ≡ pos k) × (s.invitation_count ≡ pos n)

-- Messages that a session sends from there: one invitation and one number for each.
abbrev pub Sends : ℕ → ℕ → Session × List Sent → Type 0
Sends k n r =
    (j m : ℕ) × ((j + m ≡ n)
      × (length r.1 ≡ j)
      × At (k + j) m r.0
      × (map sequence_of r.1 ≡ numbers_after k j))

pop_next-At : (k n : ℕ) (s : Session) → At k n s → At k n (pop_next s)
unfolding pop_next
pop_next-At k n s h =
    if_intro (At k n) (ltb_ℤ (pos 0) (size s.fill.mkt)) (λ _. h)
      λ _. if_intro (At k n) (ltb_ℤ (pos 0) (size s.fill.bid)) (λ _. h) λ _. h

plus_zero : (y : ℕ) → y ≡ y + 0
plus_zero y = omega arith

zero_plus : (y : ℕ) → 0 + y ≡ y
zero_plus y = omega arith

suc_plus : (i j : ℕ) → suc i + j ≡ suc (i + j)
suc_plus i j = omega arith

one_plus : (k i : ℕ) → k + 1 + i ≡ k + suc i
one_plus k i = omega arith

plus_assoc : (k j i : ℕ) → k + j + i ≡ k + (j + i)
plus_assoc k j i = omega arith

less_one : (n : ℕ) → suc n < 2 ^ 31 → pos (suc n) -i pos 1 ≡ pos n
less_one n h = ap (λ x. pos x -i pos 1) (suc_one n) ∙ -i_one n (omega arith)
  where
    suc_one : (n : ℕ) → suc n ≡ n + 1
    suc_one n = omega arith

At-zero : (k n : ℕ) (s : Session) → At k n s → At (k + 0) n s
At-zero k n s h = subst (λ i. At i n s) (plus_zero k) h

none_sent : (k n : ℕ) (s : Session) → At k n s → Sends k n (s, [])
none_sent k n s h = (0, n, (omega arith, refl, At-zero k n s h, refl))

numbers_after_plus :
    (k i j : ℕ) → numbers_after k (i + j) ≡ numbers_after k i ++ numbers_after (k + i) j
numbers_after_plus k zero j =
    ap (numbers_after k) (zero_plus j) ∙ ap (λ x. numbers_after x j) (plus_zero k)
numbers_after_plus k (suc i) j =
    ap (numbers_after k) (suc_plus i j)
    ∙ ap (◌∷◌ (ntohl (pos (k + 1)))) (
        numbers_after_plus (k + 1) i j
        ∙ ap (λ x. numbers_after (k + 1) i ++ numbers_after x j) (one_plus k i))

map-append :
    (xs ys : List Sent) → map sequence_of (xs ++ ys) ≡ map sequence_of xs ++ map sequence_of ys
map-append [] ys = refl
map-append (x ∷ xs) ys = ap (◌∷◌ (sequence_of x)) (map-append xs ys)

-- The invitations of a sequence of events.
abbrev pub invited : List Event → ℕ
invited [] = 0
invited (turns ∷ es) = invited es
invited (invites ∷ es) = suc (invited es)
invited (pushes_bid d ∷ es) = invited es
invited (pushes_mkt d ∷ es) = invited es

invite-At : (k n : ℕ) (s : Session) → n + 1 < 2 ^ 31 → At k n s → At k (n + 1) (invite s)
unfolding invite
invite-At k n s h (a, b) = (a, ap (λ x. x +i pos 1) b ∙ +i_one n h)

module _ (sum_oe : OeRequestTr → List ℕ) (sum_om : OmRequestTr → List ℕ) where
  send_oe-Sends :
      (k n : ℕ) (s : Session)
      → k + suc n < 2 ^ 31
      → At k (suc n) s
      → Sends k (suc n) (send_oe sum_oe sum_om s)
  unfolding send_oe
  send_oe-Sends k n s h (a, b) =
      let seq = ap (λ x. x +i pos 1) a ∙ +i_one k (omega arith) in
      let left = ap (λ x. x -i pos 1) b ∙ less_one n (omega arith) in
      (1, n, (omega arith, refl, (seq, left), ap (λ x. ntohl x ∷ []) seq))

  send_om-Sends :
      (k n : ℕ) (s : Session)
      → k + suc n < 2 ^ 31
      → At k (suc n) s
      → Sends k (suc n) (send_om sum_oe sum_om s)
  unfolding send_om
  send_om-Sends k n s h (a, b) =
      let seq = ap (λ x. x +i pos 1) a ∙ +i_one k (omega arith) in
      let left = ap (λ x. x -i pos 1) b ∙ less_one n (omega arith) in
      (1, n, (omega arith, refl, (seq, left), ap (λ x. ntohl x ∷ []) seq))

  send_out-Sends :
      (k n : ℕ) (s : Session)
      → k + suc n < 2 ^ 31
      → At k (suc n) s
      → Sends k (suc n) (send_out sum_oe sum_om s)
  unfolding send_out
  send_out-Sends k n s h a =
      if_intro (Sends k (suc n)) (s.out.size =?ℤ pos 136) (λ _. send_oe-Sends k n s h a)
        λ _.
          if_intro (Sends k (suc n)) (s.out.size =?ℤ pos 164) (λ _. send_om-Sends k n s h a)
            λ _. none_sent k (suc n) s a

  round-Sends :
      (k n : ℕ) (s : Session) → k + n < 2 ^ 31 → At k n s → Sends k n (round sum_oe sum_om s)
  unfolding round
  round-Sends k zero s h a =
      let shut : may_send s ≡ false = rw (a.1) refl in rw shut (none_sent k 0 s a)
  round-Sends k (suc n) s h a =
      if_intro (Sends k (suc n)) (may_send s)
        (λ _. send_out-Sends k n (pop_next s) h (pop_next-At k (suc n) s a))
        λ _. none_sent k (suc n) s a

  -- A session that has done something and sent r.1 goes on.
  Sends-run :
      (k n i : ℕ) (r : Session × List Sent) (es : List Event)
      → Sends k n r
      → ((j m : ℕ)
          → k + j + m ≡ k + n
          → At (k + j) m r.0
          → Sends (k + j) (m + i) (run sum_oe sum_om es r.0))
      → Sends k (n + i) ((run sum_oe sum_om es r.0).0, r.1 ++ (run sum_oe sum_om es r.0).1)
  Sends-run k n i r es (j, m, (e, l, at, nums)) go =
      let (j', m', (e', l', at', nums')) = go j m (omega arith) at in
      (
        j + j',
        m',
        (
          omega arith,
          length-append r.1 _ ∙ omega (arith, l, l'),
          subst (λ x. At x m' (run sum_oe sum_om es r.0).0) (plus_assoc k j j') at',
          map-append r.1 _
              ∙ ap (λ x. x ++ map sequence_of (run sum_oe sum_om es r.0).1) nums
              ∙ ap (λ x. numbers_after k j ++ x) nums'
              ∙ sym (numbers_after_plus k j j'),
        ),
      )

  -- Rounds of the loop, new invitations and new orders, in any order: the session sends at most as many
  -- messages as the exchange has invited, uses up one invitation for each, and numbers them one after
  -- the other, as long as numbers and invitations fit in an `int`.
  pub run-Sends :
      (es : List Event) (k n : ℕ) (s : Session)
      → k + n + invited es < 2 ^ 31
      → At k n s
      → Sends k (n + invited es) (run sum_oe sum_om es s)
  unfolding run step
  run-Sends [] k n s h a = none_sent k (n + 0) s (a.0, a.1 ∙ ap pos (plus_zero n))
  run-Sends (turns ∷ es) k n s h a =
      Sends-run k n (invited es) (round sum_oe sum_om s) es (round-Sends k n s (omega arith) a)
        λ j m e at. run-Sends es (k + j) m (round sum_oe sum_om s).0 (omega arith) at
  run-Sends (invites ∷ es) k n s h a =
      subst (λ x. Sends k x (run sum_oe sum_om es (invite s))) (one_plus n (invited es))
        (run-Sends es k (n + 1) (invite s) (omega arith) (invite-At k n s (omega arith) a))
  run-Sends (pushes_bid d ∷ es) k n s h a =
      run-Sends es k n (record s { fill = bid_queue d s.fill }) h a
  run-Sends (pushes_mkt d ∷ es) k n s h a =
      run-Sends es k n (record s { fill = mkt_queue d s.fill }) h a
