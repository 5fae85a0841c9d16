-- ===== src/Depth/Stream/Routing.antt =====
-- The stream of Depth Data 20151224/main.cpp against the sequence of messages that each token gets.
use jansan.Common.{
  ◌≡◌, refl, ◌∙◌, ap, Option, none, some, List, [], ◌∷◌, ◌++◌, Bool, true, false, ℤ, pos, ◌=?ℤ◌,
  leb_ℤ, if◌then◌else◌, All, =?ℤ→eq, Bool-cases, Option-cases, inl, inr, subst,
}
use jansan.Common.Words.{◌+i◌}
use jansan.Messages.{FinalPrice}
use jansan.Depth.Bimap.{Bimap, IsBimap}
use jansan.Depth.Token.{Message, order, trade, TokenWise, on_message}
use jansan.Depth.Token.Refines.{IsSafe, on_message-Takes}
use jansan.Depth.Stream.Objects.{Follows, Follows-nil, Follows-trans, find-put, missed, reached}
use jansan.Depth.Stream.{Packet, Server, find_token, put_token, deliver, receive, receive_all}

-- The message of a packet, with its token.
abbrev pub content : Packet → Option (ℤ × Message)
content p =
    if p.msg_len =?ℤ pos 38
    then some (p.as_order.token, order p.as_order)
    else if p.msg_len =?ℤ pos 45
    then some (p.as_trade.token, trade p.as_trade)
    else none

abbrev pub if_for : ℤ → Option (ℤ × Message) → List Message
if_for t none = []
if_for t (some (u, msg)) = if u =?ℤ t then msg ∷ [] else []

-- What a packet after the sequence number `last` brings for a token: nothing if it is a heartbeat or
-- if its number is not the next one.
abbrev pub brings : ℤ → ℤ → Packet → List Message
brings t last p =
    if leb_ℤ p.msg_len (pos 13)
    then []
    else if (last +i pos 1) =?ℤ p.seq_no
    then if_for t (content p)
    else []

abbrev pub seen : ℤ → Packet → ℤ
seen last p = if leb_ℤ p.msg_len (pos 13) then last else p.seq_no

abbrev pub seen_all : ℤ → List Packet → ℤ
seen_all last [] = last
seen_all last (p ∷ ps) = seen_all (seen last p) ps

abbrev pub brings_all : ℤ → ℤ → List Packet → List Message
brings_all t last [] = []
brings_all t last (p ∷ ps) = brings t last p ++ brings_all t (seen last p) ps

module _ (b : Bimap) (laws : IsBimap b) (past_end : b.Map → ℤ) where
  -- A call ends well: the last sequence number, and what the object of each token becomes.
  abbrev pub Goes : (ℤ → List Message) → ℤ → Server b → Option (Server b × List FinalPrice) → Type 0
  Goes ms seq s o =
      (r : Server b × List FinalPrice) × (o ≡ some r)
      × (r.0.last_seq ≡ seq)
      × ((u : ℤ) → Follows b laws past_end (ms u) (find_token u s.tokens) (find_token u r.0.tokens))

  Goes-if :
      (c : Bool) (s : Server b) (ms ms' : ℤ → List Message) {q q' : ℤ}
      {o o' : Option (Server b × List FinalPrice)}
      → (c ≡ true → Goes ms q s o)
      → (c ≡ false → Goes ms' q' s o')
      → Goes (λ u. if c then ms u else ms' u) (if c then q else q') s (if c then o else o')
  Goes-if true s ms ms' h h' = h refl
  Goes-if false s ms ms' h h' = h' refl

  total :
      (msg : Message) (t : TokenWise b)
      → IsSafe b laws past_end msg
      → (r : TokenWise b × FinalPrice) × (on_message b past_end msg t ≡ some r)
  total msg t safe =
      let (r, h) =
        on_message-Takes b laws past_end msg
          (record { bids = λ j. b.find j t.bmp.bid_data; asks = λ j. b.find j t.bmp.ask_data }) t
          (λ j. refl, λ j. refl) safe in
      (r, h.0)

  deliver-Goes :
      (t : ℤ) (msg : Message) (s : Server b)
      → IsSafe b laws past_end msg
      → Goes (λ u. if t =?ℤ u then msg ∷ [] else []) s.last_seq s (deliver b past_end t msg s)
  unfolding deliver
  deliver-Goes t msg s safe = elim (Option-cases (find_token t s.tokens)) [
    | inl e ↦
        ((s, []), rw (e, deliver) refl, refl, λ u. missed b laws past_end t u (msg ∷ []) s.tokens e)
    | inr (tw, e) ↦
        let (r, f) = total msg tw safe in
        (
          (record s { tokens = put_token t r.0 s.tokens }, r.1 ∷ []),
          rw (e, deliver, f) refl,
          refl,
          λ u.
              rw (find-put b laws past_end t u r.0 tw s.tokens e)
                (reached b laws past_end t u msg tw r s.tokens e f),
        )
  ]

  Goes-content-if :
      (c : Bool) (s : Server b) (q : ℤ) (o o' : Option (ℤ × Message))
      {r r' : Option (Server b × List FinalPrice)}
      → Goes (λ u. if_for u o) q s r
      → Goes (λ u. if_for u o') q s r'
      → Goes (λ u. if_for u (if c then o else o')) q s (if c then r else r')
  Goes-content-if true s q o o' h h' = h
  Goes-content-if false s q o o' h h' = h'

  stays : (q : ℤ) (s : Server b) → Goes (λ u. []) q s (some (record s { last_seq = q }, []))
  stays q s = ((record s { last_seq = q }, []), refl, refl, λ u. Follows-nil b laws past_end _)

  abbrev dispatch : Packet → Server b → Option (Server b × List FinalPrice)
  dispatch p s =
      let next = record s { last_seq = s.last_seq +i pos 1 } in
      if p.msg_len =?ℤ pos 38
      then deliver b past_end p.as_order.token (order p.as_order) next
      else if p.msg_len =?ℤ pos 45
      then deliver b past_end p.as_trade.token (trade p.as_trade) next
      else some (next, [])

  dispatch-Goes :
      (p : Packet) (s : Server b)
      → IsSafe b laws past_end (order p.as_order)
      → Goes (λ u. if_for u (content p)) (s.last_seq +i pos 1) s (dispatch p s)
  dispatch-Goes p s safe =
      Goes-content-if (p.msg_len =?ℤ pos 38) s _ (some (p.as_order.token, order p.as_order))
        (if p.msg_len =?ℤ pos 45 then some (p.as_trade.token, trade p.as_trade) else none)
        (deliver-Goes p.as_order.token (order p.as_order) next safe)
        (Goes-content-if (p.msg_len =?ℤ pos 45) s _ (some (p.as_trade.token, trade p.as_trade)) none
          (deliver-Goes p.as_trade.token (trade p.as_trade) next tt)
          (stays (s.last_seq +i pos 1) s))
    where
      next : Server b
      next = record s { last_seq = s.last_seq +i pos 1 }

  pub receive-Goes :
      (p : Packet) (s : Server b)
      → IsSafe b laws past_end (order p.as_order)
      → Goes (λ u. brings u s.last_seq p) (seen s.last_seq p) s (receive b past_end p s)
  unfolding receive
  receive-Goes p s safe =
      Goes-if (leb_ℤ p.msg_len (pos 13)) s (λ u. [])
        (λ u. if (s.last_seq +i pos 1) =?ℤ p.seq_no then if_for u (content p) else [])
        (λ _. stays s.last_seq s)
        λ _. elim (Bool-cases ((s.last_seq +i pos 1) =?ℤ p.seq_no)) [
          | inl e ↦ rw e (
              subst (λ q. Goes (λ u. if_for u (content p)) q s (dispatch p s)) (=?ℤ→eq _ _ e)
                (dispatch-Goes p s safe))
          | inr e ↦ rw e (stays p.seq_no s)
        ]

  -- Any packets, whose orders are not read at the end of a map, are taken to their end. The object of
  -- each token has then had exactly the messages for that token out of the packets whose number was
  -- the next one, in their order; a token without an object still has none; and `LastSeq` is the
  -- number of the last packet that was no heartbeat.
  pub receive_all-Goes :
      (ps : List Packet) (s : Server b)
      → All (λ p. IsSafe b laws past_end (order p.as_order)) ps
      → Goes
          (λ u. brings_all u s.last_seq ps)
          (seen_all s.last_seq ps)
          s
          (receive_all b past_end ps s)
  unfolding receive_all
  receive_all-Goes [] s safe = ((s, []), refl, refl, λ u. Follows-nil b laws past_end _)
  receive_all-Goes (p ∷ ps) s (safe, safes) =
      let (r, e, q, f) = receive-Goes p s safe in
      let (r', e', q', f') = receive_all-Goes ps r.0 safes in
      (
        (r'.0, r.1 ++ r'.1),
        rw (e, receive_all, e') refl,
        q' ∙ ap (λ x. seen_all x ps) q,
        λ u. Follows-trans b laws past_end _ _ _ _ _ (f u) (
            subst
              (λ x.
                Follows b laws past_end (brings_all u x ps) (find_token u r.0.tokens)
                  (find_token u r'.0.tokens))
              q (f' u)),
      )
