-- ===== src/Relay/Session/Traffic.antt =====
-- What a session sends on, counts and limits.
use kd_desk_tc.Prelude.{
  ℕ, ◌+◌, ◌*◌, ◌^◌, ◌<◌, ◌≡◌, refl, sym, subst, ap, ◌∙◌, arith, true, none, some, List, [], ◌∷◌,
  ◌++◌, All, length,
}
use mathlib.Core.List.{append_assoc, append-nil}
use kd_desk_tc.Relay.Session.{
  Params, Session, Limited, limiter, blacklist_limiter, Seen, Event, from_peer, from_stream, tick,
  Round, running, ended, bailed, round, relay, relay_on,
}

-- The packets of one side that are not empty, in order.
pub packets_of_peer : List (Seen × Event) → List (List ℕ)
packets_of_peer [] = []
packets_of_peer ((seen, from_peer (some (b ∷ bs))) ∷ rest) = (b ∷ bs) ∷ packets_of_peer rest
packets_of_peer ((seen, event) ∷ rest) = packets_of_peer rest

pub packets_of_stream : List (Seen × Event) → List (List ℕ)
packets_of_stream [] = []
packets_of_stream ((seen, from_stream (some (b ∷ bs))) ∷ rest) = (b ∷ bs) ∷ packets_of_stream rest
packets_of_stream ((seen, event) ∷ rest) = packets_of_stream rest

running_inj : (a b : Session) → running a ≡ running b → a ≡ b
running_inj a b e = cc

-- One round that goes on: its packet is sent on, and nothing else is.
round-sends :
    (p : Params) (seen : Seen) (event : Event) (c d : Session)
    → round p seen event c ≡ running d
    → (d.to_stream ≡ c.to_stream ++ packets_of_peer ((seen, event) ∷ []))
      × (d.to_peer ≡ c.to_peer ++ packets_of_stream ((seen, event) ∷ []))
unfolding round packets_of_peer packets_of_stream
round-sends p seen (from_peer none) c d e = absurd (cc)
round-sends p seen (from_stream none) c d e = absurd (cc)
round-sends p seen tick c d e = ground (arith, append-nil c.to_stream, append-nil c.to_peer)
round-sends p seen (from_peer (some [])) c d e =
    ground (arith, append-nil c.to_stream, append-nil c.to_peer)
round-sends p seen (from_peer (some (b ∷ bs))) c d e =
    ground (arith, append-nil c.to_stream, append-nil c.to_peer)
round-sends p seen (from_stream (some [])) c d e =
    ground (arith, append-nil c.to_stream, append-nil c.to_peer)
round-sends p seen (from_stream (some (b ∷ bs))) c d e =
    ground (arith, append-nil c.to_stream, append-nil c.to_peer)

-- A running round after the first leaves from the session that the first gave.
relay-first :
    (p : Params) (seen : Seen) (event : Event) (rest : List (Seen × Event)) (c d : Session)
    → relay p ((seen, event) ∷ rest) c ≡ running d
    → (m : Session) × (round p seen event c ≡ running m) × (relay p rest m ≡ running d)
unfolding relay
relay-first p seen event rest c d e = first (round p seen event c) refl e
  where
    first :
        (r : Round)
        → round p seen event c ≡ r
        → relay_on (relay p rest) r ≡ running d
        → (m : Session) × (round p seen event c ≡ running m) × (relay p rest m ≡ running d)
    first (running m) h k = (m, h, k)
    first (ended m) h k = absurd (cc)
    first (bailed m) h k = absurd (cc)

packets_of_peer-∷ :
    (x : Seen × Event) (rest : List (Seen × Event))
    → packets_of_peer (x ∷ rest) ≡ packets_of_peer (x ∷ []) ++ packets_of_peer rest
unfolding packets_of_peer
packets_of_peer-∷ (seen, from_peer none) rest = refl
packets_of_peer-∷ (seen, from_peer (some [])) rest = refl
packets_of_peer-∷ (seen, from_peer (some (b ∷ bs))) rest = refl
packets_of_peer-∷ (seen, from_stream o) rest = refl
packets_of_peer-∷ (seen, tick) rest = refl

packets_of_stream-∷ :
    (x : Seen × Event) (rest : List (Seen × Event))
    → packets_of_stream (x ∷ rest) ≡ packets_of_stream (x ∷ []) ++ packets_of_stream rest
unfolding packets_of_stream
packets_of_stream-∷ (seen, from_stream none) rest = refl
packets_of_stream-∷ (seen, from_stream (some [])) rest = refl
packets_of_stream-∷ (seen, from_stream (some (b ∷ bs))) rest = refl
packets_of_stream-∷ (seen, from_peer o) rest = refl
packets_of_stream-∷ (seen, tick) rest = refl

-- As long as a session runs, it has sent to each side exactly the packets of the other side that
-- are not empty, in order, behind what it had sent before.
pub relay-sends :
    (p : Params) (events : List (Seen × Event)) (c d : Session)
    → relay p events c ≡ running d
    → (d.to_stream ≡ c.to_stream ++ packets_of_peer events)
      × (d.to_peer ≡ c.to_peer ++ packets_of_stream events)
unfolding packets_of_peer packets_of_stream
relay-sends p [] c d e =
    let same : c ≡ d = running_inj c d (unfold relay in e) in
    rw (append-nil c.to_stream, append-nil c.to_peer)
      (ap (λ x. x.to_stream) (sym same), ap (λ x. x.to_peer) (sym same))
relay-sends p ((seen, event) ∷ rest) c d e =
    let (m, h, k) = relay-first p seen event rest c d e in
    let now = round-sends p seen event c m h in
    let later = relay-sends p rest m d k in
    (
      later.0
          ∙ ap (λ x. x ++ packets_of_peer rest) now.0
          ∙ append_assoc c.to_stream (packets_of_peer ((seen, event) ∷ [])) (packets_of_peer rest)
          ∙ ap (λ x. c.to_stream ++ x) (sym (packets_of_peer-∷ (seen, event) rest)),
      later.1
          ∙ ap (λ x. x ++ packets_of_stream rest) now.1
          ∙ append_assoc c.to_peer (packets_of_stream ((seen, event) ∷ [])) (packets_of_stream rest)
          ∙ ap (λ x. c.to_peer ++ x) (sym (packets_of_stream-∷ (seen, event) rest)),
    )

-- The bits of the packets of both sides.
unfoldable pub bits_of : Event → ℕ
bits_of (from_peer (some bytes)) = length bytes * 8
bits_of (from_stream (some bytes)) = length bytes * 8
bits_of event = 0

unfoldable pub traffic : List (Seen × Event) → ℕ
unfolding bits_of
traffic [] = 0
traffic ((seen, event) ∷ rest) = bits_of event + traffic rest

round-total :
    (p : Params) (seen : Seen) (event : Event) (c d : Session)
    → c.total + bits_of event < 2 ^ 64
    → round p seen event c ≡ running d
    → d.total ≡ c.total + bits_of event
unfolding round bits_of
round-total p seen (from_peer none) c d l e = absurd (cc)
round-total p seen (from_stream none) c d l e = absurd (cc)
round-total p seen tick c d l e = ground arith
round-total p seen (from_peer (some [])) c d l e = ground arith
round-total p seen (from_peer (some (b ∷ bs))) c d l e = ground arith
round-total p seen (from_stream (some [])) c d l e = ground arith
round-total p seen (from_stream (some (b ∷ bs))) c d l e = ground arith

-- As long as a session runs, and its bits fit in 64 bits, its total is eight times the bytes that
-- came in from both sides, added to the total before.
relay-total :
    (p : Params) (events : List (Seen × Event)) (c d : Session)
    → c.total + traffic events < 2 ^ 64
    → relay p events c ≡ running d
    → d.total ≡ c.total + traffic events
unfolding traffic
relay-total p [] c d l e =
    let same : c ≡ d = running_inj c d (unfold relay in e) in rw (sym same) (omega arith)
relay-total p ((seen, event) ∷ rest) c d l e =
    let (m, h, k) = relay-first p seen event rest c d e in
    let now = round-total p seen event c m (omega arith) h in
    omega (arith, relay-total p rest m d (omega arith) k)

-- The bits that were asked of the limiter that is not for the black list.
pub fast_bits : List (Limited × ℕ) → ℕ
fast_bits [] = 0
fast_bits ((limiter, n) ∷ rest) = n + fast_bits rest
fast_bits ((blacklist_limiter, n) ∷ rest) = fast_bits rest

fast_bits-slow :
    (xs : List (Limited × ℕ)) (n : ℕ)
    → fast_bits (xs ++ ((blacklist_limiter, n) ∷ [])) ≡ fast_bits xs
unfolding fast_bits
fast_bits-slow [] n = refl
fast_bits-slow ((limiter, m) ∷ xs) n = ap (λ t. m + t) (fast_bits-slow xs n)
fast_bits-slow ((blacklist_limiter, m) ∷ xs) n = fast_bits-slow xs n

round_slow :
    (p : Params) (seen : Seen) (event : Event) (c d : Session)
    → c.downgrade ≡ true
    → round p seen event c ≡ running d
    → (d.downgrade ≡ true) × (fast_bits d.consumed ≡ fast_bits c.consumed)
unfolding round
round_slow p seen (from_peer none) c d g e = absurd (cc)
round_slow p seen (from_stream none) c d g e = absurd (cc)
round_slow p seen tick c d g e = ground arith
round_slow p seen (from_peer (some [])) c d g e = grind (arith, fast_bits-slow)
round_slow p seen (from_peer (some (b ∷ bs))) c d g e = grind (arith, fast_bits-slow)
round_slow p seen (from_stream (some [])) c d g e = grind (arith, fast_bits-slow)
round_slow p seen (from_stream (some (b ∷ bs))) c d g e = grind (arith, fast_bits-slow)

-- A session that has been downgraded stays so, and asks no more bits of the limiter for other
-- sessions.
pub relay_slow :
    (p : Params) (events : List (Seen × Event)) (c d : Session)
    → c.downgrade ≡ true
    → relay p events c ≡ running d
    → (d.downgrade ≡ true) × (fast_bits d.consumed ≡ fast_bits c.consumed)
relay_slow p [] c d g e =
    let same : c ≡ d = running_inj c d (unfold relay in e) in rw (sym same) (g, refl)
relay_slow p ((seen, event) ∷ rest) c d g e =
    let (m, h, k) = relay-first p seen event rest c d e in
    let now = round_slow p seen event c m g h in
    let later = relay_slow p rest m d now.0 k in (later.0, later.1 ∙ now.1)

round_blocked :
    (p : Params) (seen : Seen) (event : Event) (c d : Session)
    → seen.in_blocklist ≡ true
    → seen.now < 2 ^ 64
    → round p seen event c ≡ running d
    → (seen.now < c.tm + 1000) × (d.tm ≡ c.tm)
unfolding round
round_blocked p seen (from_peer none) c d b w e = absurd (cc)
round_blocked p seen (from_stream none) c d b w e = absurd (cc)
round_blocked p seen tick c d b w e = ground arith
round_blocked p seen (from_peer (some [])) c d b w e = ground arith
round_blocked p seen (from_peer (some (x ∷ xs))) c d b w e = ground arith
round_blocked p seen (from_stream (some [])) c d b w e = ground arith
round_blocked p seen (from_stream (some (x ∷ xs))) c d b w e = ground arith

-- While the IP of a session is on the block list, each event that the session survives is less than
-- a second after the last check.
pub relay_blocked :
    (p : Params) (events : List (Seen × Event)) (c d : Session)
    → All (λ x. (x.0.in_blocklist ≡ true) × (x.0.now < 2 ^ 64)) events
    → relay p events c ≡ running d
    → All (λ x. x.0.now < c.tm + 1000) events
relay_blocked p [] c d b e = tt
relay_blocked p ((seen, event) ∷ rest) c d b e =
    let (m, h, k) = relay-first p seen event rest c d e in
    let now = round_blocked p seen event c m b.0.0 b.0.1 h in
    (now.0, subst (λ t. All (λ x. x.0.now < t + 1000) rest) now.1 (relay_blocked p rest m d b.1 k))
