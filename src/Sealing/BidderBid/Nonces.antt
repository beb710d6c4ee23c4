-- ===== src/Sealing/BidderBid/Nonces.antt =====
-- bidder-bid.ts: the nonces of the bids that one process makes.
use cbdc_tokenization_sandbo.Prelude.{List, [], arith, ℕ, ◌*◌, ◌+◌, ◌<◌, ◌∷◌, ◌≤◌}
use cbdc_tokenization_sandbo.Sealing.BidderBid.{next_bidder_nonce}

-- The nonces of a run: one bid at each time of the clock, from a counter on.
unfoldable pub bidder_nonces : ℕ → List ℕ → List ℕ
unfolding next_bidder_nonce
bidder_nonces counter [] = []
bidder_nonces counter (now ∷ times) =
    let next = next_bidder_nonce now counter in next.1 ∷ bidder_nonces next.0 times

-- Every number of a list is above a bound, and the list increases from there.
abbrev pub Increases : ℕ → List ℕ → Type 0
Increases bound [] = Unit
Increases bound (n ∷ ns) = (bound < n) × Increases n ns

-- A clock that does not go back.
abbrev pub IsClock : ℕ → List ℕ → Type 0
IsClock start_time [] = Unit
IsClock start_time (now ∷ times) = (start_time ≤ now) × IsClock now times

-- While the clock does not go back, every nonce is larger than all before it: no two bids of a
-- process have the same nonce, whatever was built in the same millisecond.
pub bidder_nonces-Increases :
    (start_time counter : ℕ) (times : List ℕ)
    → IsClock start_time times
    → Increases (start_time * 1000 + counter) (bidder_nonces counter times)
unfolding bidder_nonces
bidder_nonces-Increases start_time counter [] clock = tt
bidder_nonces-Increases start_time counter (now ∷ times) clock =
    (omega arith, bidder_nonces-Increases now (counter + 1) times clock.1)
