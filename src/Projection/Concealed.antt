-- ===== src/Projection/Concealed.antt =====
-- compose-projection.ts: what is shown of an auction that still takes bids.
use mathlib.Core.Path.{subst}
use cbdc_tokenization_sandbo.Prelude.{
  Bool, Bool-cases, Holds, Holds-bind, List, Option, Result, Text, [], case_result-holds, false,
  if◌then◌else◌, inl, inr, map, none, not, ok, ok-injective, refl, sequence_map, true, ℕ, ◌>>=◌,
  ◌∷◌, ◌≡◌, ◌⊎◌,
}
use cbdc_tokenization_sandbo.Allocation.{AbiCoder, AuctionType, UnsealedBid}
use cbdc_tokenization_sandbo.Database.{AuctionBidRow, ProjectionContext}
use cbdc_tokenization_sandbo.Projection.Snapshots.{AuctionSnapshot, BondSnapshot}
use cbdc_tokenization_sandbo.Projection.AuctionView.{
  AllocationView, AuctionView, BidView, allocation_from_snapshot, auction_type_of, auction_view,
  bid_views, compose_projected_auction, is_open, sealed, sealed_bid, unsealed, visible_bids,
}
use cbdc_tokenization_sandbo.Sealing.Bid.{SealedBid}
use cbdc_tokenization_sandbo.Projection.BondView.{BondView, compose_projected_bond}
use cbdc_tokenization_sandbo.Database.Table.{select_rows}

abbrev pub Unseal : Type 0
Unseal = Text → SealedBid → Option ℕ → Result UnsealedBid

-- The bid as the contract has it: its bidder, index, ciphertext and hash, and nothing of its plaintext.
abbrev pub IsSealed : AuctionBidRow → BidView → Type 0
IsSealed row (sealed bidder_name index ciphertext hash) =
    (bidder_name ≡ row.bidder)
    × (index ≡ row.bid_index)
    × (ciphertext ≡ row.ciphertext)
    × (hash ≡ row.plaintext_hash)
IsSealed row (unsealed bidder_name index bid_rate units) = ⊥

-- The views of the bids that are not cancelled, in their order.
unfoldable pub AreSealed : List AuctionBidRow → List BidView → Type 0
AreSealed [] views = views ≡ []
AreSealed (row ∷ rows) [] = (row.cancelled ≡ true) × AreSealed rows []
AreSealed (row ∷ rows) (view ∷ views) =
    ((row.cancelled ≡ true) × AreSealed rows (view ∷ views))
    ⊎ ((row.cancelled ≡ false) × IsSealed row view × AreSealed rows views)

-- The auction is over, or all its bids are shown as they were submitted.
abbrev pub Conceals : AuctionSnapshot → AuctionView → Type 0
Conceals snapshot view = (is_open view.status ≡ false) ⊎ AreSealed snapshot.bids view.bids

-- The two lists are equally long, and pairwise related.
abbrev pub Pairwise : {A B : Type 0} → (A → B → Type 0) → List A → List B → Type 0
Pairwise R [] [] = Unit
Pairwise R (x ∷ xs) (y ∷ ys) = R x y × Pairwise R xs ys
Pairwise R _ _ = ⊥

AreSealed-skip :
    (row : AuctionBidRow) (rows : List AuctionBidRow) (views : List BidView)
    → row.cancelled ≡ true
    → AreSealed rows views
    → AreSealed (row ∷ rows) views
unfolding AreSealed
AreSealed-skip row rows [] gone h = (gone, h)
AreSealed-skip row rows (view ∷ views) gone h = inl (gone, h)

-- One row before the rows whose views are known.
AreSealed-row :
    (row : AuctionBidRow) (rows kept : List AuctionBidRow) (gone : Bool)
    → row.cancelled ≡ gone
    → AreSealed rows (map sealed_bid kept)
    → AreSealed (row ∷ rows) (map sealed_bid (if not gone then row ∷ kept else kept))
unfolding sealed_bid AreSealed
AreSealed-row row rows kept true gone h = AreSealed-skip row rows (map sealed_bid kept) gone h
AreSealed-row row rows kept false there h = inr (there, (refl, refl, refl, refl), h)

map-sealed_bid-AreSealed :
    (rows : List AuctionBidRow)
    → AreSealed rows
        (map sealed_bid (select_rows (λ (row : AuctionBidRow). not row.cancelled) rows))
unfolding AreSealed select_rows
map-sealed_bid-AreSealed [] = refl
map-sealed_bid-AreSealed (row ∷ rows) =
    AreSealed-row row rows (select_rows (λ (r : AuctionBidRow). not r.cancelled) rows) row.cancelled
      refl (map-sealed_bid-AreSealed rows)

module _ (coder : AbiCoder) (unseal : Unseal) (now : ℕ) (snapshot : AuctionSnapshot)
    (context : ProjectionContext) where
  visible_bids-open :
      is_open snapshot.row.status ≡ true → visible_bids coder unseal snapshot false ≡ none
  unfolding visible_bids
  visible_bids-open e = rw (e) refl

  -- The rest of the composition, given the bids that can be seen.
  compose_from : Option (List UnsealedBid) → Result AuctionView
  compose_from visible = do
    type ← auction_type_of snapshot.row.type
    bids ← bid_views snapshot visible
    allocation ← allocation_from_snapshot coder now snapshot type visible
    ok (auction_view snapshot context type bids allocation)

  compose_from-Holds :
      (P : AuctionView → Type 0) (visible : Option (List UnsealedBid))
      → ((type : AuctionType) (bids : List BidView) (allocation : Option AllocationView)
          → bid_views snapshot visible ≡ ok bids
          → P (auction_view snapshot context type bids allocation))
      → Holds P (compose_from visible)
  unfolding compose_from
  compose_from-Holds P visible h =
      case_result-holds (Holds P) (auction_type_of snapshot.row.type) (λ e _. tt)
        λ type _.
          case_result-holds (Holds P) (bid_views snapshot visible) (λ e _. tt)
            λ bids shown.
              case_result-holds (Holds P) (allocation_from_snapshot coder now snapshot type visible)
                (λ e _. tt) (λ allocation _. h type bids allocation shown)

  compose_projected_auction-Conceals :
      Holds (Conceals snapshot) (compose_projected_auction coder unseal now snapshot context false)
  unfolding compose_projected_auction compose_from auction_view bid_views
  compose_projected_auction-Conceals = elim (Bool-cases (is_open snapshot.row.status)) [
    | inl biddable ↦ rw (visible_bids-open biddable) (
        compose_from-Holds (Conceals snapshot) none λ type bids allocation shown. inr (
          subst (AreSealed snapshot.bids) (ok-injective shown)
            (map-sealed_bid-AreSealed snapshot.bids)))
    | inr over ↦
        compose_from-Holds (Conceals snapshot) (visible_bids coder unseal snapshot false)
          (λ type bids allocation shown. inl over)
  ]

sequence_map-Pairwise :
    {A B : Type 0} (R : A → B → Type 0) (f : A → Result B) (xs : List A)
    → ((x : A) → Holds (R x) (f x))
    → Holds (Pairwise R xs) (sequence_map f xs)
sequence_map-Pairwise R f [] h = tt
sequence_map-Pairwise R f (x ∷ xs) h =
    Holds-bind (R x) (Pairwise R (x ∷ xs)) (f x) (λ y. sequence_map f xs >>= λ ys. ok (y ∷ ys))
      (h x)
      λ y py.
        Holds-bind (Pairwise R xs) (Pairwise R (x ∷ xs)) (sequence_map f xs) (λ ys. ok (y ∷ ys))
          (sequence_map-Pairwise R f xs h) (λ ys pys. (py, pys))

-- Unless open bids are to be revealed, the view of an auction that is open shows exactly the bids that
-- are not cancelled, each with its bidder, index, ciphertext and hash as they were submitted, and is
-- the same whatever unsealing the bids would return; and the view of a bond has one auction for each
-- of the snapshot, which is over or shows its bids in this way.
pub compose_projected-Conceals :
    (coder : AbiCoder) (unseal other : Unseal) (now : ℕ) (snapshot : AuctionSnapshot)
    (bond : BondSnapshot) (context : ProjectionContext)
    → is_open snapshot.row.status ≡ true
    → Holds
        (λ (view : AuctionView). AreSealed snapshot.bids view.bids)
        (compose_projected_auction coder unseal now snapshot context false)
      × (compose_projected_auction coder unseal now snapshot context false
          ≡ compose_projected_auction coder other now snapshot context false)
      × Holds
          (λ (view : BondView). Pairwise Conceals bond.auctions view.auctions)
          (compose_projected_bond coder unseal now bond)
unfolding compose_projected_auction compose_from auction_view bid_views compose_projected_bond
compose_projected-Conceals coder unseal other now snapshot bond context biddable = (
  rw (visible_bids-open coder unseal now snapshot context biddable) (
      compose_from-Holds coder unseal now snapshot context
        (λ (view : AuctionView). AreSealed snapshot.bids view.bids) none
        λ type bids allocation shown.
          subst (AreSealed snapshot.bids) (ok-injective shown)
            (map-sealed_bid-AreSealed snapshot.bids)),
  rw
      (
        visible_bids-open coder unseal now snapshot context biddable,
        visible_bids-open coder other now snapshot context biddable,
      )
      refl,
  Holds-bind (Pairwise Conceals bond.auctions)
      (λ (view : BondView). Pairwise Conceals bond.auctions view.auctions)
      (sequence_map
        (λ (auction : AuctionSnapshot).
          compose_projected_auction coder unseal now auction bond.context false)
        bond.auctions)
      _
      (sequence_map-Pairwise Conceals _ bond.auctions
        λ auction. compose_projected_auction-Conceals coder unseal now auction bond.context)
      (λ auctions concealed. concealed),
)
