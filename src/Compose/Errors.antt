-- ===== src/Compose/Errors.antt =====
-- compose.ts: what is returned for an auction that is missing or not ready, and which auctions are in
-- the list of all.
use mathlib.Core.List.{Perm}
use mathlib.Core.Path.{subst}
use cbdc_tokenization_sandbo.Prelude.{
  ==_iff, Bool, Bool-cases, Holds, Holds-any, Holds-bind, Holds-map, List, Option-cases, Result,
  Text, [], ap, ap₂, arith, case_option, codes, dependency_unavailable, err, if◌then◌else◌, inl,
  inr, length, map, none, ok, refl, sequence_map, some, suc, sym, true, ℕ, ◌++◌, ◌==◌, ◌>>=◌, ◌∙◌,
  ◌∷◌, ◌≡◌,
}
use cbdc_tokenization_sandbo.Database.Records.Order.{map-order_by-Perm}
use cbdc_tokenization_sandbo.Database.{
  AuctionRow, AuctionStatus, ProjectionContext, ProjectionTables,
}
use cbdc_tokenization_sandbo.Projection.AuctionView.{
  AuctionView, allocation_from_snapshot, auction_type_of, auction_view, bid_views,
  compose_projected_auction, visible_bids,
}
use cbdc_tokenization_sandbo.Allocation.{AbiCoder}
use cbdc_tokenization_sandbo.Database.Queries.{get_auction_row_by_id, list_all_auctions}
use cbdc_tokenization_sandbo.Projection.Snapshots.{
  AuctionSnapshot, ProjectionCheckpoint, load_all_auction_snapshots, load_auction,
  load_auction_snapshot, projection_head,
}
use cbdc_tokenization_sandbo.Compose.{ComposeOptions, compose_all_auctions, compose_auction}
use cbdc_tokenization_sandbo.Projection.Concealed.{Unseal}

map-length : {A B : Type 0} (f : A → B) (xs : List A) → length (map f xs) ≡ length xs
map-length f [] = refl
map-length f (x ∷ xs) = ap suc (map-length f xs)

-- What identifies an auction in its row and in its view.
abbrev pub row_key : AuctionRow → Text × Text × AuctionStatus
row_key row = (row.auction_id, row.isin, row.status)

abbrev pub view_key : AuctionView → Text × Text × AuctionStatus
view_key view = (view.id, view.isin, view.status)

abbrev Head : Type 0
Head = ProjectionContext × ProjectionCheckpoint

-- What the results show of the list that they are computed from.
pub sequence_map-keys :
    {A B K : Type 0} (f : A → Result B) (key : B → K) (key_of : A → K) (xs : List A)
    → ((x : A) → Holds (λ (y : B). key y ≡ key_of x) (f x))
    → Holds (λ (ys : List B). map key ys ≡ map key_of xs) (sequence_map f xs)
sequence_map-keys f key key_of [] same = refl
sequence_map-keys f key key_of (x ∷ xs) same =
    Holds-bind (λ y. key y ≡ key_of x) (λ ys. map key ys ≡ key_of x ∷ map key_of xs) (f x)
      (λ y. sequence_map f xs >>= λ ys. ok (y ∷ ys)) (same x)
      λ y e.
        Holds-bind (λ ys. map key ys ≡ map key_of xs) (λ ys. map key ys ≡ key_of x ∷ map key_of xs)
          (sequence_map f xs) (λ ys. ok (y ∷ ys)) (sequence_map-keys f key key_of xs same)
          (λ ys es. ap₂ ◌∷◌ e es)

module _ (coder : AbiCoder) (unseal : Unseal) (contract : Text) (now : ℕ)
    (text_leb : Text → Text → Bool) where
  abbrev all_views :
      Head → ProjectionTables → ComposeOptions → List AuctionRow → Result (List AuctionView)
  all_views head db options rows =
      sequence_map
        (λ (auction : AuctionSnapshot).
          compose_projected_auction coder unseal now auction head.0 options.reveal_open_bids)
        (map (load_auction db) rows)

  -- With the projection's context and checkpoint in place, composeAllAuctions composes every auction of
  -- the table in the order of the query, and composeAuction the one of the id, null if there is none;
  -- they throw only what the composition of an auction throws.
  pub compose_auctions-ready :
      (db : ProjectionTables) (options : ComposeOptions) (auction_id : Text) (head : Head)
      → projection_head contract db ≡ some head
      → (compose_all_auctions coder unseal contract now text_leb db options
          ≡ all_views head db options (list_all_auctions text_leb db))
        × (compose_auction coder unseal contract now db auction_id options
            ≡ case_option (get_auction_row_by_id auction_id db) (ok none) (λ row.
              compose_projected_auction coder unseal now
                (load_auction db row)
                head.0
                options.reveal_open_bids
              >>= λ view. ok (some view)))
  unfolding compose_all_auctions compose_auction load_all_auction_snapshots load_auction_snapshot
  compose_auctions-ready db options auction_id head ready =
      let same : (length (map (load_auction db) (list_all_auctions text_leb db))
            == length (list_all_auctions text_leb db))
          ≡ true =
        (==_iff _ _).1 (map-length (load_auction db) (list_all_auctions text_leb db)) in
      (
        rw (ready, same) refl,
        elim (Option-cases (get_auction_row_by_id auction_id db)) [
          | inl unknown ↦ rw (unknown) refl
          | inr (row, known) ↦ rw (known, ready) refl
        ],
      )

  -- Without the projection's context or checkpoint, composeAllAuctions throws the dependency error
  -- unless there is no auction, and composeAuction unless there is none of the id.
  pub compose_auctions-unready :
      (db : ProjectionTables) (options : ComposeOptions) (auction_id : Text)
      → projection_head contract db ≡ none
      → (compose_all_auctions coder unseal contract now text_leb db options ≡ (
          if length (list_all_auctions text_leb db) == 0
          then ok []
          else err (dependency_unavailable (codes "auctions"))))
        × (compose_auction coder unseal contract now db auction_id options
            ≡ case_option
                (get_auction_row_by_id auction_id db)
                (ok none)
                (λ _. err (dependency_unavailable (codes "auction " ++ auction_id))))
  unfolding compose_all_auctions compose_auction load_all_auction_snapshots load_auction_snapshot
  compose_auctions-unready db options auction_id unready = (
    rw (unready) refl,
    elim (Option-cases (get_auction_row_by_id auction_id db)) [
      | inl unknown ↦ rw (unknown) refl
      | inr (row, known) ↦ rw (known, unready) refl
    ],
  )

  view_key-composed :
      (context : ProjectionContext) (reveal : Bool) (snapshot : AuctionSnapshot)
      → Holds
          (λ (view : AuctionView). view_key view ≡ row_key snapshot.row)
          (compose_projected_auction coder unseal now snapshot context reveal)
  unfolding compose_projected_auction auction_view
  view_key-composed context reveal snapshot =
      Holds-any _ (auction_type_of snapshot.row.type) _ (λ type.
        Holds-any _ (bid_views snapshot (visible_bids coder unseal snapshot reveal)) _ (λ bids.
          Holds-any _
            (allocation_from_snapshot coder now snapshot type
              (visible_bids coder unseal snapshot reveal))
            _ (λ allocation. refl)))

  row_keys-loaded :
      (db : ProjectionTables) (rows : List AuctionRow)
      → map (λ (snapshot : AuctionSnapshot). row_key snapshot.row) (map (load_auction db) rows)
        ≡ map row_key rows
  unfolding load_auction
  row_keys-loaded db [] = refl
  row_keys-loaded db (row ∷ rows) = ap (row_key row ∷◌) (row_keys-loaded db rows)

  listed-Perm :
      (db : ProjectionTables)
      → Perm (map row_key (list_all_auctions text_leb db)) (map row_key db.auctions)
  unfolding list_all_auctions
  listed-Perm db = map-order_by-Perm _ row_key db.auctions

  no_rows : {A : Type 0} (xs : List A) → (length xs == 0) ≡ true → xs ≡ []
  no_rows [] e = refl
  no_rows (x ∷ xs) e = absurd (ground arith)

  -- If composeAllAuctions returns, its views are the auctions of the table, each exactly once, with the
  -- id, the ISIN and the status of its row, in some order.
  pub compose_all_auctions-Perm :
      (db : ProjectionTables) (options : ComposeOptions)
      → Holds
          (λ (views : List AuctionView). Perm (map view_key views) (map row_key db.auctions))
          (compose_all_auctions coder unseal contract now text_leb db options)
  compose_all_auctions-Perm db options = elim (Option-cases (projection_head contract db)) [
    | inl unready ↦
        rw ((compose_auctions-unready db options [] unready).0)
          (elim (Bool-cases (length (list_all_auctions text_leb db) == 0)) [
            | inl empty_table ↦
                let none_listed = no_rows (list_all_auctions text_leb db) empty_table in
                rw (empty_table) (
                  subst
                    (λ (rows : List AuctionRow). Perm (map row_key rows) (map row_key db.auctions))
                    none_listed (listed-Perm db))
            | inr some_rows ↦ rw (some_rows) tt
          ])
    | inr (head, ready) ↦ rw ((compose_auctions-ready db options [] head ready).0) (
        Holds-map _ _ (all_views head db options (list_all_auctions text_leb db))
          (sequence_map-keys _ view_key (λ (snapshot : AuctionSnapshot). row_key snapshot.row)
            (map (load_auction db) (list_all_auctions text_leb db))
            (view_key-composed head.0 options.reveal_open_bids))
          (λ views keys.
            subst (λ (ks : List (Text × Text × AuctionStatus)). Perm ks (map row_key db.auctions))
              (sym (keys ∙ row_keys-loaded db (list_all_auctions text_leb db))) (listed-Perm db)))
  ]
