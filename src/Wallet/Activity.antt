-- ===== src/Wallet/Activity.antt =====
-- backend/apps/wallet/activity.py: the account's own view of its ledger.
pub mod Laws
use shortform_streaming.Prelude.{
  ℕ, String, Bool, false, ◌&&◌, ◌||◌, Option, none, some, List, [], ◌∷◌, map, if◌then◌else◌, find,
  select, take, length, sort_by, ltb, ◌==◌, is_just,
}
use shortform_streaming.Prelude.Int.{ℤ, pos, neg_ℕ, ◌+ℤ◌, ltb_ℤ}
use shortform_streaming.Model.{
  Kind, CoinLedgerEntry, CoinUnlock, Settings, UserProfile, Store, max_entry_coins,
  max_balance_coins,
}
use shortform_streaming.Catalog.Episodes.{episode_is_eligible, lock_episode_by_public_id}
use shortform_streaming.Wallet.Ledger.{wallet_of}

abbrev pub max_activity_entries : ℕ
max_activity_entries = 20

-- A ledger row with the balance after it.
pub record Annotated : Type 0 where
  pub row : CoinLedgerEntry
  pub balance_after : ℤ

-- `WalletActivityEntry`
pub record WalletActivityEntry : Type 0 where
  pub id : ℕ
  pub kind : Kind
  pub amount : ℤ
  pub balance_after : ℤ
  pub created_at : ℕ
  pub episode_id : Option ℕ
  pub episode_title : Option String

-- `order_by("created_at", "id")`
abbrev pub is_older : CoinLedgerEntry → CoinLedgerEntry → Bool
is_older a b = ltb a.created_at b.created_at || (a.created_at == b.created_at && ltb a.pk b.pk)

unfoldable pub ledger_rows : Store → ℕ → List CoinLedgerEntry
unfolding sort_by
ledger_rows db w = sort_by is_older (select (λ e. e.wallet == w) db.entries)

unfoldable pub outside_public_range : ℤ → ℤ → Bool
outside_public_range running amount =
    ltb_ℤ running (pos 0)
    || ltb_ℤ (pos max_balance_coins) running
    || ltb_ℤ amount (neg_ℕ max_entry_coins)
    || ltb_ℤ (pos max_entry_coins) amount

-- The loop over the rows; `done` lists the annotated rows newest first. `none` is the ValueError.
unfoldable pub annotate : ℤ → List Annotated → List CoinLedgerEntry → Option (List Annotated)
unfolding outside_public_range
annotate running done [] = some done
annotate running done (row ∷ rows) =
    let balance_after = running +ℤ row.amount in
    let rest =
      annotate balance_after (record { row = row; balance_after = balance_after } ∷ done) rows in
    if outside_public_range balance_after row.amount then none else rest

-- `unlock_receipt` of a row
unfoldable pub unlock_receipt : Store → CoinLedgerEntry → Option CoinUnlock
unlock_receipt db row = find (λ u. is_just row.pk u.ledger_entry) db.unlocks

-- `_eligible_titles`, for one public id
unfoldable pub eligible_title : Settings → Store → ℕ → ℕ → Option String
eligible_title settings db now public_id = elim (lock_episode_by_public_id db public_id) [
  | none ↦ none
  | some e ↦ if episode_is_eligible settings db now e then some e.title else none
]

-- What a row tells of its episode: its id and its title.
unfoldable pub named_episode : Settings → Store → ℕ → CoinLedgerEntry → Option (ℕ × String)
unfolding unlock_receipt eligible_title
named_episode settings db now row = elim (unlock_receipt db row) [
  | none ↦ none
  | some u ↦ elim (eligible_title settings db now u.episode_public_id) [
    | none ↦ none
    | some title ↦ some (u.episode_public_id, title)
  ]
]

-- `_entry`
unfoldable pub activity_entry : Settings → Store → ℕ → Annotated → WalletActivityEntry
unfolding named_episode
activity_entry settings db now a = record {
  id = a.row.reference;
  kind = a.row.kind;
  amount = a.row.amount;
  balance_after = a.balance_after;
  created_at = a.row.created_at;
  episode_id = elim (named_episode settings db now a.row) [ none ↦ none | some x ↦ some x.0 ];
  episode_title = elim (named_episode settings db now a.row) [ none ↦ none | some x ↦ some x.1 ];
}

-- The last rows, newest first, and whether there are more.
abbrev pub activity_page : Settings → Store → ℕ → List Annotated → List WalletActivityEntry × Bool
activity_page settings db now annotated = (
  map (activity_entry settings db now) (take max_activity_entries annotated),
  ltb max_activity_entries (length annotated),
)

-- `now` is the clock of `_eligible_titles`.
unfoldable pub list_wallet_activity :
    Settings → Store → ℕ → UserProfile → Option (List WalletActivityEntry × Bool)
unfolding annotate ledger_rows activity_entry
list_wallet_activity settings db now profile = elim (wallet_of profile db) [
  | none ↦ some ([], false)
  | some w ↦ elim (annotate (pos 0) [] (ledger_rows db w.pk)) [
    | none ↦ none
    | some annotated ↦ some (activity_page settings db now annotated)
  ]
]
