-- ===== src/Wallet/Activity/Laws.antt =====
-- The list of backend/apps/wallet/activity.py against the ledger.
use shortform_streaming.Prelude.{
  ℕ, suc, ◌+◌, ◌≤◌, ◌≡◌, refl, sym, ap, ◌∙◌, Bool, some, List, [], ◌∷◌, map, arith, inl, inr,
  select, take, length, length-take, length-sort_by, ltb, ◌==◌, Option-cases,
}
use shortform_streaming.Prelude.Int.{ℤ, pos, ◌+ℤ◌}
use shortform_streaming.Model.{CoinLedgerEntry, Settings, UserProfile, Wallet, Store}
use shortform_streaming.Wallet.Ledger.{wallet_of}
use shortform_streaming.Wallet.Activity.{
  Annotated, WalletActivityEntry, is_older, ledger_rows, annotate, activity_entry,
  list_wallet_activity, max_activity_entries,
}

-- The sum of the amounts of a list of rows.
abbrev total : List CoinLedgerEntry → ℤ
total [] = pos 0
total (e ∷ es) = e.amount +ℤ total es

-- The balance that the newest annotated row carries, `start` where there is none.
abbrev newest : ℤ → List Annotated → ℤ
newest start [] = start
newest start (a ∷ older) = a.balance_after

abbrev annotated_row : ℤ → CoinLedgerEntry → Annotated
annotated_row running row = record { row = row; balance_after = running +ℤ row.amount }

length-annotate :
    (running : ℤ) (done out : List Annotated) (rows : List CoinLedgerEntry)
    → annotate running done rows ≡ some out
    → length out ≡ length done + length rows
unfolding annotate
length-annotate running done out [] r = ground arith
length-annotate running done out (row ∷ rows) r =
    let rest =
      length-annotate (running +ℤ row.amount) (annotated_row running row ∷ done) out rows
        (ground arith) in
    omega (arith, rest)

-- What the list holds, where there is a wallet.
record ActivityRun (db : Store) (w : Wallet) (entries : List WalletActivityEntry) (more : Bool)
    (settings : Settings) (now : ℕ) : Type 0 where
  annotated : List Annotated
  run : annotate (pos 0) [] (ledger_rows db w.pk) ≡ some annotated
  shown : map (activity_entry settings db now) (take max_activity_entries annotated) ≡ entries
  counted : ltb max_activity_entries (length annotated) ≡ more

module _ (settings : Settings) (db : Store) (now : ℕ) (p : UserProfile) (w : Wallet) (more : Bool)
    (owned : wallet_of p db ≡ some w) where
  activity_run :
      (entries : List WalletActivityEntry)
      → list_wallet_activity settings db now p ≡ some (entries, more)
      → ActivityRun db w entries more settings now
  unfolding list_wallet_activity
  activity_run entries h = elim (Option-cases (annotate (pos 0) [] (ledger_rows db w.pk))) [
    | inl failed ↦ absurd (ground arith)
    | inr (annotated, run) ↦ record {
      annotated = annotated;
      run = run;
      shown = ground arith;
      counted = ground arith;
    }
  ]

  length-ledger_rows :
      length (ledger_rows db w.pk) ≡ length (select (λ e. e.wallet == w.pk) db.entries)
  unfolding ledger_rows
  length-ledger_rows = length-sort_by is_older _

  length-map : (xs : List Annotated) → length (map (activity_entry settings db now) xs) ≡ length xs
  length-map [] = refl
  length-map (x ∷ xs) = ap suc (length-map xs)

  -- The list has at most twenty lines, and it says that there are more exactly if the wallet has
  -- more than twenty entries.
  pub activity-page :
      (entries : List WalletActivityEntry)
      → list_wallet_activity settings db now p ≡ some (entries, more)
      → (length entries ≤ 20) × (more ≡ ltb 20 (length (select (λ e. e.wallet == w.pk) db.entries)))
  activity-page entries h =
      let run = activity_run entries h in
      let counted = length-annotate (pos 0) [] run.annotated _ run.run in
      let same : length run.annotated ≡ length (select (λ e. e.wallet == w.pk) db.entries) =
        omega (arith, counted, length-ledger_rows) in
      (
        omega (
          arith,
          ap length run.shown,
          length-map (take max_activity_entries run.annotated),
          length-take max_activity_entries run.annotated,
        ),
        sym run.counted ∙ ap (ltb max_activity_entries) same,
      )
