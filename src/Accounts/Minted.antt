-- ===== src/Accounts/Minted.antt =====
-- What the source knows of the minted accounts.
use soroban_fork.Prelude.{
  ℕ, zero, suc, ◌≡◌, ◌≢◌, ◌⊎◌, inl, inr, refl, ap, subst, ◌∙◌, none, some, Option, List, [], ◌∷◌,
  ◌++◌, arith, Bool-cases, get_elem?,
}
use soroban_fork.Prelude.Int.{ℤ}
use soroban_fork.Prelude.Outcome.{ok}
use soroban_fork.Prelude.Assoc.{insert, lookup-insert, lookup-insert_self}
use soroban_fork.Xdr.{Bytes}
use soroban_fork.Ledger.{LedgerKey, LedgerEntry, TrustLineAsset, ledger_key_eq, key_eq, key_eq_iff}
use soroban_fork.Source.{Source, Codec, IsCodec, preload, encode_entry}
use soroban_fork.Source.View.{Known, known, view}
use soroban_fork.Accounts.{TestAccount, ledger_entry, trustline_entry, trustline_preloads, preloads}

abbrev pub Preload : Type 0
Preload = LedgerKey × LedgerEntry × Option ℕ

-- The key is among the preloads.
abbrev pub Occurs : LedgerKey → List Preload → Type 0
Occurs k [] = ⊥
Occurs k (p ∷ ps) = (p.0 ≡ k) ⊎ Occurs k ps

-- Wherever the key is, it has this entry and no live-until ledger.
abbrev pub Only : LedgerKey → LedgerEntry → List Preload → Type 0
Only k e [] = Unit
Only k e (p ∷ ps) = (p.0 ≡ k → (p.1 ≡ e) × (p.2 ≡ none)) × Only k e ps

module _ (codec : Codec) (bytes : LedgerEntry → Bytes) where
  unfoldable pub put : Source → LedgerKey → LedgerEntry → Option ℕ → Source
  put s k e live_until = record s { cache = insert k (some (bytes e, live_until)) s.cache }

  -- The entries encode, to these bytes.
  abbrev pub Encode : List Preload → Type 0
  Encode [] = Unit
  Encode (p ∷ ps) = (codec.encode p.1 ≡ some (bytes p.1)) × Encode ps

  put-view :
      (s : Source) (k : LedgerKey) (e : LedgerEntry) (l : Option ℕ)
      → IsCodec codec
      → codec.encode e ≡ some (bytes e)
      → view codec (put s k e l) k ≡ Known.present e l
  unfolding put known
  put-view s k e l laws encodes =
      ground (arith, lookup-insert_self k (some (bytes e, l)) s.cache, laws e (bytes e) encodes)

  put-other :
      (s : Source) (k j : LedgerKey) (e : LedgerEntry) (l : Option ℕ)
      → k ≢ j
      → view codec (put s k e l) j ≡ view codec s j
  unfolding put
  put-other s k j e l ne =
      ap (known codec)
        (ground (arith, lookup-insert k j (some (bytes e, l)) s.cache, key_eq_iff k j))

  pub preload-∷ :
      (s : Source) (k : LedgerKey) (e : LedgerEntry) (l : Option ℕ) (ps : List Preload)
      → codec.encode e ≡ some (bytes e)
      → preload codec s ((k, e, l) ∷ ps) ≡ preload codec (put s k e l) ps
  unfolding preload put encode_entry
  preload-∷ s k e l ps encodes = rw encodes refl

  still :
      {k : LedgerKey} {e : LedgerEntry} (j : LedgerKey) (d : LedgerEntry) (l : Option ℕ)
      (ps : List Preload) (s : Source)
      → Occurs k ((j, d, l) ∷ ps) ⊎ (view codec s k ≡ Known.present e none)
      → j ≢ k
      → Occurs k ps ⊎ (view codec (put s j d l) k ≡ Known.present e none)
  still j d l ps s (inl (inl same)) other = absurd (other same)
  still j d l ps s (inl (inr there)) other = inl there
  still {k = k} j d l ps s (inr viewed) other = inr (put-other s j k d l other ∙ viewed)

  -- Preloading ends, and an entry that is the only one of its key is the one that is known.
  pub preload-Only :
      IsCodec codec
      → (k : LedgerKey) (e : LedgerEntry) (ps : List Preload) (s : Source) → Encode ps
      → Only k e ps
      → Occurs k ps ⊎ (view codec s k ≡ Known.present e none)
      → (t : Source) × (preload codec s ps ≡ ok t) × (view codec t k ≡ Known.present e none)
  unfolding preload
  preload-Only laws k e [] s encode only (inl there) = absurd there
  preload-Only laws k e [] s encode only (inr viewed) = (s, refl, viewed)
  preload-Only laws k e ((j, d, l) ∷ ps) s (here_encodes, encode) (here, only) there =
      elim (Bool-cases (key_eq j k)) [
        | inl same ↦
            let (t, done, viewed) = preload-Only laws k e ps (put s j d l) encode only (
              inr (
                let eq = (key_eq_iff j k).0 same in
                let (same_entry, no_live) = here eq in
                subst (λ x. view codec (put s j d l) x ≡ Known.present e none) eq
                  (put-view s j d l laws here_encodes ∙ rw (same_entry, no_live) refl))) in
            (t, preload-∷ s j d l ps here_encodes ∙ done, viewed)
        | inr differ ↦
            let other : j ≢ k = λ h. ground (arith, differ, (key_eq_iff j k).1 h) in
            let (t, done, viewed) =
              preload-Only laws k e ps (put s j d l) encode only (still j d l ps s there other) in
            (t, preload-∷ s j d l ps here_encodes ∙ done, viewed)
      ]

Only-append :
    (k : LedgerKey) (e : LedgerEntry) (ps qs : List Preload)
    → Only k e ps
    → Only k e qs
    → Only k e (ps ++ qs)
Only-append k e [] qs p q = q
Only-append k e (x ∷ ps) qs (h, p) q = (h, Only-append k e ps qs p q)

Occurs-left : (k : LedgerKey) (ps qs : List Preload) → Occurs k ps → Occurs k (ps ++ qs)
Occurs-left k [] qs o = absurd o
Occurs-left k (p ∷ ps) qs (inl h) = inl h
Occurs-left k (p ∷ ps) qs (inr o) = inr (Occurs-left k ps qs o)

Occurs-right : (k : LedgerKey) (ps qs : List Preload) → Occurs k qs → Occurs k (ps ++ qs)
Occurs-right k [] qs o = o
Occurs-right k (p ∷ ps) qs o = inr (Occurs-right k ps qs o)

module _ (sequence : ℕ) (assets : List TrustLineAsset) where
  -- All accounts have this balance.
  abbrev pub Funded : ℤ → List TestAccount → Type 0
  Funded balance [] = Unit
  Funded balance (a ∷ accounts) = (a.balance_stroops ≡ balance) × Funded balance accounts

  trustlines-account :
      (b : TestAccount) (id : Bytes) (e : LedgerEntry) (some_assets : List TrustLineAsset)
      → Only (LedgerKey.account id) e (trustline_preloads b sequence some_assets)
  unfolding trustline_preloads trustline_entry
  trustlines-account b id e [] = tt
  trustlines-account b id e (asset ∷ rest) = (λ h. absurd (cc h), trustlines-account b id e rest)

  pub account-Only :
      (a : TestAccount) (accounts : List TestAccount)
      → Funded a.balance_stroops accounts
      → Only
          (ledger_entry a sequence).0
          (ledger_entry a sequence).1
          (preloads sequence assets accounts)
  unfolding preloads ledger_entry
  account-Only a [] funded = tt
  account-Only a (b ∷ accounts) (balance, funded) = (
    λ h. let id : b.public_key ≡ a.public_key = cc h in (rw (id, balance) refl, refl),
    Only-append (LedgerKey.account a.public_key) (ledger_entry a sequence).1
        (trustline_preloads b sequence assets) (preloads sequence assets accounts)
        (trustlines-account b a.public_key (ledger_entry a sequence).1 assets)
        (account-Only a accounts funded),
  )

  trustlines-Only :
      (a b : TestAccount) (asset : TrustLineAsset) (some_assets : List TrustLineAsset)
      → Only
          (trustline_entry a asset sequence).0
          (trustline_entry a asset sequence).1
          (trustline_preloads b sequence some_assets)
  unfolding trustline_preloads trustline_entry
  trustlines-Only a b asset [] = tt
  trustlines-Only a b asset (other ∷ rest) = (
    λ h.
        let id : b.public_key ≡ a.public_key = cc h in
        let same : other ≡ asset = cc h in (rw (id, same) refl, refl),
    trustlines-Only a b asset rest,
  )

  pub trustline-Only :
      (a : TestAccount) (asset : TrustLineAsset) (accounts : List TestAccount)
      → Only
          (trustline_entry a asset sequence).0
          (trustline_entry a asset sequence).1
          (preloads sequence assets accounts)
  unfolding preloads ledger_entry trustline_entry
  trustline-Only a asset [] = tt
  trustline-Only a asset (b ∷ accounts) = (
    λ h. absurd (cc h),
    Only-append (trustline_entry a asset sequence).0 (trustline_entry a asset sequence).1
        (trustline_preloads b sequence assets) (preloads sequence assets accounts)
        (trustlines-Only a b asset assets) (trustline-Only a asset accounts),
  )

  pub account-Occurs :
      (accounts : List TestAccount) (i : ℕ) {a : TestAccount}
      → get_elem? accounts i ≡ some a
      → Occurs (ledger_entry a sequence).0 (preloads sequence assets accounts)
  unfolding preloads ledger_entry
  account-Occurs [] i h = cc h
  account-Occurs (b ∷ accounts) zero {a} h = let same : b ≡ a = cc h in inl (rw same refl)
  account-Occurs (b ∷ accounts) (suc i) {a} h = inr (
      Occurs-right (LedgerKey.account a.public_key) (trustline_preloads b sequence assets)
        (preloads sequence assets accounts) (account-Occurs accounts i h))

  trustlines-Occurs :
      (a : TestAccount) (some_assets : List TrustLineAsset) (j : ℕ) {asset : TrustLineAsset}
      → get_elem? some_assets j ≡ some asset
      → Occurs (trustline_entry a asset sequence).0 (trustline_preloads a sequence some_assets)
  unfolding trustline_preloads trustline_entry
  trustlines-Occurs a [] j h = cc h
  trustlines-Occurs a (other ∷ rest) zero {asset} h =
      let same : other ≡ asset = cc h in inl (rw same refl)
  trustlines-Occurs a (other ∷ rest) (suc j) h = inr (trustlines-Occurs a rest j h)

  pub trustline-Occurs :
      (accounts : List TestAccount) (i j : ℕ) {a : TestAccount} {asset : TrustLineAsset}
      → get_elem? accounts i ≡ some a
      → get_elem? assets j ≡ some asset
      → Occurs (trustline_entry a asset sequence).0 (preloads sequence assets accounts)
  unfolding preloads trustline_entry
  trustline-Occurs [] i j h h' = cc h
  trustline-Occurs (b ∷ accounts) zero j {a} {asset} h h' =
      let same : b ≡ a = cc h in
      rw same (
        inr (
          Occurs-left (LedgerKey.trustline a.public_key asset)
            (trustline_preloads a sequence assets) (preloads sequence assets accounts)
            (trustlines-Occurs a assets j h')))
  trustline-Occurs (b ∷ accounts) (suc i) j {a} {asset} h h' = inr (
      Occurs-right (LedgerKey.trustline a.public_key asset) (trustline_preloads b sequence assets)
        (preloads sequence assets accounts) (trustline-Occurs accounts i j h h'))
