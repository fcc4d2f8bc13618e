-- ===== src/Accounts/Genesis.antt =====
-- The accounts of a fresh fork, as reads of its source see them.
use soroban_fork.Prelude.{
  ℕ, zero, suc, ◌-◌, ◌*◌, ◌^◌, ◌%◌, ltb, if◌then◌else◌, ap, ◌≡◌, refl, sym, subst, ◌∙◌, inl, none,
  some, List, [], ◌∷◌, All, get_elem?,
}
use soroban_fork.Prelude.Int.{ℤ, pos, negsuc}
use soroban_fork.Handlers.Balance.{first_seq_num}
use soroban_fork.Prelude.Outcome.{ok}
use soroban_fork.Xdr.{Bytes}
use soroban_fork.Ledger.{LedgerKey, LedgerEntry, LedgerEntryData, TrustLineAsset}
use soroban_fork.Source.{Source, Codec, IsCodec, preload}
use soroban_fork.Source.View.{Known, view}
use soroban_fork.Accounts.{
  TestAccount, Keys, default_balance_stroops, ledger_entry, trustline_entry, preloads, test_account,
  generate_from, generate, mint,
}
use soroban_fork.Accounts.Minted.{
  Preload, Encode, Occurs, Only, preload-Only, put, preload-∷, Funded, account-Only, trustline-Only,
  account-Occurs, trustline-Occurs,
}

-- The i64 of these 64 bits.
abbrev as_i64 : ℕ → ℤ
as_i64 bits = if ltb bits (2 ^ 63) then pos bits else negsuc (2 ^ 64 - 1 - bits)

-- An account of 100,000 XLM that can send at this ledger, and an authorized trustline without a balance.
abbrev pub funded_entry : Bytes → ℕ → LedgerEntry
funded_entry key ledger = record {
  last_modified_ledger_seq = ledger;
  body = LedgerEntryData.account (record {
    account_id = key;
    balance = pos 1000000000000;
    seq_num = as_i64 (ledger * 2 ^ 32 % 2 ^ 64);
    num_sub_entries = 0;
    inflation_dest = none;
    flags = 0;
    home_domain = [];
    thresholds = 1 ∷ 0 ∷ 0 ∷ 0 ∷ [];
    signers = [];
  });
}

abbrev pub authorized_entry : Bytes → TrustLineAsset → ℕ → LedgerEntry
authorized_entry key asset ledger = record {
  last_modified_ledger_seq = ledger;
  body = LedgerEntryData.trustline (record {
    account_id = key;
    asset = asset;
    balance = pos 0;
    limit = pos (2 ^ 63 - 1);
    flags = 1;
  });
}

ledger_entry-funded_entry :
    (a : TestAccount) (ledger : ℕ)
    → a.balance_stroops ≡ default_balance_stroops
    → (ledger_entry a ledger).1 ≡ funded_entry a.public_key ledger
unfolding ledger_entry default_balance_stroops first_seq_num
ledger_entry-funded_entry a ledger balance = rw balance refl

trustline_entry-authorized_entry :
    (a : TestAccount) (asset : TrustLineAsset) (ledger : ℕ)
    → (trustline_entry a asset ledger).1 ≡ authorized_entry a.public_key asset ledger
unfolding trustline_entry
trustline_entry-authorized_entry a asset ledger = refl

pointwise {ℓ κ} :
    {A : Type ℓ} {P : A → Type κ} (xs : List A)
    → ((i : ℕ) (x : A) → get_elem? xs i ≡ some x → P x)
    → All P xs
pointwise [] f = tt
pointwise (x ∷ xs) f = (f 0 x refl, pointwise xs (λ i y h. f (suc i) y h))

module _ (codec : Codec) (bytes : LedgerEntry → Bytes) (laws : IsCodec codec) (keys : Keys) where
  generated-Funded :
      (sequence : ℕ) (assets : List TrustLineAsset) (first n : ℕ)
      → Funded sequence assets default_balance_stroops (generate_from keys first n)
  unfolding generate_from test_account
  generated-Funded sequence assets first zero = tt
  generated-Funded sequence assets first (suc n) =
      (refl, generated-Funded sequence assets (suc first) n)

  generated_balance :
      (first n i : ℕ) {a : TestAccount}
      → get_elem? (generate_from keys first n) i ≡ some a
      → a.balance_stroops ≡ default_balance_stroops
  unfolding generate_from test_account
  generated_balance first zero i h = cc h
  generated_balance first (suc n) zero {a} h =
      let same : test_account keys first ≡ a = cc h in
      subst (λ b. b.balance_stroops ≡ default_balance_stroops) same refl
  generated_balance first (suc n) (suc i) h = generated_balance (suc first) n i h

  preload-total :
      (ps : List Preload) (s : Source)
      → Encode codec bytes ps
      → (t : Source) × (preload codec s ps ≡ ok t)
  unfolding preload
  preload-total [] s encode = (s, refl)
  preload-total ((k, e, l) ∷ ps) s (here, encode) =
      let (t, done) = preload-total ps (put codec bytes s k e l) encode in
      (t, preload-∷ codec bytes s k e l ps here ∙ done)

  viewed :
      (ps : List Preload) (s t : Source) (k : LedgerKey) (e : LedgerEntry)
      → Encode codec bytes ps
      → preload codec s ps ≡ ok t
      → Only k e ps
      → Occurs k ps
      → view codec t k ≡ Known.present e none
  viewed ps s t k e encode done only there =
      let (u, done', found) = preload-Only codec bytes laws k e ps s encode only (inl there) in
      let same : u ≡ t = cc (done, done') in
      subst (λ v. view codec v k ≡ Known.present e none) same found

  -- When their entries encode, the accounts are minted, over whatever the source had for their keys: afterwards it
  -- knows every one of the accounts by its funded entry at the fork's ledger, and each trustline that is asked for by an
  -- authorized entry without a balance, so that reads of them fetch nothing.
  pub mint_lem :
      (s : Source) (sequence n : ℕ) (assets : List TrustLineAsset)
      → Encode codec bytes (preloads sequence assets (generate keys n))
      → (t : Source) × (mint keys codec s sequence n assets ≡ ok t)
        × All
            (λ a.
              (view codec t (LedgerKey.account a.public_key)
                ≡ Known.present (funded_entry a.public_key sequence) none)
              × All
                  (λ asset.
                    view codec t (LedgerKey.trustline a.public_key asset)
                    ≡ Known.present (authorized_entry a.public_key asset sequence) none)
                  assets)
            (generate keys n)
  unfolding mint generate ledger_entry trustline_entry
  mint_lem s sequence n assets encode =
      let accounts = generate_from keys 0 n in
      let ps = preloads sequence assets accounts in
      let (t, done) = preload-total ps s encode in
      (
        t,
        done,
        pointwise accounts (λ i a h.
            let funded =
              subst (λ b. Funded sequence assets b accounts) (sym (generated_balance 0 n i h))
                (generated-Funded sequence assets 0 n) in
            (
              viewed ps s t (LedgerKey.account a.public_key) (ledger_entry a sequence).1 encode done
                    (account-Only sequence assets a accounts funded)
                    (account-Occurs sequence assets accounts i h)
                  ∙ ap (λ e. Known.present e none)
                      (ledger_entry-funded_entry a sequence (generated_balance 0 n i h)),
              pointwise assets (λ j asset h'.
                  viewed ps s t (LedgerKey.trustline a.public_key asset)
                    (trustline_entry a asset sequence).1 encode done
                    (trustline-Only sequence assets a asset accounts)
                    (trustline-Occurs sequence assets accounts i j h h')
                  ∙ ap (λ e. Known.present e none)
                      (trustline_entry-authorized_entry a asset sequence)),
            )),
      )
