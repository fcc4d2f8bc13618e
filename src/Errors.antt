-- ===== src/Errors.antt =====
-- src/error.rs: the crate's error type, without the texts of its messages, and results with it.
use soroban_fork.Prelude.{◌++◌, ◌≡◌, refl, ◌⊎◌, inl, inr, Option, none, some, List, [], ◌∷◌}
use soroban_fork.Xdr.{Bytes}

-- A cache error names the path.
pub data ForkError : Type 0 where
  transport rpc_error rpc_no_result xdr base64 json host workspace : ForkError
  cache : Bytes → ForkError

-- The crate's `Result<A>`.
pub data Try {ℓ} (A : Type ℓ) : Type ℓ where
  done : A → Try A
  failed : ForkError → Try A

-- The operator `?`.
infixl 5 ◌>>=◌
abbrev pub ◌>>=◌ {ℓ κ} : {A : Type ℓ} {B : Type κ} → Try A → (A → Try B) → Try B
done a >>= f = f a
failed e >>= f = failed e

-- `ok_or(e)`
abbrev pub or_fail {ℓ} : {A : Type ℓ} → ForkError → Option A → Try A
or_fail e none = failed e
or_fail e (some a) = done a

-- `iter().map(f).collect::<Result<Vec<_>>>()`
unfoldable pub collect {ℓ κ} : {A : Type ℓ} {B : Type κ} → (A → Try B) → List A → Try (List B)
collect f [] = done []
collect f (x ∷ xs) = do y ← f x; ys ← collect f xs; done (y ∷ ys)

pub Try-cases {ℓ} :
    {A : Type ℓ} (r : Try A) → ((a : A) × (r ≡ done a)) ⊎ ((e : ForkError) × (r ≡ failed e))
Try-cases (done a) = inl (a, refl)
Try-cases (failed e) = inr (e, refl)

collected {ℓ} :
    {B : Type ℓ} (r : Try B) (rs : Try (List B)) {zs : List B}
    → (r >>= λ y. rs >>= λ ys. done (y ∷ ys)) ≡ done zs
    → (y : B) × (ys : List B) × (r ≡ done y) × (rs ≡ done ys) × (zs ≡ y ∷ ys)
collected (done y) (done ys) h = (y, ys, refl, refl, cc h)
collected (done y) (failed e) h = cc h
collected (failed e) rs h = cc h

module _ {ℓ κ} {A : Type ℓ} {B : Type κ} (f : A → Try B) where
  -- Inversion of a collection that has a head.
  pub collect-∷ :
      (x : A) (xs : List A) {zs : List B}
      → collect f (x ∷ xs) ≡ done zs
      → (y : B) × (ys : List B) × (f x ≡ done y) × (collect f xs ≡ done ys) × (zs ≡ y ∷ ys)
  unfolding collect
  collect-∷ x xs h = collected (f x) (collect f xs) h

  pub collect-append :
      (xs ys : List A) {us vs : List B}
      → collect f xs ≡ done us
      → collect f ys ≡ done vs
      → collect f (xs ++ ys) ≡ done (us ++ vs)
  unfolding collect
  collect-append [] ys {us = us} {vs = vs} h h' = let empty : us ≡ [] = cc h in rw empty h'
  collect-append (x ∷ xs) ys h h' =
      let (y, us', fx, rest, eq) = collect-∷ x xs h in
      rw (eq, fx, collect-append xs ys rest h') refl
