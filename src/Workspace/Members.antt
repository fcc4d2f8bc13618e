-- ===== src/Workspace/Members.antt =====
-- Who is a member of the cargo workspace.
use soroban_fork.Prelude.{
  ◌≡◌, ◌⊎◌, inl, inr, true, Option, some, List, [], ◌∷◌, bytes_eq, bytes_eq_iff, arith, refl,
  Bool-cases, Option-cases, ap, ◌∙◌,
}
use soroban_fork.Xdr.{Bytes}
use soroban_fork.Errors.{ForkError, done, failed}
use soroban_fork.Workspace.{
  Package, Metadata, texts, contains, is_member, names_of, require_workspace_member,
}

-- A text stands in a list.
abbrev pub Listed : Bytes → List Bytes → Type 0
Listed x [] = ⊥
Listed x (y ∷ ys) = (y ≡ x) ⊎ Listed x ys

-- A package of this name whose id is one of these.
abbrev pub HasMember : List Bytes → Bytes → List Package → Type 0
HasMember ids name [] = ⊥
HasMember ids name (p ∷ ps) =
    ((p.name ≡ some name) × ((id : Bytes) × (p.id ≡ some id) × Listed id ids))
    ⊎ HasMember ids name ps

contains-Listed : (x : Bytes) (ys : List Bytes) → Listed x ys → contains x ys ≡ true
unfolding contains
contains-Listed x [] h = absurd h
contains-Listed x (y ∷ ys) (inl e) = ground (arith, bytes_eq_iff y x)
contains-Listed x (y ∷ ys) (inr h) = ground (arith, contains-Listed x ys h)

Listed-contains : (x : Bytes) (ys : List Bytes) → contains x ys ≡ true → Listed x ys
unfolding contains
Listed-contains x [] h = cc h
Listed-contains x (y ∷ ys) h = elim (Bool-cases (bytes_eq y x)) [
  | inl same ↦ inl ((bytes_eq_iff y x).0 same)
  | inr other ↦ inr (Listed-contains x ys (ground (arith, other)))
]

module _ (ids : List Bytes) (name : Bytes) where
  names_of-HasMember :
      (ps : List Package) → HasMember ids name ps → contains name (texts (names_of ids ps)) ≡ true
  unfolding texts contains names_of is_member
  names_of-HasMember [] h = absurd h
  names_of-HasMember (p ∷ ps) (inl (named, (id, has_id, listed))) =
      ground (arith, contains-Listed id ids listed, bytes_eq_iff name name)
  names_of-HasMember (p ∷ ps) (inr h) = ground (arith, names_of-HasMember ps h)

  HasMember-here :
      (p : Package) (named : p.name ≡ some name)
      → is_member ids p ≡ true
      → (p.name ≡ some name) × ((id : Bytes) × (p.id ≡ some id) × Listed id ids)
  unfolding is_member
  HasMember-here p named h = elim (Option-cases p.id) [
    | inl no_id ↦ absurd (ground (arith, h, no_id))
    | inr (id, has_id) ↦ (named, (id, has_id, Listed-contains id ids (ground (arith, h, has_id))))
  ]

  HasMember-names_of :
      (ps : List Package) → contains name (texts (names_of ids ps)) ≡ true → HasMember ids name ps
  unfolding texts contains names_of
  HasMember-names_of [] h = cc h
  HasMember-names_of (p ∷ ps) h = elim (Bool-cases (is_member ids p)) [
    | inr outsider ↦ inr (HasMember-names_of ps (ground (arith, h, outsider)))
    | inl member ↦ elim (Option-cases p.name) [
      | inl unnamed ↦ inr (HasMember-names_of ps (ground (arith, h, member, unnamed)))
      | inr (other, named) ↦ elim (Bool-cases (bytes_eq other name)) [
        | inl same ↦
            inl (HasMember-here p (named ∙ ap some ((bytes_eq_iff other name).0 same)) member)
        | inr differs ↦ inr (HasMember-names_of ps (ground (arith, h, member, named, differs)))
      ]
    ]
  ]

module _ (m : Metadata) {members : List (Option Bytes)} {packages : List Package} (name : Bytes)
    (has_members : m.workspace_members ≡ some members)
    (has_packages : m.packages ≡ some packages) where
  pub require_workspace_member-HasMember :
      HasMember (texts members) name packages → require_workspace_member m name ≡ done tt
  unfolding require_workspace_member
  require_workspace_member-HasMember h =
      rw (has_members, has_packages, names_of-HasMember (texts members) name packages h) refl

  pub require_workspace_member-outsider :
      ¬ HasMember (texts members) name packages
      → require_workspace_member m name ≡ failed ForkError.workspace
  unfolding require_workspace_member
  require_workspace_member-outsider no_member =
      elim (Bool-cases (contains name (texts (names_of (texts members) packages)))) [
        | inl yes_ ↦ absurd (no_member (HasMember-names_of (texts members) name packages yes_))
        | inr none_ ↦ rw (has_members, has_packages, none_) refl
      ]
