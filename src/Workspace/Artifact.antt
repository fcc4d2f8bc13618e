-- ===== src/Workspace/Artifact.antt =====
-- Where cargo puts what it builds, and what workspace_wasm_in finds there.
use soroban_fork.Prelude.{
  ◌≡◌, ◌≢◌, Option, none, some, List, [], ◌∷◌, codes, bytes_eq, bytes_eq_iff, if◌then◌else◌, arith,
  refl, ap, subst, inl, ◌==◌, ◌++◌, inr, Bool-cases,
}
use soroban_fork.Xdr.{Bytes}
use soroban_fork.Errors.{ForkError, done, failed, or_fail}
use soroban_fork.Workspace.{
  Package, Metadata, ran, Cargo, texts, profile_args, build_args, artifact_name, wasm_path,
  read_metadata, extract_target_dir, checked_target_dir, build_and_read, output_of,
  workspace_wasm_in,
}
use soroban_fork.Workspace.Members.{
  HasMember, require_workspace_member-HasMember, require_workspace_member-outsider,
}

-- The profile that the flags of `cargo build` choose.
unfoldable pub chosen_profile : List Bytes → Option Bytes
chosen_profile [] = some (codes "dev")
chosen_profile (flag ∷ []) =
    if bytes_eq flag (codes "--release") then some (codes "release") else none
chosen_profile (flag ∷ profile ∷ []) =
    if bytes_eq flag (codes "--profile") then some profile else none
chosen_profile _ = none

-- The directory of a profile's artifacts: cargo's two built-in pairs have one each, another profile has its own.
unfoldable pub profile_dir : Bytes → Bytes
profile_dir profile =
    if bytes_eq profile (codes "dev")
    then codes "debug"
    else if bytes_eq profile (codes "test")
    then codes "debug"
    else if bytes_eq profile (codes "bench")
    then codes "release"
    else profile

-- The file name of a crate's library: its name with underscores for dashes.
abbrev pub library_of : Bytes → Bytes
library_of [] = codes ".wasm"
library_of (c ∷ name) = (if c == b'-' then b'_' else c) ∷ library_of name

-- Where cargo puts a library.
abbrev pub artifact : Bytes → Bytes → Bytes → Bytes → List Bytes
artifact target_dir target directory name = target_dir ∷ target ∷ directory ∷ library_of name ∷ []

artifact_name-library_of : (name : Bytes) → artifact_name name ++ codes ".wasm" ≡ library_of name
unfolding artifact_name
artifact_name-library_of [] = refl
artifact_name-library_of (c ∷ name) =
    ap (λ rest. (if c == b'-' then b'_' else c) ∷ rest) (artifact_name-library_of name)

wasm_path-artifact :
    (target_dir target directory name : Bytes)
    → wasm_path target_dir target directory name ≡ artifact target_dir target directory name
unfolding wasm_path
wasm_path-artifact target_dir target directory name =
    ap (λ file. target_dir ∷ target ∷ directory ∷ file ∷ []) (artifact_name-library_of name)

-- A build that succeeds leaves the package's library in the directory of the profile that its flags choose, and the
-- like file of another profile as it was.
pub record Builds {S : Type 0} (cargo : Cargo S) (compiled : S → Bytes → Bytes → Bytes → Bytes)
    : Type 0 where
  pub writes :
      (dir : Option Bytes) (target_dir name target profile : Bytes) (flags : List Bytes) (s t : S)
      (m : Metadata)
      → read_metadata cargo dir s ≡ done m
      → m.target_directory ≡ some target_dir
      → chosen_profile flags ≡ some profile
      → cargo.build dir (codes "build" ∷ codes "-p" ∷ name ∷ codes "--target" ∷ target ∷ flags) s
        ≡ (ran tt, t)
      → cargo.read (artifact target_dir target (profile_dir profile) name) t
        ≡ some (compiled s name target profile)
  pub leaves :
      (dir : Option Bytes) (target_dir name target profile other : Bytes) (flags : List Bytes)
      (s t : S)
      → chosen_profile flags ≡ some profile
      → profile_dir profile ≢ other
      → cargo.build dir (codes "build" ∷ codes "-p" ∷ name ∷ codes "--target" ∷ target ∷ flags) s
        ≡ (ran tt, t)
      → cargo.read (artifact target_dir target other name) t
        ≡ cargo.read (artifact target_dir target other name) s

chosen_profile-profile_args :
    (profile : Bytes) → chosen_profile (profile_args profile) ≡ some profile
unfolding profile_args chosen_profile bytes_eq
chosen_profile-profile_args profile =
    ground (arith, bytes_eq_iff profile (codes "release"), bytes_eq_iff profile (codes "dev"))

module _ {S : Type 0} (cargo : Cargo S) (compiled : S → Bytes → Bytes → Bytes → Bytes)
    (dir : Option Bytes) (name : Bytes) (s : S) (m : Metadata) {target_dir : Bytes}
    {members : List (Option Bytes)} {packages : List Package}
    (reads : read_metadata cargo dir s ≡ done m)
    (has_target_dir : m.target_directory ≡ some target_dir)
    (has_members : m.workspace_members ≡ some members)
    (has_packages : m.packages ≡ some packages) where
  found_at :
      (laws : Builds cargo compiled) (target profile : Bytes) (t : S)
      → cargo.build dir (build_args name target profile) s ≡ (ran tt, t)
      → cargo.read (artifact target_dir target profile name) t ≡ (
          if bytes_eq (profile_dir profile) profile
          then some (compiled s name target profile)
          else cargo.read (artifact target_dir target profile name) s)
  unfolding build_args
  found_at laws target profile t built =
      elim (Bool-cases (bytes_eq (profile_dir profile) profile)) [
        | inl same ↦ rw same (
            subst
              (λ d.
                cargo.read (artifact target_dir target d name) t
                ≡ some (compiled s name target profile))
              ((bytes_eq_iff (profile_dir profile) profile).0 same)
              (laws.writes dir target_dir name target profile (profile_args profile) s t m reads
                has_target_dir (chosen_profile-profile_args profile) built))
        | inr differs ↦ rw differs (
            laws.leaves dir target_dir name target profile profile (profile_args profile) s t
              (chosen_profile-profile_args profile)
              (λ e. cc (differs, (bytes_eq_iff (profile_dir profile) profile).1 e)) built)
      ]

  checked-member :
      HasMember (texts members) name packages
      → checked_target_dir cargo dir name s ≡ done target_dir
  unfolding checked_target_dir extract_target_dir
  checked-member member =
      rw
        (
          reads,
          require_workspace_member-HasMember m name has_members has_packages member,
          has_target_dir,
        )
        refl

  checked-outsider :
      ¬ HasMember (texts members) name packages
      → checked_target_dir cargo dir name s ≡ failed ForkError.workspace
  unfolding checked_target_dir extract_target_dir
  checked-outsider outsider =
      rw
        (
          reads,
          require_workspace_member-outsider m name has_members has_packages outsider,
          has_target_dir,
        )
        refl

  build_and_read_lem :
      (laws : Builds cargo compiled) (target profile : Bytes) (t : S)
      → cargo.build dir (build_args name target profile) s ≡ (ran tt, t)
      → build_and_read cargo dir target_dir name target profile s ≡ (
        or_fail ForkError.workspace (
            if bytes_eq (profile_dir profile) profile
            then some (compiled s name target profile)
            else cargo.read (artifact target_dir target profile name) s),
        t,
      )
  unfolding build_and_read output_of
  build_and_read_lem laws target profile t built =
      rw
        (
          built,
          wasm_path-artifact target_dir target profile name,
          found_at laws target profile t built,
        )
        refl

  -- A member of the workspace that builds, under a cargo that puts its library into the directory of its profile, by the
  -- crate's name with underscores for dashes, and leaves those of other profiles: where cargo names the directory after
  -- the profile, the bytes that the build has compiled are returned; for a profile whose directory has another name,
  -- `dev` among them, what is returned is what stood before the build where the code looks, and an error when nothing did.
  pub workspace_wasm_in_lem :
      (laws : Builds cargo compiled) (target profile : Bytes) (t : S)
      → HasMember (texts members) name packages
      → cargo.build dir (build_args name target profile) s ≡ (ran tt, t)
      → workspace_wasm_in cargo dir name target profile s ≡ (
        or_fail ForkError.workspace (
            if bytes_eq (profile_dir profile) profile
            then some (compiled s name target profile)
            else cargo.read (artifact target_dir target profile name) s),
        t,
      )
  unfolding workspace_wasm_in
  workspace_wasm_in_lem laws target profile t member built =
      rw (checked-member member, workspace_wasm_in) (build_and_read_lem laws target profile t built)

  -- A crate that is no member of the workspace is refused, and nothing is built.
  pub workspace_wasm_in-outsider :
      (target profile : Bytes)
      → ¬ HasMember (texts members) name packages
      → workspace_wasm_in cargo dir name target profile s ≡ (failed ForkError.workspace, s)
  unfolding workspace_wasm_in
  workspace_wasm_in-outsider target profile outsider =
      rw (checked-outsider outsider, workspace_wasm_in) refl
