-- ===== src/Workspace.antt =====
-- src/workspace.rs: a contract of the cargo workspace is built, and its WASM is read from the target directory.
pub mod Members
pub mod Artifact
mod Examples
use soroban_fork.Prelude.{
  Bool, true, false, ◌||◌, Option, none, some, List, [], ◌∷◌, ◌++◌, map, codes, bytes_eq, ◌==◌,
  if◌then◌else◌,
}
use soroban_fork.Xdr.{Bytes}
use soroban_fork.Errors.{ForkError, Try, done, failed, ◌>>=◌, or_fail}

-- The text of a package's `id` and of its `name`, where they are texts.
pub record Package : Type 0 where
  pub id : Option Bytes
  pub name : Option Bytes

-- What is read of the JSON of `cargo metadata`: `target_directory` as a text, and two arrays.
pub record Metadata : Type 0 where
  pub target_directory : Option Bytes
  pub workspace_members : Option (List (Option Bytes))
  pub packages : Option (List Package)

-- A process: it may not start, or end with a failure.
pub data Ran (A : Type 0) : Type 0 where
  not_spawned exited_badly : Ran A
  ran : A → Ran A

-- A path, by the parts that are joined.
abbrev pub Parts : Type 0
Parts = List Bytes

-- Cargo and the file system, whose state is S: the two commands in a directory, serde's reading of the first one's output,
-- and the reading of a file.
pub record Cargo (S : Type 0) : Type 0 where
  pub metadata : Option Bytes → S → Ran Bytes
  pub parse : Bytes → Option Metadata
  pub build : Option Bytes → List Bytes → S → Ran (Unit {0}) × S
  pub read : Parts → S → Option Bytes

abbrev pub default_target : Bytes
default_target = codes "wasm32v1-none"

abbrev pub default_profile : Bytes
default_profile = codes "release"

unfoldable pub output_of : {A : Type 0} → Ran A → Try A
output_of not_spawned = failed ForkError.workspace
output_of exited_badly = failed ForkError.workspace
output_of (ran a) = done a

unfoldable pub extract_target_dir : Metadata → Try Bytes
extract_target_dir m = or_fail ForkError.workspace m.target_directory

-- `filter_map(|m| m.as_str())`
unfoldable pub texts : List (Option Bytes) → List Bytes
texts [] = []
texts (none ∷ xs) = texts xs
texts (some x ∷ xs) = x ∷ texts xs

unfoldable pub contains : Bytes → List Bytes → Bool
contains x [] = false
contains x (y ∷ ys) = bytes_eq y x || contains x ys

unfoldable pub is_member : List Bytes → Package → Bool
is_member ids p = elim p.id [ none ↦ false | some id ↦ contains id ids ]

unfoldable pub names_of : List Bytes → List Package → List (Option Bytes)
names_of ids [] = []
names_of ids (p ∷ ps) =
    let others = names_of ids ps in if is_member ids p then p.name ∷ others else others

abbrev found : Bool → Try (Unit {0})
found true = done tt
found false = failed ForkError.workspace

unfoldable pub require_workspace_member : Metadata → Bytes → Try (Unit {0})
require_workspace_member m crate_name = do
  members ← or_fail ForkError.workspace m.workspace_members
  packages ← or_fail ForkError.workspace m.packages
  found (contains crate_name (texts (names_of (texts members) packages)))

unfoldable pub profile_args : Bytes → List Bytes
profile_args profile =
    if bytes_eq profile (codes "release")
    then codes "--release" ∷ []
    else if bytes_eq profile (codes "dev")
    then []
    else codes "--profile" ∷ profile ∷ []

unfoldable pub build_args : Bytes → Bytes → Bytes → List Bytes
build_args crate_name target profile =
    codes "build" ∷ codes "-p" ∷ crate_name ∷ codes "--target" ∷ target ∷ profile_args profile

-- `crate_name.replace('-', "_")`
unfoldable pub artifact_name : Bytes → Bytes
artifact_name crate_name = map (λ c. if c == b'-' then b'_' else c) crate_name

unfoldable pub wasm_path : Bytes → Bytes → Bytes → Bytes → Parts
wasm_path target_dir target profile crate_name =
    target_dir ∷ target ∷ profile ∷ (artifact_name crate_name ++ codes ".wasm") ∷ []

module _ {S : Type 0} (cargo : Cargo S) where
  unfoldable pub read_metadata : Option Bytes → S → Try Metadata
  read_metadata manifest_dir s = do
    text ← output_of (cargo.metadata manifest_dir s)
    or_fail ForkError.workspace (cargo.parse text)

  -- The end of `workspace_wasm_in`, from the build on.
  unfoldable pub build_and_read : Option Bytes → Bytes → Bytes → Bytes → Bytes → S → Try Bytes × S
  build_and_read manifest_dir target_dir crate_name target profile s =
      let built = cargo.build manifest_dir (build_args crate_name target profile) s in
      (
        output_of built.0 >>= λ _.
            or_fail ForkError.workspace
              (cargo.read (wasm_path target_dir target profile crate_name) built.1),
        built.1,
      )

  unfoldable pub checked_target_dir : Option Bytes → Bytes → S → Try Bytes
  checked_target_dir manifest_dir crate_name s = do
    metadata ← read_metadata manifest_dir s
    target_dir ← extract_target_dir metadata
    member ← require_workspace_member metadata crate_name
    done target_dir

  unfoldable pub workspace_wasm_in : Option Bytes → Bytes → Bytes → Bytes → S → Try Bytes × S
  workspace_wasm_in manifest_dir crate_name target profile s =
      elim (checked_target_dir manifest_dir crate_name s) [
        | failed e ↦ (failed e, s)
        | done target_dir ↦ build_and_read manifest_dir target_dir crate_name target profile s
      ]

  unfoldable pub workspace_wasm : Bytes → S → Try Bytes × S
  workspace_wasm crate_name s = workspace_wasm_in none crate_name default_target default_profile s

  unfoldable pub workspace_wasm_with : Bytes → Bytes → Bytes → S → Try Bytes × S
  workspace_wasm_with crate_name target profile s =
      workspace_wasm_in none crate_name target profile s
