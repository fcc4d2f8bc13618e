-- ===== src/Workspace/Examples.antt =====
-- A cargo whose file system is a function, with one member, and builds of its profiles.
use soroban_fork.Prelude.{
  ℕ_discrete, ◌≡◌, ◌≢◌, refl, inl, inr, Bool, Option, none, some, List, [], ◌∷◌, ◌++◌, codes,
  bytes_eq, if◌then◌else◌, ap, sym, subst, ◌∙◌, Bool-cases,
}
use soroban_fork.Prelude.Assoc.{decided, decided_iff}
use soroban_fork.Xdr.{Bytes}
use soroban_fork.Errors.{ForkError, done, failed}
use soroban_fork.Workspace.{
  Metadata, Ran, ran, exited_badly, Parts, Cargo, texts, profile_args, build_args, wasm_path,
  artifact_name, read_metadata, output_of, workspace_wasm_in, checked_target_dir,
  extract_target_dir, require_workspace_member, contains, is_member, names_of, build_and_read,
}
use soroban_fork.Workspace.Artifact.{
  artifact, chosen_profile, profile_dir, Builds, workspace_wasm_in_lem,
}

Parts-discrete : Discrete Parts
Parts-discrete = hlevel ℕ_discrete

unfoldable parts_eq : Parts → Parts → Bool
unfolding Parts-discrete
parts_eq a b = decided (Parts-discrete a b)

abbrev FileSystem : Type 0
FileSystem = Parts → Option Bytes

unfoldable write_file : Parts → Bytes → FileSystem → FileSystem
write_file path b files = λ q. if parts_eq path q then some b else files q

abbrev metadata : Metadata
metadata = record {
  target_directory = some (codes "target");
  workspace_members = some (some (codes "path+my-token") ∷ none ∷ []);
  packages = some (
      record { id = some (codes "path+other"); name = some (codes "other") }
      ∷ record { id = some (codes "path+my-token"); name = some (codes "my-token") }
      ∷ []);
}

unfoldable compile : Bytes → Bytes → Option Bytes → FileSystem → Ran (Unit {0}) × FileSystem
compile name target none files = (exited_badly, files)
compile name target (some profile) files = (
  ran tt,
  write_file (artifact (codes "target") target (profile_dir profile) name) (name ++ profile) files,
)

unfoldable run_build : List Bytes → FileSystem → Ran (Unit {0}) × FileSystem
run_build (_ ∷ _ ∷ name ∷ _ ∷ target ∷ flags) files =
    compile name target (chosen_profile flags) files
run_build _ files = (exited_badly, files)

abbrev cargo : Cargo FileSystem
cargo = record {
  metadata = λ dir files. ran [];
  parse = λ text. some metadata;
  build = λ dir args files. run_build args files;
  read = λ path files. files path;
}

abbrev compiled : FileSystem → Bytes → Bytes → Bytes → Bytes
compiled files name target profile = name ++ profile

wrote :
    (name target profile : Bytes) (flags : List Bytes) (s : FileSystem) {t : FileSystem}
    → chosen_profile flags ≡ some profile
    → compile name target (chosen_profile flags) s ≡ (ran tt, t)
    → t
      ≡ write_file (artifact (codes "target") target (profile_dir profile) name) (name ++ profile) s
unfolding compile
wrote name target profile flags s {t} chosen built =
    let e : compile name target (some profile) s ≡ (ran tt, t) =
      subst (λ o. compile name target o s ≡ (ran tt, t)) chosen built in
    sym (ap (λ (p : Ran (Unit {0}) × FileSystem). p.1) e)

write_file-same : (path : Parts) (b : Bytes) (s : FileSystem) → write_file path b s path ≡ some b
unfolding write_file parts_eq
write_file-same path b s = rw ((decided_iff (Parts-discrete path path)).1 refl) refl

write_file-other :
    (path q : Parts) (b : Bytes) (s : FileSystem) → path ≢ q → write_file path b s q ≡ s q
unfolding write_file parts_eq
write_file-other path q b s differs = elim (Bool-cases (decided (Parts-discrete path q))) [
  | inl same ↦ absurd (differs ((decided_iff (Parts-discrete path q)).0 same))
  | inr other ↦ rw other refl
]

other_dir :
    (a b target profile other name : Bytes)
    → artifact a target profile name ≡ artifact b target other name
    → profile ≡ other
other_dir a b target profile other name h = cc h

its_target :
    {m : Metadata} {target_dir : Bytes}
    → read_metadata cargo none (λ q. none) ≡ done m
    → m.target_directory ≡ some target_dir
    → codes "target" ≡ target_dir
unfolding read_metadata output_of
its_target reads at = cc (reads, at)

cargo-Builds : Builds cargo compiled
unfolding run_build read_metadata output_of
cargo-Builds = record {
  writes = λ dir target_dir name target profile flags s t m reads at chosen built.
      subst (λ d. t (artifact d target (profile_dir profile) name) ≡ some (name ++ profile))
        (its_target reads at)
        (ap
            (λ (files : FileSystem).
              files (artifact (codes "target") target (profile_dir profile) name))
            (wrote name target profile flags s chosen built)
          ∙ write_file-same _ _ s);
  leaves = λ dir target_dir name target profile other flags s t chosen differs built.
      ap (λ (files : FileSystem). files (artifact target_dir target other name))
        (wrote name target profile flags s chosen built)
      ∙ write_file-other _ _ _ s (λ e.
        differs (other_dir (codes "target") target_dir target (profile_dir profile) other name e));
}

abbrev empty : FileSystem
empty path = none

abbrev after_dev : FileSystem
after_dev =
    write_file
      (artifact (codes "target") (codes "wasm32v1-none") (codes "debug") (codes "my-token"))
      (codes "my-tokendev") empty

-- The artifact of the profile `dev` lies in the directory `debug`, where it is not looked for.
workspace_wasm_in_lem_example :
    workspace_wasm_in cargo none (codes "my-token") (codes "wasm32v1-none") (codes "dev") empty
    ≡ (failed ForkError.workspace, after_dev)
unfolding run_build compile profile_args build_args chosen_profile profile_dir bytes_eq
    read_metadata output_of texts
workspace_wasm_in_lem_example =
    workspace_wasm_in_lem cargo compiled none (codes "my-token") empty metadata refl refl refl refl
      cargo-Builds (codes "wasm32v1-none") (codes "dev") after_dev
      (inr (inl (refl, (codes "path+my-token", refl, inl refl)))) refl

released :
    (workspace_wasm_in cargo none
      (codes "my-token")
      (codes "wasm32v1-none")
      (codes "release")
      empty).0
    ≡ done (codes "my-tokenrelease")
unfolding workspace_wasm_in checked_target_dir extract_target_dir require_workspace_member contains
    is_member names_of build_and_read run_build compile profile_args build_args chosen_profile
    profile_dir bytes_eq read_metadata output_of texts wasm_path artifact_name write_file parts_eq
    Parts-discrete ℕ_discrete
released = refl
