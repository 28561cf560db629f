-- ===== src/Client/Project.antt =====
-- `build_project_in_dir` of miden/integration/src/helpers.rs. `cargo_miden::run` is a parameter.
use bartok.Base.{Bool, Option, List, [], ◌∷◌, ◌++◌, Result, ok, err, context, if◌then◌else◌}
use bartok.Base.Action.{Action, ◌>>=◌, lift, with_context}
use bartok.Text.{Text, codes}
use bartok.Host.{Host}

-- `cargo_miden::CommandOutput`
pub data CommandOutput : Type 0 where
  build_output : List Text → CommandOutput
  other_output : CommandOutput

pub record CargoMiden (h : Host) : Type 1 where
  pub World : Type 0
  pub run : List Text → Action World (Option CommandOutput)
  pub read : Text → Action World h.Bytes

abbrev pub artifact_of : CommandOutput → Result Text
artifact_of (build_output (path ∷ _)) = ok path
artifact_of (build_output []) = err "cargo miden build produced no artifact"
artifact_of other_output = err "Expected BuildCommandOutput"

-- The command line; `dir.join("Cargo.toml")` for a directory that does not end in a separator.
abbrev pub build_args : Text → Bool → List Text
build_args dir release =
    codes "cargo"
    ∷ codes "miden"
    ∷ codes "build"
    ∷ (if release then codes "--release" else codes "--debug")
    ∷ codes "--manifest-path"
    ∷ (dir ++ codes "/Cargo.toml")
    ∷ []

module _ (h : Host) (c : CargoMiden h) where
  open h use {Package, package_read}
  open c use {World, run, read}

  -- `build_project_in_dir`
  unfoldable pub build_project_in_dir : Text → Bool → Action World Package
  build_project_in_dir dir release = do
    ran ← with_context (run (build_args dir release)) "Failed to compile project"
    output ← lift (context ran "Cargo miden build returned None")
    artifact_path ← lift (artifact_of output)
    package_bytes ← with_context (read artifact_path) "Failed to read compiled package"
    lift (context (package_read package_bytes) "Failed to deserialize package from bytes")
