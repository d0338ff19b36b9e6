-- ===== src/Storage/State.antt =====
-- The state of the registry service, what it is built from, and what a request brings.
pub use regixtry.Actions.{Env, continue, ◌>>◌, when}
unfoldable pub use regixtry.Actions.{
  pure, raise, lift, try, ◌>>=◌, reject, gets, puts, ask, ask?, statement,
}
use regixtry.Base.{ℕ, ℤ, Bool, List, Option, Text, Result}
use regixtry.Errors.{Error}
use regixtry.Actions
use regixtry.Auth.Principal.{Principal}
use regixtry.Access.{Action}
use regixtry.Registry.Upload.{UploadState}
use regixtry.Registry.Manifest.{Annotations}
use regixtry.Storage.Files.{FilePath, File}
use regixtry.Storage.Tables.{Tables}

-- A scan that a push puts in the queue (the arguments of queuePushScan).
pub record PushScan : Type 0 where
  pub tenant : Text
  pub repository : Text
  pub reference : Text
  pub digest : Text

-- The files, the tables, the runs that hold the gate of the garbage collector (scanGate), and the
-- scans that were started.
pub record State : Type 0 where
  pub files : List File
  pub tables : Tables
  pub in_flight : ℕ
  pub scans : List PushScan

abbrev pub World : Type 0
World = Actions.World State

abbrev pub M : Type 0 → Type 0
M A = Actions.M State A

-- manifestResource and manifestEnvelope (internal/app/regixtry/service.go)
pub record ManifestResource : Type 0 where
  pub media_type : Text
  pub digest : Text
  pub size : ℤ

pub record ManifestEnvelope : Type 0 where
  pub media_type : Text
  pub artifact_type : Text
  pub config : Option ManifestResource
  pub layers : List ManifestResource
  pub subject : Option ManifestResource
  pub annotations : Annotations

-- What the service is built from. Of the standard library: SHA-256, encoding/json on the two types
-- that it reads, how much of what is written is on the disk where writing fails, and whether a
-- failed rename reports that the target exists, which may depend on the files.
pub record Site : Type 0 where
  pub env : Env
  pub root_dir : FilePath
  pub sha256 : List ℕ → List ℕ
  pub marshal_upload : UploadState → List ℕ
  pub unmarshal_upload : List ℕ → Option UploadState
  pub unmarshal_manifest : List ℕ → Option ManifestEnvelope
  pub written : ℕ → ℕ
  pub is_exist : List File → FilePath → ℕ → Bool
  pub access : Action → Result Error (Unit {0})
  pub delete_enabled : Bool
  pub gc_delete_enabled : Bool

-- What the context of a request holds.
pub record Request : Type 0 where
  pub tenant : Text
  pub principal : Option Principal
