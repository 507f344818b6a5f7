-- ===== src/FileSystem.antt =====
-- What the scripts ask of the file system, as a parameter: `fs` of Node. It does not change during
-- a run, since the validators only read.
use vinuchain_lists.Prelude.{ℕ, Bool, List, Text, Outcome}

pub data FileError : Type 0 where
  enoent eacces other_error : FileError

pub record FileSystem : Type 0 where
  -- `fs.existsSync`
  pub exists : Text → Bool
  -- `fs.statSync(path).isDirectory()`, and `false` where it throws
  pub is_directory : Text → Bool
  -- `fs.statSync(path).size`, in bytes
  pub size : Text → Outcome FileError ℕ
  -- `fs.readFileSync(path, 'utf8')`
  pub read : Text → Outcome FileError Text
  -- `fs.readdirSync(path)`
  pub read_dir : Text → Outcome FileError (List Text)
  -- the first 12 bytes of the file, 0 where the file is shorter
  pub header : Text → Outcome FileError (List ℕ)
