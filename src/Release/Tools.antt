-- ===== src/Release/Tools.antt =====
-- What tools/release/package.py asks of Python's modules: files, directories, archives, the network.
-- A parameter of the script's model: nothing is assumed of it.
use waydroid.Base.{String, Bool, List, M, Result, NoneType}
use waydroid.Release.Channels.{Json}

-- A member of a ZIP archive.
pub record Member : Type 0 where
  pub filename : String
  -- whether `external_attr` holds a mode, and the mode
  pub has_mode : Bool
  pub is_dir : Bool

pub record Tools : Type 1 where
  pub State : Type 0
  -- `json.loads` of what a URL answers, and the copy of what it answers into a file
  pub fetch_json : String → M State Json
  pub fetch_file : String → String → M State NoneType
  -- `hashlib` over a file
  pub sha256 : String → State → Result String
  pub md5 : String → State → Result String
  -- `ZipFile.infolist`, the copy of a member into a file, `extractall`, and `os.chmod` to the
  -- mode that a member has
  pub infolist : String → State → Result (List Member)
  pub extract_member : String → Member → String → M State NoneType
  pub extract_all : String → String → M State NoneType
  pub chmod_as : Member → String → M State NoneType
  pub chmod : String → M State NoneType
  pub is_dir : String → State → Bool
  pub list_dir : String → State → Result (List String)
  -- `os.walk`: each directory with the names of its directories and of its files
  pub walk : String → State → List (String × List String × List String)
  pub mkdtemp : String → M State String
  pub make_dirs : String → M State NoneType
  -- `os.makedirs(path, exist_ok=True)`
  pub ensure_dirs : String → M State NoneType
  pub copy : String → String → M State NoneType
  pub copy_tree : String → String → M State NoneType
  -- `shutil.copytree(..., symlinks=True)`
  pub copy_tree_links : String → String → M State NoneType
  pub read : String → State → Result String
  pub write : String → String → M State NoneType
  pub remove : String → M State NoneType
  -- `shutil.rmtree(path, ignore_errors=True)`
  pub remove_tree : String → State → State
  -- `tarfile.open(path, "w:xz")` with `add(directory, arcname=...)`
  pub tar : String → String → String → M State NoneType
  -- the directory of the repository, from `os.path.abspath(__file__)`
  pub repository : State → String
  -- `os.path.relpath(path, root)`
  pub relpath : String → String → String
  -- the texts `INSTALL_SH` and `NOTICE`, on which nothing depends
  pub install_sh : String
  pub notice : String
