-- ===== src/Host.antt =====
-- What the program asks of the operating system and of Python's modules for it: files, processes,
-- time, the network, configuration files. None of this is code of the repository, so it is a
-- parameter: an unknown state and the operations on it, of which nothing is assumed.
pub mod Machine
use waydroid.Base.{ℕ, String, Bool, Option, List, M, Result, NoneType}
use waydroid.Base.Dict.{Dict}
use waydroid.Base.Int.{ℤ}

-- The sections of a configuration file, each with its keys and values, as `configparser` reads them.
abbrev pub Config : Type 0
Config = Dict String (Dict String String)

-- A member of an OTA channel's answer, `json.loads(...)["response"]`.
pub record Build : Type 0 where
  pub datetime : ℕ
  pub url : String
  pub filename : String
  pub id : String

-- The status of an HTTP request, and the builds that its answer lists.
pub record Answer : Type 0 where
  pub status : ℕ
  pub builds : List Build

pub record Host : Type 1 where
  pub State : Type 0
  -- `os.path.exists`, `isfile`, `isdir`, `realpath` and `ismount`, `shutil.which`, `glob.glob`
  pub exists : String → State → Bool
  pub is_file : String → State → Bool
  pub is_dir : String → State → Bool
  pub real_path : String → State → String
  pub is_mount_point : String → State → Bool
  pub which : String → State → Bool
  pub glob : String → State → List String
  -- `os.listdir`
  pub list_dir : String → State → List String
  -- `str(os.stat(path).st_uid)`
  pub owner : String → State → String
  -- the text of a file, its writing, and the other calls on files
  pub read : String → State → Result String
  pub write : String → String → M State NoneType
  pub touch : String → M State NoneType
  pub make_dir : String → M State NoneType
  pub make_dirs : String → M State NoneType
  pub remove : String → M State NoneType
  pub remove_dir : String → M State NoneType
  pub remove_tree : String → M State NoneType
  pub copy : String → String → M State NoneType
  pub copy_tree : String → String → M State NoneType
  pub chmod : String → String → M State NoneType
  -- a process that is waited for, with its exit code, which is below 0 where a signal has ended it,
  -- and its output; and one that is not waited for
  pub process : List String → M State (ℤ × String)
  pub spawn : List String → M State NoneType
  -- `os.kill(int(pid), SIGUSR1)`
  pub signal_user : String → M State NoneType
  pub sleep : State → State
  -- `configparser.ConfigParser.read` and `write`
  pub read_config : String → State → Result Config
  pub write_config : String → Config → M State NoneType
  -- `http.retrieve`, with `json.loads` of the answer where the status is 200, and its status alone
  pub retrieve : String → M State Answer
  pub retrieve_status : String → M State ℕ
  -- `http.download` with `cache=False`, and with `cache=True`, which takes a file from the cache if
  -- there is one; `sha256sum` and `ZipFile.extractall`
  pub download : String → String → M State String
  pub download_cached : String → String → M State String
  pub sha256 : String → State → Result String
  pub extract_all : String → String → M State NoneType
  -- `os.uname().release`, and the output of `getprop` for a property
  pub release : State → String
  pub getprop : String → State → String
  -- the output of `getprop` for all properties
  pub getprop_list : State → String
  -- `fcntl.ioctl` on `/dev/binderfs/binder-control`, for a request and the name of a node
  pub ioctl : ℕ → String → M State NoneType
  -- `platform.machine()`, `platform.architecture()[0] == "32bit"` and `is_32bit_capable`
  pub machine_name : State → String
  pub is_32bit : State → Bool
  pub is_32bit_capable : State → Bool
  -- `stat.S_ISBLK(os.stat(path).st_mode)`
  pub is_block : String → State → Result Bool
  -- `gbinder.ServiceManager(device).list_sync()`
  pub services : String → State → Result (List String)
  -- the directory of the program, `tools.config.tools_src`
  pub tools_src : State → String
  -- `subprocess.run` on the terminal, and the mode of the terminal's file: read, and set
  pub run_terminal : List String → M State NoneType
  pub stdout_mode : State → Result String
  pub chmod_stdout : String → M State NoneType
