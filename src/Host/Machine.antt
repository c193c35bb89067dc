-- ===== src/Host/Machine.antt =====
-- A machine for the examples: the files that it has, the mounts, and the statuses that the
-- container passes through. Every command succeeds and is written down.
use waydroid.Base.Int.{ℤ, pos}
use waydroid.Host.{Host, Config, Answer}
use waydroid.Base.{String, true, false, Option, none, some, List, [], ◌∷◌, ◌++◌, ◌<>◌, M, NoneType}
use waydroid.Base.{Result, ok, raised, os_error, pure, modify, contains, string_eq}
use waydroid.Base.{◌==◌, if◌then◌else◌}
use waydroid.Base.Dict
use waydroid.Base.Dict.{Dict}

pub record Machine : Type 0 where
  pub files : Dict String String
  pub dirs : List String
  pub mounts : List String
  -- what `lxc-info` prints, one for each call; STOPPED when they are used up
  pub statuses : List String
  pub configs : Dict String Config
  pub answers : Dict String Answer
  pub hashes : Dict String String
  pub commands : List (List String)

abbrev pub bare : Machine
bare = record {
  files = [];
  dirs = [];
  mounts = [];
  statuses = [];
  configs = [];
  answers = [];
  hashes = [];
  commands = [];
}

abbrev note : List String → Machine → Machine
note command m = record m { commands = m.commands ++ (command ∷ []) }

abbrev next_status : List String → Machine → Result (ℤ × String) × Machine
next_status [] m = (ok (pos 0, "STOPPED\n"), m)
next_status (s ∷ rest) m = (ok (pos 0, s), record m { statuses = rest })

abbrev pub or_missing {ℓ} : {A : Type ℓ} → Option A → A → A
or_missing none a = a
or_missing (some b) a = b

abbrev read_text : Option String → Result String
read_text none = raised (os_error "No such file")
read_text (some text) = ok text

-- `/proc/mounts`, with a line for each mount.
abbrev mount_lines : List String → String
mount_lines [] = ""
mount_lines (point ∷ rest) = "none " <> (point <> (" none rw 0 0\n" <> mount_lines rest))

abbrev read_file : String → Machine → Result String
read_file p m =
    if p == "/proc/mounts" then ok (mount_lines m.mounts) else read_text (Dict.lookup p m.files)

-- The last argument of `mount` is the mount point.
abbrev last_of : String → List String → String
last_of x [] = x
last_of x (y ∷ rest) = last_of y rest

abbrev without : String → List String → List String
without point [] = []
without point (x ∷ rest) = let kept = without point rest in if point == x then kept else x ∷ kept

abbrev mount_command : List String → Machine → Machine
mount_command arguments m = record m { mounts = m.mounts ++ (last_of "" arguments ∷ []) }

abbrev umount_command : List String → Machine → Machine
umount_command arguments m = record m { mounts = without (last_of "" arguments) m.mounts }

abbrev run_command : List String → Machine → Result (ℤ × String) × Machine
run_command [] m = (ok (pos 0, ""), m)
run_command (name ∷ rest) m =
    if name == "lxc-info"
    then next_status m.statuses m
    else if name == "mount"
    then (ok (pos 0, ""), note (name ∷ rest) (mount_command rest m))
    else if name == "umount"
    then (ok (pos 0, ""), note (name ∷ rest) (umount_command rest m))
    else (ok (pos 0, ""), note (name ∷ rest) m)

abbrev logged : List String → M Machine NoneType
logged command = modify (note command)

abbrev pub machine : Host
machine = record {
  State = Machine;
  exists = λ p m. if contains m.dirs p then true else Dict.has_key p m.files;
  is_file = λ p m. Dict.has_key p m.files;
  is_dir = λ p m. contains m.dirs p;
  real_path = λ p m. p;
  is_mount_point = λ p m. contains m.mounts p;
  which = λ p m. false;
  glob = λ p m. [];
  list_dir = λ p m. [];
  owner = λ p m. "1000";
  read = read_file;
  write = λ p text. modify (λ m. record m { files = Dict.insert p text m.files });
  touch = λ p. logged ("touch" ∷ p ∷ []);
  make_dir = λ p. logged ("mkdir" ∷ p ∷ []);
  make_dirs = λ p. logged ("mkdir" ∷ "-p" ∷ p ∷ []);
  remove = λ p m.
      if Dict.has_key p m.files
      then (ok tt, record m { files = Dict.erase p m.files })
      else (raised (os_error "No such file"), m);
  remove_dir = λ p. logged ("rmdir" ∷ p ∷ []);
  remove_tree = λ p. logged ("rm" ∷ "-r" ∷ p ∷ []);
  copy = λ p q. logged ("cp" ∷ p ∷ q ∷ []);
  copy_tree = λ p q. logged ("cp" ∷ "-r" ∷ p ∷ q ∷ []);
  chmod = λ p mode. logged ("chmod" ∷ p ∷ mode ∷ []);
  process = run_command;
  spawn = logged;
  signal_user = λ pid. logged ("kill" ∷ "-USR1" ∷ pid ∷ []);
  sleep = λ m. m;
  read_config = λ p m. ok (or_missing (Dict.lookup p m.configs) []);
  write_config = λ p cfg.
      modify
        (λ m. record m { files = Dict.insert p "" m.files; configs = Dict.insert p cfg m.configs });
  retrieve = λ url m.
      (ok (or_missing (Dict.lookup url m.answers) (record { status = 404; builds = [] })), m);
  retrieve_status = λ url m.
      (ok (elim (Dict.lookup url m.answers) [ none ↦ 404 | some answer ↦ answer.status ]), m);
  download = λ url name. pure name;
  download_cached = λ url name. pure name;
  sha256 = λ p m. ok (or_missing (Dict.lookup p m.hashes) "");
  extract_all = λ p q. logged ("unzip" ∷ p ∷ q ∷ []);
  release = λ m. "6.1.0-13-amd64";
  getprop = λ p m. "";
  getprop_list = λ m. "";
  machine_name = λ m. "x86_64";
  is_32bit = λ m. false;
  is_32bit_capable = λ m. true;
  is_block = λ p m. raised (os_error "No such file");
  services = λ p m. raised (os_error "No such device");
  tools_src = λ m. "/usr/lib/waydroid";
  run_terminal = logged;
  stdout_mode = λ m. ok "620";
  chmod_stdout = λ mode. logged ("chmod" ∷ mode ∷ []);
  ioctl = λ request node. logged ("ioctl" ∷ node ∷ []);
}
