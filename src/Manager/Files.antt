-- ===== src/Manager/Files.antt =====
-- The files of an experiment: gateway_manager.py and config.py.
use iot_lab_gateway.Prelude.{ℕ, String, List, [], ◌∷◌, ◌==◌, if◌then◌else◌}
use iot_lab_gateway.Text.{concat, str}
use iot_lab_gateway.Effects.{
  World, Action, pure, perform, ◌>>=◌, ◌>>◌, create_file, file_size, remove_file, make_folder, done,
}
use iot_lab_gateway.OpenOcd.{attempted}
use iot_lab_gateway.ControlNode.{Files}

-- `config.EXP_FILES`: the kind of data, and its folder and suffix.
abbrev pub exp_kinds : List (String × String)
exp_kinds =
    ("consumption", ".oml")
    ∷ ("radio", ".oml")
    ∷ ("event", ".oml")
    ∷ ("sniffer", ".oml")
    ∷ ("log", ".log")
    ∷ []

-- `config.EXP_FILES_DIR.format(user=user, exp_id=exp_id)`, with the default folder of users.
unfoldable pub exp_dir : String → ℕ → String
unfolding concat str
exp_dir user exp_id = concat ("/iotlab/users/" ∷ user ∷ "/.iot-lab/" ∷ str exp_id ∷ "/" ∷ [])

module _ {O : Type 0} (world : World) where
  -- `create_user_exp_files`, by the kinds that are left.
  unfoldable pub create_files : String → String → List (String × String) → Action O Files
  unfolding concat
  create_files dir node_id [] = pure []
  create_files dir node_id ((kind, suffix) ∷ kinds) =
      let path = concat (dir ∷ kind ∷ "/" ∷ node_id ∷ suffix ∷ []) in
      perform world (create_file path) >>= λ created. attempted created >>= λ _.
      create_files dir node_id kinds >>= λ rest. pure ((kind, path) ∷ rest)

  unfoldable pub create_user_exp_files : String → String → ℕ → Action O Files
  unfolding create_files exp_dir
  create_user_exp_files node_id user exp_id = create_files (exp_dir user exp_id) node_id exp_kinds

  -- `config.clean_user_file`: an empty file is removed; an OSError is passed over.
  unfoldable pub clean_user_file : String → Action O (Unit {0})
  clean_user_file path = do
    size ← perform world (file_size path)
    elim size [
      | done n ↦ if n == 0 then perform world (remove_file path) >> pure tt else pure tt
      | _ ↦ pure tt
    ]

  unfoldable pub cleanup_user_exp_files : Files → Action O (Unit {0})
  unfolding clean_user_file
  cleanup_user_exp_files [] = pure tt
  cleanup_user_exp_files ((kind, path) ∷ files) =
      clean_user_file path >> cleanup_user_exp_files files

  -- `os.makedirs` for each kind; an OSError is passed over.
  unfoldable pub create_folders : String → List (String × String) → Action O (Unit {0})
  unfolding concat
  create_folders dir [] = pure tt
  create_folders dir ((kind, suffix) ∷ kinds) =
      perform world (make_folder (concat (dir ∷ kind ∷ []))) >> create_folders dir kinds

  unfoldable pub create_user_exp_folders : String → ℕ → Action O (Unit {0})
  unfolding create_folders exp_dir
  create_user_exp_folders user exp_id = create_folders (exp_dir user exp_id) exp_kinds
