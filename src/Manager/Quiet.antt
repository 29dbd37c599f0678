-- ===== src/Manager/Quiet.antt =====
-- Steps that only make calls: they leave the object that runs them alone.
use iot_lab_gateway.Prelude.{
  ℕ, zero, suc, ◌+◌, ◌*◌, refl, Bool, true, false, String, Option, none, some, arith, List, [], ◌∷◌,
  ltb, if◌then◌else◌,
}
use iot_lab_gateway.Effects.{
  World, Action, Attempt, done, io_failed, os_failed, path_exists, now, create_file, make_folder,
  sleep,
}
use iot_lab_gateway.Effects.Triples.{Steady, Steady-bind, Steady-perform, Steady-pure}
use iot_lab_gateway.Text.{concat}
use iot_lab_gateway.OpenOcd.{attempted}
use iot_lab_gateway.Common.{same_flag, wait_loop, wait_cond, wait_tty, wait_no_tty, found_code}
use iot_lab_gateway.ElfTarget.{is_compatible_with_node}
use iot_lab_gateway.Manager.Files.{
  create_files, create_user_exp_files, clean_user_file, cleanup_user_exp_files, create_folders,
  create_user_exp_folders, exp_dir, exp_kinds,
}

pub Steady-if :
    {O A : Type 0} (b : Bool) (m n : Action O A) → Steady m → Steady n → Steady (if b then m else n)
Steady-if true m n sm sn = sm
Steady-if false m n sm sn = sn

pub Steady-attempted : {O A : Type 0} (a : Attempt A) → Steady {O = O} (attempted a)
Steady-attempted (done a) = Steady-pure a
Steady-attempted (io_failed n) = record { same_self = λ s. refl }
Steady-attempted (os_failed n) = record { same_self = λ s. refl }

module _ {O : Type 0} (world : World) where
  Steady-wait_loop :
      (fuel deadline : ℕ) (value : Bool) (path : String)
      → Steady {O = O} (wait_loop world fuel deadline value path)
  unfolding wait_loop
  Steady-wait_loop zero deadline value path = Steady-pure none
  Steady-wait_loop (suc fuel) deadline value path =
      Steady-bind _ _ (Steady-perform world (path_exists path)) λ found.
        Steady-if (same_flag value found) _ _ (Steady-pure (some true)) (
          Steady-bind _ _ (Steady-perform world now) λ time.
            Steady-if (ltb deadline time) _ _ (Steady-pure (some false)) (
              Steady-bind _ _ (Steady-perform world (sleep 1))
                λ _. Steady-wait_loop fuel deadline value path))

  pub Steady-wait_tty : (tty : String) (timeout : ℕ) → Steady {O = O} (wait_tty world tty timeout)
  unfolding wait_tty wait_cond
  Steady-wait_tty tty timeout =
      Steady-bind _ _
        (Steady-bind _ _ (Steady-perform world now)
          λ start. Steady-wait_loop (suc (timeout * 10 + 1)) (start + timeout * 10) true tty)
        λ found. Steady-pure (found_code found)

  pub Steady-wait_no_tty :
      (tty : String) (timeout : ℕ) → Steady {O = O} (wait_no_tty world tty timeout)
  unfolding wait_no_tty wait_cond
  Steady-wait_no_tty tty timeout =
      Steady-bind _ _
        (Steady-bind _ _ (Steady-perform world now)
          λ start. Steady-wait_loop (suc (timeout * 10 + 1)) (start + timeout * 10) false tty)
        λ found. Steady-pure (found_code found)

  pub Steady-is_compatible_with_node :
      (firmware : Option String) (target : Option (String × String))
      → Steady {O = O} (is_compatible_with_node world firmware target)
  unfolding is_compatible_with_node
  Steady-is_compatible_with_node none target = Steady-pure true
  Steady-is_compatible_with_node (some path) none = record { same_self = λ s. refl }
  Steady-is_compatible_with_node (some path) (some target) = record {
    same_self = λ s. ground arith;
  }

  Steady-clean_user_file : (path : String) → Steady {O = O} (clean_user_file world path)
  unfolding clean_user_file
  Steady-clean_user_file path = record { same_self = λ s. ground arith }

  pub Steady-cleanup_user_exp_files :
      (files : List (String × String)) → Steady {O = O} (cleanup_user_exp_files world files)
  unfolding cleanup_user_exp_files
  Steady-cleanup_user_exp_files [] = Steady-pure tt
  Steady-cleanup_user_exp_files ((kind, path) ∷ files) =
      Steady-bind _ _ (Steady-clean_user_file path) λ _. Steady-cleanup_user_exp_files files

  Steady-create_files :
      (dir node_id : String) (kinds : List (String × String))
      → Steady {O = O} (create_files world dir node_id kinds)
  unfolding create_files
  Steady-create_files dir node_id [] = Steady-pure []
  Steady-create_files dir node_id ((kind, suffix) ∷ kinds) =
      let path = concat (dir ∷ kind ∷ "/" ∷ node_id ∷ suffix ∷ []) in
      Steady-bind _ _ (Steady-perform world (create_file path)) λ (created : Attempt (Unit {0})).
        Steady-bind (attempted created) _ (Steady-attempted created) λ _.
          Steady-bind (create_files world dir node_id kinds) _
            (Steady-create_files dir node_id kinds) λ rest. Steady-pure ((kind, path) ∷ rest)

  pub Steady-create_user_exp_files :
      (node_id user : String) (exp_id : ℕ)
      → Steady {O = O} (create_user_exp_files world node_id user exp_id)
  unfolding create_user_exp_files
  Steady-create_user_exp_files node_id user exp_id =
      Steady-create_files (exp_dir user exp_id) node_id exp_kinds

  Steady-create_folders :
      (dir : String) (kinds : List (String × String))
      → Steady {O = O} (create_folders world dir kinds)
  unfolding create_folders
  Steady-create_folders dir [] = Steady-pure tt
  Steady-create_folders dir ((kind, suffix) ∷ kinds) =
      Steady-bind _ _ (Steady-perform world (make_folder (concat (dir ∷ kind ∷ []))))
        λ _. Steady-create_folders dir kinds

  pub Steady-create_user_exp_folders :
      (user : String) (exp_id : ℕ) → Steady {O = O} (create_user_exp_folders world user exp_id)
  unfolding create_user_exp_folders
  Steady-create_user_exp_folders user exp_id = Steady-create_folders (exp_dir user exp_id) exp_kinds
