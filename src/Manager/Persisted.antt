-- ===== src/Manager/Persisted.antt =====
-- The state that is persisted to disk (src/lgtv_manager/persisted_state.rs).
use lgtv_manager.Prelude.{Option, none, some, String, ◌<>◌, Result, ok, err}
use lgtv_manager.Environment.{Env, Failure, PersistedState}
use lgtv_manager.Manager.State.{Manager}
use lgtv_manager.Manager.Senders.{emit_is_wake_tv_available}

-- `PERSISTED_STATE_FILE`.
abbrev pub persisted_state_file : String
persisted_state_file = "lgtv_manager_data.json"

module _ (E : Env) where
  -- The directory of the data file.
  unfoldable pub data_file_dir : Option String → Option String → Result String String
  data_file_dir (some path) _ = ok path
  data_file_dir none (some dir) = ok dir
  data_file_dir none none =
      err "Could not determine where to write data file: home directory unknown"

  -- `get_data_file`, with the disk on which the directory was made.
  unfoldable pub in_dir : Result String String → E.Disk → Result String String × E.Disk
  in_dir (err e) disk = (err e, disk)
  in_dir (ok dir) disk =
      let (failure, made) = E.create_dir_all dir disk in
      (
        elim failure [
          | some e ↦ err ("Could not create data directory: " <> e.debug)
          | none ↦ ok (E.path_push dir persisted_state_file)
        ],
        made,
      )

  unfoldable pub get_data_file : Option String → E.Disk → Result String String × E.Disk
  unfolding data_file_dir in_dir
  get_data_file passed_path disk = in_dir (data_file_dir passed_path E.project_data_dir) disk

  -- The state in the text of a file.
  unfoldable pub parse_persisted : Result String Failure → Result PersistedState String
  parse_persisted (err e) = err ("Error reading persisted state: " <> e.debug)
  parse_persisted (ok text) = elim (E.persisted_from_str text) [
    | ok s ↦ ok s
    | err e ↦ err ("Error reading persisted state: " <> e.debug)
  ]

  unfoldable pub read_file : Result String String → E.Disk → Result PersistedState String
  unfolding parse_persisted
  read_file (err e) disk = err e
  read_file (ok file) disk = elim (E.file_open file disk) [
    | some e ↦ err ("Could not read persisted state: " <> e.debug)
    | none ↦ parse_persisted (E.read_to_string file disk)
  ]

  -- `fn read_persisted_state`, with the disk after it.
  unfoldable pub read_persisted_state :
      Option String → E.Disk → Result PersistedState String × E.Disk
  unfolding get_data_file read_file
  read_persisted_state data_dir disk =
      let (file, made) = get_data_file data_dir disk in (read_file file made, made)

  -- The result of writing, from the failure of `write_all`.
  unfoldable pub written : Option Failure × E.Disk → Option String × E.Disk
  written (some e, disk) = (some ("Error writing persisted state: " <> e.debug), disk)
  written (none, disk) = (none, disk)

  unfoldable pub write_json : String → Result String Failure → E.Disk → Option String × E.Disk
  unfolding written
  write_json file (err e) disk = (some ("Error writing persisted state: " <> e.debug), disk)
  write_json file (ok json) disk = written (E.write_all file json disk)

  unfoldable pub create_and_write :
      String → PersistedState → Option Failure × E.Disk → Option String × E.Disk
  unfolding write_json
  create_and_write file state (some e, disk) =
      (some ("Error writing persisted state: " <> e.debug), disk)
  create_and_write file state (none, disk) = write_json file (E.persisted_to_string state) disk

  unfoldable pub write_file :
      Result String String → PersistedState → E.Disk → Option String × E.Disk
  unfolding create_and_write
  write_file (err e) state disk = (some e, disk)
  write_file (ok file) state disk = create_and_write file state (E.file_create file disk)

  -- `fn write_persisted_state`: the error, if there is one, and the disk after it.
  unfoldable pub write_persisted_state :
      PersistedState → Option String → E.Disk → Option String × E.Disk
  unfolding get_data_file write_file
  write_persisted_state state data_dir disk =
      let (file, made) = get_data_file data_dir disk in write_file file state made

module _ {E : Env} where
  -- The fields that `import_persisted_state` takes from the file.
  take_persisted : Result PersistedState String → Manager E → Manager E
  take_persisted (err e) m = m
  take_persisted (ok s) m = record m {
    ws_url = s.ws_url;
    client_key = s.client_key;
    mac_addr = elim s.mac_addr [ some text ↦ E.mac_from_str text | none ↦ none ];
  }

  -- `LgTvManager::import_persisted_state`.
  unfoldable pub import_persisted_state : Manager E → Manager E
  unfolding take_persisted
  import_persisted_state m =
      let (result, disk) = read_persisted_state E m.data_dir m.disk in
      take_persisted result (record m { disk = disk })

  -- What is written of a manager.
  abbrev pub persisted_of : Manager E → PersistedState
  persisted_of m = record {
    ws_url = m.ws_url;
    client_key = m.client_key;
    mac_addr = elim m.mac_addr [ some a ↦ some (E.mac_to_string a) | none ↦ none ];
  }

  after_write : Option String → Manager E → Manager E
  after_write none m = emit_is_wake_tv_available m
  after_write (some _) m = m

  -- `LgTvManager::write_persisted_state`.
  unfoldable pub save_persisted_state : Manager E → Manager E
  unfolding after_write
  save_persisted_state m =
      let (failure, disk) = write_persisted_state E (persisted_of m) m.data_dir m.disk in
      after_write failure (record m { disk = disk })

  -- `clear_persisted_state_on_manager`.
  unfoldable pub clear_persisted_state_on_manager : Manager E → Manager E
  clear_persisted_state_on_manager m = record m {
    ws_url = none;
    client_key = none;
    mac_addr = none;
  }
