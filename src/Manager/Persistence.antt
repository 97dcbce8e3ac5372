-- ===== src/Manager/Persistence.antt =====
-- What is written to disk is what is read back (src/lgtv_manager/persisted_state.rs).
use lgtv_manager.Prelude.{◌≡◌, refl, Option, none, some, String, Result, ok, err, arith}
use lgtv_manager.Environment.{Env, Failure, PersistedState}
use lgtv_manager.Manager.Persisted.{
  in_dir, parse_persisted, read_file, data_file_dir, written, write_json, create_and_write,
  write_file, get_data_file, read_persisted_state, write_persisted_state, persisted_state_file,
}

-- What the code relies on of the file system and of serde_json: a directory that could be made can be
-- made again, with no change; a file that was written holds its text; and a persisted state that was
-- written as text reads back.
pub record IsReliable (E : Env) : Type 0 where
  pub made_again :
      (dir : String) (d d' : E.Disk)
      → E.create_dir_all dir d ≡ (none, d')
      → E.create_dir_all dir d' ≡ (none, d')
  pub written_dir :
      (dir file text : String) (d d' : E.Disk)
      → E.create_dir_all dir d ≡ (none, d)
      → E.write_all file text d ≡ (none, d')
      → E.create_dir_all dir d' ≡ (none, d')
  pub created_dir :
      (dir file : String) (d d' : E.Disk)
      → E.create_dir_all dir d ≡ (none, d)
      → E.file_create file d ≡ (none, d')
      → E.create_dir_all dir d' ≡ (none, d')
  pub written_file :
      (file text : String) (d d' : E.Disk)
      → E.write_all file text d ≡ (none, d')
      → (E.file_open file d' ≡ none) × (E.read_to_string file d' ≡ ok text)
  pub json :
      (s : PersistedState) (text : String)
      → E.persisted_to_string s ≡ ok text
      → E.persisted_from_str text ≡ ok s

module _ (E : Env) (law : IsReliable E) where
  -- The read from a directory whose file holds the text of the state.
  read_back :
      (s : PersistedState) (dir text : String) (after : E.Disk)
      → E.persisted_to_string s ≡ ok text
      → E.create_dir_all dir after ≡ (none, after)
      → E.file_open (E.path_push dir persisted_state_file) after ≡ none
      → E.read_to_string (E.path_push dir persisted_state_file) after ≡ ok text
      → read_persisted_state E (some dir) after ≡ (ok s, after)
  unfolding read_persisted_state get_data_file in_dir data_file_dir read_file parse_persisted
  read_back s dir text after j c o r = ground (arith, law.json s text j)

  after_write_all :
      (s : PersistedState) (dir text : String) (made after : E.Disk)
      (result : Option Failure × E.Disk)
      → E.persisted_to_string s ≡ ok text
      → E.create_dir_all dir made ≡ (none, made)
      → E.write_all (E.path_push dir persisted_state_file) text made ≡ result
      → written E result ≡ (none, after)
      → read_persisted_state E (some dir) after ≡ (ok s, after)
  unfolding written
  after_write_all s dir text made after (some e, d) j c w h = cc
  after_write_all s dir text made after (none, d) j c w h =
      let same : E.write_all (E.path_push dir persisted_state_file) text made ≡ (none, after) =
        cc in
      let (opens, reads) =
        law.written_file (E.path_push dir persisted_state_file) text made after same in
      read_back s dir text after j
        (law.written_dir dir (E.path_push dir persisted_state_file) text made after c same) opens
        reads

  after_json :
      (s : PersistedState) (dir : String) (made after : E.Disk) (json : Result String Failure)
      → E.persisted_to_string s ≡ json
      → E.create_dir_all dir made ≡ (none, made)
      → write_json E (E.path_push dir persisted_state_file) json made ≡ (none, after)
      → read_persisted_state E (some dir) after ≡ (ok s, after)
  unfolding written write_json
  after_json s dir made after (err e) j c h = cc
  after_json s dir made after (ok text) j c h =
      after_write_all s dir text made after
        (E.write_all (E.path_push dir persisted_state_file) text made) j c refl h

  after_create :
      (s : PersistedState) (dir : String) (made after : E.Disk) (result : Option Failure × E.Disk)
      → E.create_dir_all dir made ≡ (none, made)
      → E.file_create (E.path_push dir persisted_state_file) made ≡ result
      → create_and_write E (E.path_push dir persisted_state_file) s result ≡ (none, after)
      → read_persisted_state E (some dir) after ≡ (ok s, after)
  unfolding write_json create_and_write
  after_create s dir made after (some e, d) c f h = cc
  after_create s dir made after (none, d) c f h =
      after_json s dir d after (E.persisted_to_string s) refl
        (law.created_dir dir (E.path_push dir persisted_state_file) made d c f) h

  after_make :
      (s : PersistedState) (dir : String) (disk after : E.Disk) (result : Option Failure × E.Disk)
      → E.create_dir_all dir disk ≡ result
      → write_persisted_state E s (some dir) disk ≡ (none, after)
      → read_persisted_state E (some dir) after ≡ (ok s, after)
  unfolding write_persisted_state get_data_file in_dir data_file_dir write_file create_and_write
  after_make s dir disk after (some e, d) c h = ground arith
  after_make s dir disk after (none, d) c h =
      let file = E.path_push dir persisted_state_file in
      let wrote : create_and_write E file s (E.file_create file d) ≡ (none, after) = ground arith in
      after_create s dir d after (E.file_create file d) (law.made_again dir disk d c) refl wrote

  in_default_dir :
      (s : PersistedState) (dir : Option String) (disk after : E.Disk)
      → E.project_data_dir ≡ dir
      → write_persisted_state E s none disk ≡ (none, after)
      → read_persisted_state E none after ≡ (ok s, after)
  unfolding write_persisted_state read_persisted_state get_data_file in_dir data_file_dir write_file
  in_default_dir s none disk after e h = ground arith
  in_default_dir s (some dir) disk after e h =
      ground (arith, after_make s dir disk after (E.create_dir_all dir disk) refl)

  -- A persisted state that was written with no error is what the next read from the same directory
  -- gives, where the directory is the caller's or, if there is none, the user's.
  pub read-write :
      (s : PersistedState) (data_dir : Option String) (disk after : E.Disk)
      → write_persisted_state E s data_dir disk ≡ (none, after)
      → read_persisted_state E data_dir after ≡ (ok s, after)
  read-write s none disk after h = in_default_dir s E.project_data_dir disk after refl h
  read-write s (some dir) disk after h =
      after_make s dir disk after (E.create_dir_all dir disk) refl h
