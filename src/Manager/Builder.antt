-- ===== src/Manager/Builder.antt =====
-- The builder of the manager (src/lgtv_manager_builder.rs).
use lgtv_manager.Prelude.{◌≡◌, ◌▹◌, Option, none, some, String, Result, ok, err, arith}
use lgtv_manager.Environment.{Env, PersistedState}
use lgtv_manager.Manager.State.{Manager}
use lgtv_manager.Manager.Persisted.{
  read_persisted_state, import_persisted_state, clear_persisted_state_on_manager,
}

-- What a read of the persisted state gives of the three fields that are persisted.
abbrev pub known_of :
    (E : Env) → Result PersistedState String → Option String × Option String × Option E.MacAddr
known_of E (err _) = (none, none, none)
known_of E (ok s) =
    (s.ws_url, s.client_key, elim s.mac_addr [ some text ↦ E.mac_from_str text | none ↦ none ])

module _ {E : Env} where
  -- `LgTvManagerBuilder::with_data_dir`, on the manager that is built.
  unfoldable pub with_data_dir : String → Manager E → Manager E
  with_data_dir data_dir m =
      record m { data_dir = some data_dir }
      ▹ clear_persisted_state_on_manager
      ▹ import_persisted_state

  -- The same fields of a manager.
  abbrev pub known : Manager E → Option String × Option String × Option E.MacAddr
  known m = (m.ws_url, m.client_key, m.mac_addr)

  -- A manager that is built with a data directory knows what the read from that directory gives, and
  -- nothing where it fails, whatever it knew from the directory that it was made with.
  with_data_dir_lem :
      (data_dir : String) (m : Manager E)
      → known (with_data_dir data_dir m)
        ≡ known_of E (read_persisted_state E (some data_dir) m.disk).0
  unfolding with_data_dir clear_persisted_state_on_manager import_persisted_state
  with_data_dir_lem data_dir m = ground arith
