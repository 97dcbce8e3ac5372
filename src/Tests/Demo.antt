-- ===== src/Tests/Demo.antt =====
-- A concrete instance of what the model takes as a parameter, for the tests: a disk of one file,
-- URLs that are their own text and the persisted states that hold a URL and nothing else.
use lgtv_manager.Prelude.{ℕ}
use lgtv_manager.TvCommand.Decoding.{JsonReader, IsJsonReader}
use lgtv_manager.Prelude.{
  ◌≡◌, refl, ap, Bool, true, false, if◌then◌else◌, Option, none, some, String, Result, ok, err,
  str_eq, contains, eq_iff, subst, arith,
}
use lgtv_manager.Environment.{Env, Failure, PersistedState, domain}
use lgtv_manager.StateMachine.{State, Input, Output}
use lgtv_manager.StateMachine.Task.{RustFsm, IsRustFsm}
use lgtv_manager.Manager.Persistence.{IsReliable}

abbrev pub failure : String → Failure
failure text = record { display = text; debug = text }

-- The name and the text of the file, if it was written.
abbrev pub DemoDisk : Type 0
DemoDisk = Option (String × String)

abbrev open_file : String → DemoDisk → Option Failure
open_file file none = some (failure "not found")
open_file file (some (name, _)) = if str_eq file name then none else some (failure "not found")

abbrev read_text : String → DemoDisk → Result String Failure
read_text file none = err (failure "not found")
read_text file (some (name, text)) = if str_eq file name then ok text else err (failure "not found")

abbrev parse_url : String → Result String Failure
parse_url text = if str_eq text "" then err (failure "empty host") else ok text

abbrev state_text : Option String → Option String → Option String → Result String Failure
state_text (some url) none none = ok url
state_text _ _ _ = err (failure "unsupported")

abbrev pub demo : Env
demo = record {
  Url = String;
  url_parse = parse_url;
  url_scheme = λ u. if contains u "wss://" then "wss" else "ws";
  url_port = λ u. none;
  url_set_port = λ p u. some u;
  url_to_string = λ u. u;
  url_host = λ u. some (domain u);
  url_host_str = λ u. some u;
  MacAddr = String;
  mac_from_str = λ t. some t;
  mac_to_string = λ a. a;
  Value = Bool;
  Map = Bool;
  value_null = false;
  value_bool = λ b. b;
  value_number = λ n. true;
  value_string = λ t. true;
  value_object = λ o. o;
  as_object = λ v. some v;
  map_new = true;
  map_insert = λ k v o. o;
  value_from_str = λ t. ok true;
  request_to_string = λ r. ok r.id;
  response_from_str = λ t. err (failure t);
  persisted_from_str = λ t. ok (record { ws_url = some t; client_key = none; mac_addr = none });
  persisted_to_string = λ s. state_text s.ws_url s.client_key s.mac_addr;
  uuid = λ n. "id";
  register_payload = "{}";
  project_data_dir = some "/data";
  path_push = λ dir file. file;
  Disk = DemoDisk;
  create_dir_all = λ dir d. (none, d);
  file_open = open_file;
  read_to_string = read_text;
  file_create = λ file d. (none, some (file, ""));
  write_all = λ file text d. (none, some (file, text));
  WolMacAddr = String;
  wol_mac_from_str = λ t. some t;
  send_wol = λ mac ip. none;
  debug_state = λ s. "state";
  debug_str = λ t. t;
  ws_room = λ n. none;
}

file_reads :
    (file text : String) (d : DemoDisk)
    → ◌≡◌ {A = Option Failure × DemoDisk} (none, some (file, text)) (none, d)
    → (open_file file d ≡ none) × (read_text file d ≡ ok text)
file_reads file text d h =
    let named = (eq_iff file file).1 refl in
    subst (λ e. (open_file file e ≡ none) × (read_text file e ≡ ok text)) (ap (λ q. q.1) h)
      (rw named refl, rw named refl)

parses :
    (u k a : Option String) (text : String)
    → state_text u k a ≡ ok text
    → ◌≡◌ {A = Result PersistedState Failure}
        (ok (record { ws_url = some text; client_key = none; mac_addr = none }))
        (ok (record { ws_url = u; client_key = k; mac_addr = a }))
parses (some url) none none text h = ground (arith, h)
parses none k a text h = cc
parses (some url) (some k) a text h = cc
parses (some url) none (some a) text h = cc

pub demo-IsReliable : IsReliable demo
demo-IsReliable = record {
  made_again = λ dir d d' h. refl;
  written_dir = λ dir file text d d' c w. refl;
  created_dir = λ dir file d d' c w. refl;
  written_file = λ file text d d' w. file_reads file text d' w;
  json = λ s text h. parses s.ws_url s.client_key s.mac_addr text h;
}

-- `consume` as the crate documents it.
abbrev consumed :
    (State → Input → Option Output)
    → State
    → Input
    → Option State
    → Result (Option Output) String × State
consumed reply s i none = (err "TransitionImpossibleError", s)
consumed reply s i (some t) = (ok (reply s i), t)

abbrev pub demo_fsm : RustFsm
demo_fsm = record {
  consume = λ move reply s i. consumed reply s i (move s i);
  impossible = "TransitionImpossibleError";
  debug_state = λ s. "state";
  debug_input = λ i. "input";
}

pub demo_fsm-IsRustFsm : IsRustFsm demo_fsm
demo_fsm-IsRustFsm = record {
  accepted = λ move reply s t i h. ap (consumed reply s i) h;
  refused = λ move reply s i h. ap (consumed reply s i) h;
}

-- JSON values as a data type, for the arguments of the commands.
mutual
  pub data Json : Type 0 where
    null : Json
    bool : Bool → Json
    number : ℕ → Json
    text : String → Json
    object : Entries → Json

  pub data Entries : Type 0 where
    nil : Entries
    entry : String → Json → Entries → Entries

abbrev get_entry : String → Entries → Option Json
get_entry key nil = none
get_entry key (entry name value entries) =
    if str_eq key name then some value else get_entry key entries

abbrev get_value : String → Json → Option Json
get_value key (object entries) = get_entry key entries
get_value key _ = none

abbrev bool_of : Json → Option Bool
bool_of (bool b) = some b
bool_of _ = none

abbrev number_of : Json → Option ℕ
number_of (number n) = some n
number_of _ = none

abbrev text_of : Json → Option String
text_of (text t) = some t
text_of _ = none

abbrev object_of : Json → Option Entries
object_of (object entries) = some entries
object_of _ = none

-- The same instance with these values.
abbrev pub json : Env
json = record demo {
  Value = Json;
  Map = Entries;
  value_null = null;
  value_bool = bool;
  value_number = number;
  value_string = text;
  value_object = object;
  as_object = object_of;
  map_new = nil;
  map_insert = entry;
  value_from_str = λ t. ok (text t);
  request_to_string = λ r. ok r.id;
}

abbrev pub json_reader : JsonReader json
json_reader = record { get = get_value; as_bool = bool_of; as_u64 = number_of; as_str = text_of }

pub json_reader-IsJsonReader : IsJsonReader json json_reader
json_reader-IsJsonReader = record {
  found = λ key value map. rw ((eq_iff key key).1 refl) refl;
  bool_read = λ b. refl;
  number_read = λ n. refl;
  string_read = λ s. refl;
}
