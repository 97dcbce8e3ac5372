-- ===== src/Discovery/Told.antt =====
-- What the caller hears of a discovery (`discover` of src/lgtv_manager/network_utils.rs).
use lgtv_manager.Prelude.{◌≡◌, true, false, List, [], ◌∷◌, ◌++◌, String, Result, ok}
use lgtv_manager.Prelude.Channel.{Channel, take_room, sent-send_each}
use lgtv_manager.Connection.{LgTvDevice}
use lgtv_manager.Manager.Messages.{ManagerOutputMessage, is_discovering}
use lgtv_manager.Environment.{Env, Failure}
use lgtv_manager.Discovery.{DeviceSpec, Neighbours, discover_lgtv_devices, outcome, discover_task}
use lgtv_manager.Discovery.Found.{all_devices, given, discover_lgtv_devices_lem}

sent-discover_task :
    {M : Type 0} (result : Result (List LgTvDevice) String)
    (output_tx : Channel (ManagerOutputMessage M))
    → (discover_task result output_tx).sent
      ≡ output_tx.sent
        ++ take_room output_tx.room
            (is_discovering true ∷ outcome result ∷ is_discovering false ∷ [])
unfolding discover_task
sent-discover_task result output_tx =
    sent-send_each (is_discovering true ∷ outcome result ∷ is_discovering false ∷ []) _ _

-- A discovery tells the caller that it begins, then of each UDN in the stream the device that comes
-- first, if it is an LG TV, in the order of the stream (for a stream with an error in it, that
-- error alone), and last that it is over; of these three messages the first ones only, as many as
-- the caller still takes.
pub sent-discover_lgtv_devices :
    (E : Env) (net : Neighbours) (stream : List (Result DeviceSpec Failure))
    (output_tx : Channel (ManagerOutputMessage E.MacAddr))
    → (discover_task (discover_lgtv_devices E net (ok stream)) output_tx).sent
      ≡ output_tx.sent
        ++ take_room output_tx.room (
            is_discovering true
            ∷ outcome (given E net (all_devices stream))
            ∷ is_discovering false
            ∷ [])
sent-discover_lgtv_devices E net stream output_tx =
    rw (discover_lgtv_devices_lem E net stream) (sent-discover_task _ output_tx)
