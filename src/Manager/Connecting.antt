-- ===== src/Manager/Connecting.antt =====
-- The outcomes of a request to connect (`initiate_connect_to_tv` of
-- src/lgtv_manager/orchestration.rs).
use lgtv_manager.Prelude.{
  ◌≡◌, refl, ap, ◌∙◌, ◌≢◌, Option-cases, ◌⊎◌, inl, inr, Bool, true, false, if◌then◌else◌, is_some,
  Option, none, some, String, ◌<>◌, Result, ok, err, arith,
}
use lgtv_manager.Prelude.Channel.{Channel, send, is_open}
use lgtv_manager.Connection.{Connection, host, device, settings}
use lgtv_manager.Environment.{Env}
use lgtv_manager.Helpers.{websocket_url_for_connection}
use lgtv_manager.StateMachine.{Input, disconnected}
use lgtv_manager.Manager.Messages.{state_eq, active, inactive}
use lgtv_manager.Manager.State.{Manager}
use lgtv_manager.Manager.Senders.{
  send_out, send_to_fsm, set_manager_status, set_reconnect_flow_status,
}
use lgtv_manager.Manager.Equality.{same_state}
use lgtv_manager.Manager.Orchestration.Connect.{
  begin_connect, set_mac_addr, override_client_key, connect_at, initiate_connect_to_tv,
}

abbrev pub or_else : Option String → Option String → Option String
or_else none old = old
or_else (some key) old = some key

module _ {E : Env} where
  override-or_else :
      (key : Option String) (m : Manager E)
      → override_client_key key m ≡ record m { client_key = or_else key m.client_key }
  unfolding override_client_key
  override-or_else none m = refl
  override-or_else (some key) m = refl

  -- The three tests of a connect, with what they decide.
  connect_by_tests :
      (idle ready : Bool) (url : Result String String) (busy early : String) (c : Connection)
      (m : Manager E)
      → let (failure, after) =
          if idle
          then (if ready then connect_at c url m else (some early, m))
          else (some busy, m) in
        ((failure ≢ none) × (after ≡ m))
        ⊎ ((failure ≡ none)
            × (idle ≡ true)
            × (ready ≡ true)
            × ((u : String) × (url ≡ ok u) × (after ≡ begin_connect c u m)))
  unfolding connect_at
  connect_by_tests false ready url busy early c m = inl (λ h. cc, refl)
  connect_by_tests true false url busy early c m = inl (λ h. cc, refl)
  connect_by_tests true true (err e) busy early c m = inl (λ h. cc, refl)
  connect_by_tests true true (ok u) busy early c m = inr (refl, refl, refl, (u, refl, refl))

  -- A connect that is refused changes nothing but the client key, which is that of the settings if
  -- they have one. A connect that is accepted was asked of a disconnected manager with a channel to
  -- the state machine, and is the begin of the flow to the URL that the helpers make of the
  -- connection.
  pub connect_outcome :
      (c : Connection) (m : Manager E)
      → let keyed = record m { client_key = or_else (settings c).client_key m.client_key } in
        let (failure, after) = initiate_connect_to_tv c m in
        ((failure ≢ none) × (after ≡ keyed))
        ⊎ ((failure ≡ none)
            × (state_eq m.manager_status disconnected ≡ true)
            × (is_some m.to_fsm_tx ≡ true)
            × ((url : String) × (websocket_url_for_connection E c ≡ ok url)
                × (after ≡ begin_connect c url keyed)))
  unfolding initiate_connect_to_tv
  connect_outcome c m =
      let keyed = record m { client_key = or_else (settings c).client_key m.client_key } in
      rw (override-or_else (settings c).client_key m) (
        connect_by_tests (state_eq m.manager_status disconnected) (is_some m.to_fsm_tx)
          (websocket_url_for_connection E c)
          ("Cannot connect while not in Disconnected state (current state: "
            <> E.debug_state m.manager_status
            <> ")")
          "Cannot connect before state machine channel is available" c keyed)

  -- What a connect that was begun leaves: the connection, its URL, the reconnect flow that its
  -- settings ask for, and the input to connect as the last one that the state machine was sent, with
  -- the status kept where that still listens.
  begin_connect_lem :
      (c : Connection) (url : String) (m : Manager E) (tx : Channel Input)
      → m.to_fsm_tx ≡ some tx
      → let after = begin_connect c url m in
        (after.connection_details ≡ some c)
        × (after.ws_url ≡ some url)
        × (after.client_key ≡ m.client_key)
        × (after.reconnect_flow_status
            ≡ (if (settings c).initial_connect_retries then active else inactive))
        × (after.to_fsm_tx ≡ some (send (Input.connect url) tx))
        × ((is_open tx.room ≡ false) ⊎ (after.manager_status ≡ m.manager_status))
  unfolding begin_connect set_mac_addr set_reconnect_flow_status send_out send_to_fsm
      set_manager_status send
  begin_connect_lem (host h s) url m tx e = ground (arith, e)
  begin_connect_lem (device d s) url m tx e = ground (arith, e)

  -- A connect can be begun.
  abbrev pub Ready : Connection → Manager E → Type 0
  Ready c m =
      (m.manager_status ≡ disconnected)
      × (is_some m.to_fsm_tx ≡ true)
      × ((url : String) × (websocket_url_for_connection E c ≡ ok url))

  accepts-Ready :
      (c : Connection) (m : Manager E) → Ready c m → (initiate_connect_to_tv c m).0 ≡ none
  unfolding initiate_connect_to_tv connect_at state_eq
  accepts-Ready c m (idle, ready, (url, found)) =
      rw (override-or_else (settings c).client_key m, idle, ready, found) refl

  -- A connect is refused with an error exactly where the manager is not disconnected, has no channel
  -- to the state machine or finds no URL for the connection, and then changes nothing but the client
  -- key, which is that of the settings if they have one. An accepted one sets that key, the connection,
  -- its URL and the reconnect flow that the settings ask for, and sends the state machine the input to
  -- connect to that URL, as the last one; where that still listens, the manager stays
  -- disconnected until it hears of it.
  pub connect_decides :
      (c : Connection) (m : Manager E)
      → let key = or_else (settings c).client_key m.client_key in
        let (failure, after) = initiate_connect_to_tv c m in
        ((failure ≢ none) × ¬ Ready c m × (after ≡ record m { client_key = key }))
        ⊎ ((failure ≡ none)
            × (m.manager_status ≡ disconnected)
            × ((url : String) × (tx : Channel Input) × (websocket_url_for_connection E c ≡ ok url)
                × (m.to_fsm_tx ≡ some tx)
                × (after.connection_details ≡ some c)
                × (after.ws_url ≡ some url)
                × (after.client_key ≡ key)
                × (after.reconnect_flow_status
                    ≡ (if (settings c).initial_connect_retries then active else inactive))
                × (after.to_fsm_tx ≡ some (send (Input.connect url) tx))
                × ((is_open tx.room ≡ false) ⊎ (after.manager_status ≡ disconnected))))
  connect_decides c m =
      let keyed = record m { client_key = or_else (settings c).client_key m.client_key } in
      elim (connect_outcome c m) [
        | inl (fails, same) ↦ inl (fails, λ ready. fails (accepts-Ready c m ready), same)
        | inr (accepted, idle, ready, (url, found, begun)) ↦ elim (Option-cases m.to_fsm_tx) [
          | inl lacks ↦ cc (ap is_some lacks, ready)
          | inr (tx, has) ↦
              let (details, at, key, flow, told, shown) = begin_connect_lem c url keyed tx has in
              let free = same_state m.manager_status disconnected idle in
              inr (
                accepted,
                free,
                (
                  url,
                  tx,
                  found,
                  has,
                  ap (λ n. n.connection_details) begun ∙ details,
                  ap (λ n. n.ws_url) begun ∙ at,
                  ap (λ n. n.client_key) begun ∙ key,
                  ap (λ n. n.reconnect_flow_status) begun ∙ flow,
                  ap (λ n. n.to_fsm_tx) begun ∙ told,
                  elim shown [
                    | inl gone ↦ inl gone
                    | inr kept ↦ inr (ap (λ n. n.manager_status) begun ∙ kept ∙ free)
                  ],
                ),
              )
        ]
      ]
