-- ===== src/Manager/Equality.antt =====
-- The derived equality of the states (src/state_machine.rs) is equality.
use lgtv_manager.Prelude.{◌≡◌, ap, true, ◌&&◌, ◌==◌, String, str_eq, eq_iff, arith}
use lgtv_manager.StateMachine.{
  State, connecting, connected, pairing, initializing, communicating, disconnecting,
  waiting_to_reconnect, ReconnectDetails,
}
use lgtv_manager.Manager.Messages.{state_eq}

same_text : (u v : String) → str_eq u v ≡ true → u ≡ v
same_text u v h = (eq_iff u v).0 h

same_details :
    (d e : ReconnectDetails)
    → (str_eq d.url e.url && (d.attempts == e.attempts && d.next_attempt_ms == e.next_attempt_ms))
      ≡ true
    → d ≡ e
same_details d e h = ground (arith, same_text d.url e.url)

-- Two states that compare as equal are the same.
pub same_state : (s t : State) → state_eq s t ≡ true → s ≡ t
unfolding state_eq
same_state (connecting u) (connecting v) h = ap connecting (same_text u v h)
same_state (connected u) (connected v) h = ap connected (same_text u v h)
same_state (pairing u) (pairing v) h = ap pairing (same_text u v h)
same_state (initializing u) (initializing v) h = ap initializing (same_text u v h)
same_state (communicating u) (communicating v) h = ap communicating (same_text u v h)
same_state (disconnecting u) (disconnecting v) h = ap disconnecting (same_text u v h)
same_state (waiting_to_reconnect d) (waiting_to_reconnect e) h =
    ap waiting_to_reconnect (same_details d e h)
same_state s t h = ground arith
