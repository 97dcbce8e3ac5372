-- ===== src/NetworkCheck.antt =====
-- The task that pings the TV (`TvNetworkChecker::start` and `check_tv` of src/tv_network_check.rs)
-- and what the manager does to the state that it shares with it.
pub mod Pinging
use lgtv_manager.Prelude.{Bool, true, false, if◌then◌else◌, Option, none, some, List, [], ◌∷◌}
use lgtv_manager.Environment.{IpAddr}
use lgtv_manager.Manager.State.{TvNetworkChecker, new_checker}
use lgtv_manager.Manager.Orchestration.Connect.{set_tv_ip}

-- The variables of the task and what it shares. A `Notify` is its permit, and `awaited` is the address
-- whose ping is under way.
pub record CheckerTask : Type 0 where
  pub checker : TvNetworkChecker
  pub ping_target_ip : Option IpAddr
  pub is_tv_on_network : Bool
  pub is_tv_on_network_notify : Bool
  pub is_pinging : Bool
  pub is_pinging_notify : Bool
  pub awaited : Option IpAddr

-- The branches of `select!`, the answer to a ping (or its failure), and what the manager does: it
-- sets the address, asks for a check and takes the two notifications.
pub data CheckerEvent : Type 0 where
  ping_interval : CheckerEvent
  tv_ip_notified : CheckerEvent
  check_notified : CheckerEvent
  ping_ended : Bool → CheckerEvent
  tv_ip_set : IpAddr → CheckerEvent
  check_asked : CheckerEvent
  result_taken : CheckerEvent
  testing_taken : CheckerEvent

-- `check_tv` up to the ping.
begin_check : IpAddr → CheckerTask → CheckerTask
begin_check ip t =
    if t.is_pinging
    then t
    else record t { is_pinging = true; is_pinging_notify = true; awaited = some ip }

-- `check_tv` from the ping on.
end_check : Bool → CheckerTask → CheckerTask
end_check responded t = record t {
  is_tv_on_network = responded;
  is_tv_on_network_notify = true;
  is_pinging = false;
  is_pinging_notify = true;
  awaited = none;
}

check_target : Option IpAddr → CheckerTask → CheckerTask
unfolding begin_check
check_target none t = t
check_target (some target_ip) t = begin_check target_ip t

-- The new address is taken over, and a check of it asked for.
take_ip : CheckerTask → CheckerTask
take_ip t = record t {
  ping_target_ip = t.checker.tv_ip;
  checker = record t.checker { tv_ip_notify = false; check = true };
}

take_check : CheckerTask → CheckerTask
unfolding check_target
take_check t =
    check_target t.ping_target_ip (record t { checker = record t.checker { check = false } })

-- The loop while it waits in `select!`: a branch is taken if its permit is there.
select_branch : CheckerEvent → CheckerTask → CheckerTask
unfolding check_target take_ip take_check
select_branch ping_interval t = check_target t.ping_target_ip t
select_branch tv_ip_notified t = if t.checker.tv_ip_notify then take_ip t else t
select_branch check_notified t = if t.checker.check then take_check t else t
select_branch _ t = t

-- The loop while it awaits a ping.
await_ping : CheckerEvent → CheckerTask → CheckerTask
unfolding end_check
await_ping (ping_ended responded) t = end_check responded t
await_ping _ t = t

in_loop : Option IpAddr → CheckerEvent → CheckerTask → CheckerTask
unfolding select_branch await_ping
in_loop none e t = select_branch e t
in_loop (some _) e t = await_ping e t

unfoldable pub checker_step : CheckerEvent → CheckerTask → CheckerTask
unfolding in_loop
checker_step (tv_ip_set ip) t = record t { checker = set_tv_ip ip t.checker }
checker_step check_asked t = record t { checker = record t.checker { check = true } }
checker_step result_taken t = record t { is_tv_on_network_notify = false }
checker_step testing_taken t = record t { is_pinging_notify = false }
checker_step e t = in_loop t.awaited e t

-- `TvNetworkChecker::start` on a new checker.
abbrev pub start_checker : CheckerTask
start_checker = record {
  checker = record new_checker { is_operational = true };
  ping_target_ip = none;
  is_tv_on_network = false;
  is_tv_on_network_notify = false;
  is_pinging = false;
  is_pinging_notify = false;
  awaited = none;
}

unfoldable pub run_checker : List CheckerEvent → CheckerTask → CheckerTask
run_checker [] t = t
run_checker (e ∷ es) t = run_checker es (checker_step e t)
