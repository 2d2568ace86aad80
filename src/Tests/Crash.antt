-- ===== src/Tests/Crash.antt =====
-- The theorem on recoveries, at a server whose browser died and may be restarted.
use hyprfast.Base.{◌≡◌, true, false, none, arith}
use hyprfast.Error.{ok, err, connection_failed}
use hyprfast.Lifecycle.{connected}
use hyprfast.DomDiff
use hyprfast.Crash.{BrowserRuntimeServer, CrashPolicy, Answers, handle_cdp_disconnect}
use hyprfast.Crash.Settled.{ends, IsAllowed, IsInvalidated, handle_cdp_disconnect_lem}
use hyprfast.Tests.Data.{Value, json, unicode, index}
use hyprfast.Tests.Browser.{manager}

abbrev server : BrowserRuntimeServer
server = record { state = connected; target_manager = manager; dom_diff = DomDiff.new index }

abbrev policy : CrashPolicy
policy = record {
  restart_on_crash = true;
  launched_by_hyprfast = true;
  launch_params = none;
  ws_url = none;
}

-- The browser starts again but cannot be connected to.
abbrev answers : Answers Value
answers = record {
  is_browser_alive = false;
  is_still_alive = true;
  discover_ws_url = ok "ws://127.0.0.1:9222/devtools/browser/1";
  connect = λ url. err (connection_failed "refused");
  target_infos = none;
  spawn = none;
  is_reachable = true;
}

handle_cdp_disconnect_lem_example :
    let (s', r) = handle_cdp_disconnect json unicode answers policy false server in
    (s'.state ≡ ends r.outcome)
    × IsAllowed answers policy r.outcome
    × IsInvalidated 1 s'.dom_diff.element_index
unfolding DomDiff.new
handle_cdp_disconnect_lem_example =
    handle_cdp_disconnect_lem json unicode answers policy false server tt (omega arith)
