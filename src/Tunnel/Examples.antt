-- ===== src/Tunnel/Examples.antt =====
-- Two machines, three sessions, a reconnect and a lost daemon.
use cloudable.Base.{ℕ, ◌≡◌, refl, none, some, [], ◌∷◌, ◌++◌}
use cloudable.Tunnel.{
  Registry, closes, get, get_daemon, register_relay, deregister_daemon, connect, disconnect,
}
use cloudable.Tunnel.Maps.{keys}
use cloudable.Tunnel.Sessions.{survivor, reconnect_forgets_daemon}
use cloudable.Tunnel.Histories.{Run, idle, then, registers, relays, IsKeyed, daemon_loss_exact}

abbrev empty : Registry
empty = record {
  daemons = [];
  relays = [];
  pending_handshakes = [];
  next_deferred = 0;
  settled = [];
  effects = [];
}

empty-IsKeyed : IsKeyed empty
unfolding keys
empty-IsKeyed = refl

abbrev busy : Registry
busy =
    register_relay 73 11 93
      (register_relay 72 10 92 (register_relay 71 10 91 (connect 11 21 (connect 10 20 empty))))

run : Run empty busy
unfolding connect
run =
    then
      (then (then (then (then idle (registers 10 20)) (registers 11 21)) (relays 71 10 91))
        (relays 72 10 92))
      (relays 73 11 93)

daemon_loss_exact_example :
    (get_daemon 10 (deregister_daemon 10 busy) ≡ none)
    × ((j : ℕ) → get j (deregister_daemon 10 busy).relays ≡ survivor 10 (get j busy.relays))
daemon_loss_exact_example = daemon_loss_exact 10 empty-IsKeyed run

reconnect_forgets_daemon_example :
    let before = connect 10 20 empty in
    let after = connect 10 22 before in
    (after.effects ≡ before.effects ++ closes 20 ∷ [])
    × (get_daemon 10 after ≡ some 22)
    × (get_daemon 10 (disconnect 10 after) ≡ none)
reconnect_forgets_daemon_example = reconnect_forgets_daemon 10 20 22 empty
