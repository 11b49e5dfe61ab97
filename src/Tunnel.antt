-- ===== src/Tunnel.antt =====
-- apps/control-plane/src/tunnel/registry.ts: the live tunnel connections of one control-plane
-- process, and the connection route of apps/control-plane/src/http/handlers/tunnel.ts, as far as it
-- registers a daemon and forgets it. Sockets and deferred values are numbers; what the registry does
-- to sockets is a list of effects.
pub mod Maps
pub mod Sessions
pub mod Histories
mod Examples
use cloudable.Base.{
  ℕ, suc, ◌+◌, String, Bool, true, false, not, ◌&&◌, Option, none, some, List, [], ◌∷◌, ◌++◌, map,
  ◌==◌, number_eq, if◌then◌else◌, filter, any,
}

-- `Map` of the runtime: entries in the order of insertion, one for a key.
abbrev pub Entry : Type 0 → Type 0
Entry A = ℕ × A

module _ {A : Type 0} where
  pub get : ℕ → List (Entry A) → Option A
  get k [] = none
  get k ((j, a) ∷ es) = let rest = get k es in if j == k then some a else rest

  pub delete : ℕ → List (Entry A) → List (Entry A)
  delete k [] = []
  delete k ((j, a) ∷ es) = let rest = delete k es in if j == k then rest else (j, a) ∷ rest

  pub set : ℕ → A → List (Entry A) → List (Entry A)
  set k a [] = (k, a) ∷ []
  set k a ((j, b) ∷ es) = let rest = set k a es in if j == k then (j, a) ∷ es else (j, b) ∷ rest

pub data AttachOutcome : Type 0 where
  attached : AttachOutcome
  rejected : (reason : String) → AttachOutcome

pub record RelayEntry : Type 0 where
  pub machine_id : ℕ
  pub browser_socket : ℕ

-- The only frame that the registry itself sends is `{ kind: "close", sessionId, reason }`.
pub data SocketEffect : Type 0 where
  sends_close : (socket session : ℕ) (reason : String) → SocketEffect
  closes : (socket : ℕ) → SocketEffect

pub record Registry : Type 0 where
  pub daemons : List (Entry ℕ)
  pub relays : List (Entry RelayEntry)
  pub pending_handshakes : List (Entry ℕ)
  pub next_deferred : ℕ
  pub settled : List (Entry AttachOutcome)
  pub effects : List SocketEffect

abbrev close_previous : Option ℕ → List SocketEffect
close_previous none = []
close_previous (some socket) = closes socket ∷ []

pub register_daemon : (machine socket : ℕ) → Registry → Registry
register_daemon machine socket s = record s {
  daemons = set machine socket s.daemons;
  effects = s.effects ++ close_previous (get machine s.daemons);
}

pub get_daemon : ℕ → Registry → Option ℕ
get_daemon machine s = get machine s.daemons

pub register_relay : (session machine browser : ℕ) → Registry → Registry
register_relay session machine browser s = record s {
  relays = set session (record { machine_id = machine; browser_socket = browser }) s.relays;
}

pub deregister_relay : ℕ → Registry → Registry
deregister_relay session s = record s { relays = delete session s.relays }

browser_of : Option RelayEntry → Option ℕ
browser_of none = none
browser_of (some e) = some e.browser_socket

pub get_browser : ℕ → Registry → Option ℕ
unfolding browser_of
get_browser session s = browser_of (get session s.relays)

pub begin_handshake : ℕ → Registry → ℕ × Registry
begin_handshake session s = (
  s.next_deferred,
  record s {
    pending_handshakes = set session s.next_deferred s.pending_handshakes;
    next_deferred = s.next_deferred + 1;
  },
)

-- `Deferred.succeed`; a deferred value leaves the map when it is settled.
pub resolve_handshake : ℕ → AttachOutcome → Registry → Registry
resolve_handshake session outcome s = elim (get session s.pending_handshakes) [
  | none ↦ s
  | some deferred ↦ record s {
    pending_handshakes = delete session s.pending_handshakes;
    settled = (deferred, outcome) ∷ s.settled;
  }
]

abbrev tell_daemon : Option ℕ → ℕ → String → List SocketEffect
tell_daemon none session reason = []
tell_daemon (some daemon) session reason = sends_close daemon session reason ∷ []

abbrev close_effects : List (Entry ℕ) → ℕ → String → RelayEntry → List SocketEffect
close_effects daemons session reason entry =
    sends_close entry.browser_socket session reason
    ∷ closes entry.browser_socket
    ∷ tell_daemon (get entry.machine_id daemons) session reason

pub close_relay : ℕ → String → Registry → Registry
unfolding deregister_relay
close_relay session reason s =
    let s' = record s { pending_handshakes = delete session s.pending_handshakes } in
    elim (get session s.relays) [
      | none ↦ s'
      | some entry ↦
          deregister_relay session
            (record s' { effects = s.effects ++ close_effects s.daemons session reason entry })
    ]

-- The sessions of a machine when the sweep begins.
pub sessions_of : ℕ → List (Entry RelayEntry) → List ℕ
sessions_of machine [] = []
sessions_of machine ((session, e) ∷ es) =
    let rest = sessions_of machine es in if e.machine_id == machine then session ∷ rest else rest

pub close_each : List ℕ → String → Registry → Registry
close_each [] reason s = s
close_each (session ∷ sessions) reason s = close_each sessions reason (close_relay session reason s)

pub close_all_for_machine : ℕ → String → Registry → Registry
close_all_for_machine machine reason s = close_each (sessions_of machine s.relays) reason s

pub deregister_daemon : ℕ → Registry → Registry
deregister_daemon machine s =
    close_all_for_machine machine "connection_lost"
      (record s { daemons = delete machine s.daemons })

-- The connection route: it registers the socket, and whatever ends the connection deregisters the
-- machine (`Effect.ensuring`).
pub connect : (machine socket : ℕ) → Registry → Registry
connect machine socket s = register_daemon machine socket s

pub disconnect : (machine : ℕ) → Registry → Registry
disconnect machine s = deregister_daemon machine s
