-- ===== src/Tunnel/Sessions.antt =====
-- What ending a session, and losing a daemon, does to the registry.
use cloudable.Base.{
  ℕ, ◌≡◌, refl, ◌∙◌, String, true, false, Option, none, some, List, [], ◌∷◌, ◌++◌, ◌==◌, number_eq,
  if◌then◌else◌, arith, has_id, distinct_ids, Bool-cases, Option-cases, inl, inr,
}
use cloudable.Tunnel.{
  Entry, Registry, RelayEntry, AttachOutcome, closes, get, set, delete, register_daemon, get_daemon,
  deregister_relay, begin_handshake, resolve_handshake, close_relay, sessions_of, close_each,
  close_all_for_machine, deregister_daemon, connect, disconnect,
}
use cloudable.Tunnel.Maps.{keys, get-delete, get-set}

abbrev pub IsForgotten : ℕ → Registry → Registry → Type 0
IsForgotten k s u =
    ((j : ℕ) → get j u.relays ≡ (if k == j then none else get j s.relays))
    × ((j : ℕ) → get j u.pending_handshakes ≡ (if k == j then none else get j s.pending_handshakes))
    × (u.daemons ≡ s.daemons)
    × (u.settled ≡ s.settled)

absent :
    (k j : ℕ) (es : List (Entry RelayEntry))
    → get k es ≡ none
    → get j es ≡ (if k == j then none else get j es)
absent k j es e = elim (Bool-cases (k == j)) [
  | inl same ↦ ground (arith, same, e)
  | inr other ↦ rw other refl
]

-- Ending a session forgets its relay and its pending handshake, answered or not, and leaves every
-- other session, handshake and daemon connection as it is.
close_relay_exact :
    (k : ℕ) (reason : String) (s : Registry) → IsForgotten k s (close_relay k reason s)
unfolding close_relay deregister_relay
close_relay_exact k reason s = elim (Option-cases (get k s.relays)) [
  | inl e ↦
      rw (e, close_relay)
        ((λ j. absent k j s.relays e), (λ j. get-delete j k s.pending_handshakes), refl, refl)
  | inr (entry, e) ↦
      rw (e, close_relay)
        ((λ j. get-delete j k s.relays), (λ j. get-delete j k s.pending_handshakes), refl, refl)
]

close_each_exact :
    (ks : List ℕ) (reason : String) (s : Registry) (j : ℕ)
    → get j (close_each ks reason s).relays ≡ (if has_id j ks then none else get j s.relays)
unfolding close_each
close_each_exact [] reason s j = refl
close_each_exact (k ∷ ks) reason s j = ground (
  arith,
  close_each_exact ks reason (close_relay k reason s) j,
  (close_relay_exact k reason s).0 j,
)

close_each-daemons :
    (ks : List ℕ) (reason : String) (s : Registry) → (close_each ks reason s).daemons ≡ s.daemons
unfolding close_each
close_each-daemons [] reason s = refl
close_each-daemons (k ∷ ks) reason s =
    close_each-daemons ks reason (close_relay k reason s) ∙ (close_relay_exact k reason s).2

-- The relay that is left of one when the daemon of a machine is lost.
abbrev pub survivor : ℕ → Option RelayEntry → Option RelayEntry
survivor machine none = none
survivor machine (some e) = if e.machine_id == machine then none else some e

sessions-keys :
    (machine j : ℕ) (es : List (Entry RelayEntry))
    → has_id j (keys es) ≡ false
    → (has_id j (sessions_of machine es) ≡ false) × (get j es ≡ none)
unfolding keys sessions_of get
sessions-keys machine j [] h = (refl, refl)
sessions-keys machine j ((k, e) ∷ es) h = ground (arith, sessions-keys machine j es)

sessions_of-survivor :
    (machine j : ℕ) (es : List (Entry RelayEntry))
    → distinct_ids (keys es) ≡ true
    → (if has_id j (sessions_of machine es) then none else get j es) ≡ survivor machine (get j es)
unfolding keys sessions_of get
sessions_of-survivor machine j [] h = refl
sessions_of-survivor machine j ((k, e) ∷ es) h =
    ground (arith, sessions_of-survivor machine j es, sessions-keys machine j es)

no_daemon : (machine : ℕ) (s : Registry) → get_daemon machine (deregister_daemon machine s) ≡ none
unfolding deregister_daemon close_all_for_machine get_daemon
no_daemon machine s =
    let dropped = record s { daemons = delete machine s.daemons } in
    rw (close_each-daemons (sessions_of machine s.relays) "connection_lost" dropped)
      (ground (arith, get-delete machine machine s.daemons))

-- When the daemon of a machine is lost, the registry has no daemon for the machine, no relay of a
-- session on it, and every relay of a session on another machine as before.
pub deregister_daemon_exact :
    (machine : ℕ) (s : Registry)
    → distinct_ids (keys s.relays) ≡ true
    → (get_daemon machine (deregister_daemon machine s) ≡ none)
      × ((j : ℕ) → get j (deregister_daemon machine s).relays ≡ survivor machine (get j s.relays))
unfolding deregister_daemon close_all_for_machine
deregister_daemon_exact machine s d =
    let dropped = record s { daemons = delete machine s.daemons } in
    let sessions = sessions_of machine s.relays in
    (
      no_daemon machine s,
      λ j.
          close_each_exact sessions "connection_lost" dropped j
          ∙ sessions_of-survivor machine j s.relays d,
    )

-- A daemon that connects again has its old socket closed, and the end of the old connection then
-- takes the new one out of the registry, which is left without a daemon for the machine.
pub reconnect_forgets_daemon :
    (machine old new : ℕ) (s : Registry)
    → let before = connect machine old s in
      let after = connect machine new before in
      (after.effects ≡ before.effects ++ closes old ∷ [])
      × (get_daemon machine after ≡ some new)
      × (get_daemon machine (disconnect machine after) ≡ none)
unfolding connect disconnect register_daemon get_daemon
reconnect_forgets_daemon machine old new s =
    let known : get machine (set machine old s.daemons) ≡ some old =
      ground (arith, get-set machine machine old s.daemons) in
    (
      rw known refl,
      ground (arith, get-set machine machine new (set machine old s.daemons)),
      no_daemon machine (register_daemon machine new (register_daemon machine old s)),
    )

abbrev settle : ℕ → ℕ → AttachOutcome → Registry → Registry
settle session deferred o s = record s {
  pending_handshakes = delete session s.pending_handshakes;
  settled = (deferred, o) ∷ s.settled;
}

resolve_waiting :
    (session deferred : ℕ) (o : AttachOutcome) (s : Registry)
    → get session s.pending_handshakes ≡ some deferred
    → resolve_handshake session o s ≡ settle session deferred o s
unfolding resolve_handshake
resolve_waiting session deferred o s e = rw (e, resolve_handshake) refl

resolve_gone :
    (session : ℕ) (o : AttachOutcome) (s : Registry)
    → get session s.pending_handshakes ≡ none
    → resolve_handshake session o s ≡ s
unfolding resolve_handshake
resolve_gone session o s e = rw (e, resolve_handshake) refl

-- A handshake is settled by its first answer: the answer reaches the deferred value that the attach
-- waits on, the entry is gone, and a later answer changes nothing.
handshake_settled_once :
    (session : ℕ) (first second : AttachOutcome) (s : Registry)
    → let (deferred, u) = begin_handshake session s in
      let v = resolve_handshake session first u in
      (v.settled ≡ (deferred, first) ∷ s.settled)
      × (get session v.pending_handshakes ≡ none)
      × (resolve_handshake session second v ≡ v)
unfolding begin_handshake
handshake_settled_once session first second s =
    let u = (begin_handshake session s).1 in
    let v = settle session s.next_deferred first u in
    let same : resolve_handshake session first u ≡ v =
      resolve_waiting session s.next_deferred first u
        (ground (arith, get-set session session s.next_deferred s.pending_handshakes)) in
    let gone : get session v.pending_handshakes ≡ none =
      ground (arith, get-delete session session u.pending_handshakes) in
    rw same (refl, gone, resolve_gone session second v gone)
