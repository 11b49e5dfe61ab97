-- ===== src/Tunnel/Histories.antt =====
-- Any sequence of operations keeps one relay for a session, and so losing a daemon is exact.
use cloudable.Base.{ℕ, ◌≡◌, String, true, none, List, [], ◌∷◌, distinct_ids, Option-cases, inl, inr}
use cloudable.Tunnel.{
  Registry, AttachOutcome, get, register_daemon, get_daemon, register_relay, deregister_relay,
  begin_handshake, resolve_handshake, close_relay, close_each, close_all_for_machine,
  deregister_daemon, sessions_of,
}
use cloudable.Tunnel.Maps.{keys, distinct-delete, distinct-set}
use cloudable.Tunnel.Sessions.{survivor, deregister_daemon_exact}

pub data Step (s : Registry) : Registry → Type 0 where
  registers : (machine socket : ℕ) → Step s (register_daemon machine socket s)
  deregisters : (machine : ℕ) → Step s (deregister_daemon machine s)
  relays : (session machine browser : ℕ) → Step s (register_relay session machine browser s)
  unrelays : (session : ℕ) → Step s (deregister_relay session s)
  begins : (session : ℕ) → Step s (begin_handshake session s).1
  resolves : (session : ℕ) (o : AttachOutcome) → Step s (resolve_handshake session o s)
  ends : (session : ℕ) (reason : String) → Step s (close_relay session reason s)
  ends_all : (machine : ℕ) (reason : String) → Step s (close_all_for_machine machine reason s)

pub data Run (s : Registry) : Registry → Type 0 where
  idle : Run s s
  then : {u v : Registry} → Run s u → Step u v → Run s v

abbrev pub IsKeyed : Registry → Type 0
IsKeyed s = distinct_ids (keys s.relays) ≡ true

resolve-IsKeyed :
    (session : ℕ) (o : AttachOutcome) (s : Registry)
    → IsKeyed s
    → IsKeyed (resolve_handshake session o s)
unfolding resolve_handshake
resolve-IsKeyed session o s d = elim (Option-cases (get session s.pending_handshakes)) [
  | inl e ↦ rw (e, resolve_handshake) d
  | inr (k, e) ↦ rw (e, resolve_handshake) d
]

close_relay-IsKeyed :
    (session : ℕ) (reason : String) (s : Registry)
    → IsKeyed s
    → IsKeyed (close_relay session reason s)
unfolding close_relay deregister_relay
close_relay-IsKeyed session reason s d = elim (Option-cases (get session s.relays)) [
  | inl e ↦ rw (e, close_relay) d
  | inr (k, e) ↦ rw (e, close_relay) (distinct-delete session s.relays d)
]

close_each-IsKeyed :
    (ks : List ℕ) (reason : String) (s : Registry) → IsKeyed s → IsKeyed (close_each ks reason s)
unfolding close_each
close_each-IsKeyed [] reason s d = d
close_each-IsKeyed (k ∷ ks) reason s d =
    close_each-IsKeyed ks reason (close_relay k reason s) (close_relay-IsKeyed k reason s d)

Step-IsKeyed : {s u : Registry} → Step s u → IsKeyed s → IsKeyed u
unfolding register_daemon register_relay deregister_relay begin_handshake close_all_for_machine
    deregister_daemon
Step-IsKeyed {s} (registers machine socket) d = d
Step-IsKeyed {s} (deregisters machine) d =
    close_each-IsKeyed (sessions_of machine s.relays) "connection_lost" _ d
Step-IsKeyed {s} (relays session machine browser) d = distinct-set session _ s.relays d
Step-IsKeyed {s} (unrelays session) d = distinct-delete session s.relays d
Step-IsKeyed {s} (begins session) d = d
Step-IsKeyed {s} (resolves session o) d = resolve-IsKeyed session o s d
Step-IsKeyed {s} (ends session reason) d = close_relay-IsKeyed session reason s d
Step-IsKeyed {s} (ends_all machine reason) d =
    close_each-IsKeyed (sessions_of machine s.relays) reason s d

Run-IsKeyed : {s u : Registry} → Run s u → IsKeyed s → IsKeyed u
Run-IsKeyed idle d = d
Run-IsKeyed (then run step) d = Step-IsKeyed step (Run-IsKeyed run d)

-- After any sequence of operations on a registry with one relay for a session (an empty one, say), the
-- loss of a machine's daemon leaves no daemon for the machine, no relay of a session on it, and every
-- relay of a session on another machine as it was.
pub daemon_loss_exact :
    {s u : Registry} (machine : ℕ)
    → IsKeyed s
    → Run s u
    → (get_daemon machine (deregister_daemon machine u) ≡ none)
      × ((j : ℕ) → get j (deregister_daemon machine u).relays ≡ survivor machine (get j u.relays))
daemon_loss_exact {u = u} machine d run = deregister_daemon_exact machine u (Run-IsKeyed run d)
