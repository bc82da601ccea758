-- ===== src/P2p/Ping.antt =====
-- src/p2p/src/ping.rs: the round-trip times of the peers. `F` stands for `f64`; an `Instant` is a
-- number of nanoseconds, and the clock's value is an argument of what reads it.
pub mod Recent
use inference_mesh.Base.{
  ℕ, ◌-◌, Bool, true, false, ltb, Option, none, some, List, [], ◌∷◌, map, keep,
}
use inference_mesh.Base.HashMap
use inference_mesh.Base.HashMap.{HashMap}
use inference_mesh.Protocol.Schema.{Bytes}

pub record PingAggregator (P F : Type 0) : Type 0 where
  pub rtts : HashMap P F
  pub last_ping : HashMap P ℕ

module _ {P F : Type 0} (same : Discrete P) where
  unfoldable pub new : PingAggregator P F
  new = record { rtts = []; last_ping = [] }

  unfoldable pub record_rtt : PingAggregator P F → ℕ → P → F → PingAggregator P F
  record_rtt a now peer_id rtt_ms = record {
    rtts = HashMap.insert same peer_id rtt_ms a.rtts;
    last_ping = HashMap.insert same peer_id now a.last_ping;
  }

  unfoldable pub get_rtt : PingAggregator P F → P → Option F
  get_rtt a peer_id = HashMap.get same peer_id a.rtts

  -- `t.elapsed()` is 0 for a `t` that has yet to come.
  unfoldable pub stale : PingAggregator P F → ℕ → P → ℕ → Bool
  stale a now peer_id max_age = elim (HashMap.get same peer_id a.last_ping) [
    | some t ↦ ltb max_age (now - t)
    | none ↦ true
  ]

  abbrev pub stale_keys : PingAggregator P F → ℕ → ℕ → List P
  stale_keys a now max_age = keep (λ p. stale a now p max_age) (map (λ e. e.0) a.rtts)

  unfoldable pub remove_keys : List P → PingAggregator P F → PingAggregator P F
  remove_keys [] a = a
  remove_keys (key ∷ keys) a = remove_keys keys (record {
    rtts = HashMap.remove same key a.rtts;
    last_ping = HashMap.remove same key a.last_ping;
  })

  unfoldable pub retain_recent : PingAggregator P F → ℕ → ℕ → PingAggregator P F
  unfolding stale remove_keys
  retain_recent a now max_age = remove_keys (stale_keys a now max_age) a

module _ {P F : Type 0} where
  -- The loop of `to_dict`, with `to_base58` for the text of a PeerId.
  unfoldable pub add_entries :
      (P → Bytes) → Discrete Bytes → HashMap P F → HashMap Bytes F → HashMap Bytes F
  add_entries to_base58 same_text [] dict = dict
  add_entries to_base58 same_text ((p, r) ∷ entries) dict =
      add_entries to_base58 same_text entries (HashMap.insert same_text (to_base58 p) r dict)

  unfoldable pub to_dict : (P → Bytes) → Discrete Bytes → PingAggregator P F → HashMap Bytes F
  unfolding add_entries
  to_dict to_base58 same_text a = add_entries to_base58 same_text a.rtts []
