-- ===== src/P2p/Ping/Recent.antt =====
-- Which times are kept (src/p2p/src/ping.rs).
use inference_mesh.Base.{
  ℕ, ◌≡◌, ◌∙◌, refl, ap, Bool, ◌&&◌, if◌then◌else◌, none, some, List, [], ◌∷◌, map, keep, arith,
}
use inference_mesh.Base.HashMap
use inference_mesh.Base.HashMap.{HashMap, contains_key, get-remove, get-insert}
use inference_mesh.P2p.ProviderCache.{contains}
use inference_mesh.P2p.Ping.{
  PingAggregator, record_rtt, get_rtt, stale, stale_keys, remove_keys, retain_recent,
}

module _ {P F : Type 0} (same : Discrete P) where
  get-remove_keys :
      (keys : List P) (a : PingAggregator P F) (p : P)
      → (HashMap.get same p (remove_keys same keys a).rtts
          ≡ (if contains same p keys then none else HashMap.get same p a.rtts))
        × (HashMap.get same p (remove_keys same keys a).last_ping
            ≡ (if contains same p keys then none else HashMap.get same p a.last_ping))
  unfolding remove_keys contains
  get-remove_keys [] a p = (refl, refl)
  get-remove_keys (key ∷ keys) a p = ground (
    arith,
    get-remove_keys keys
        (record {
          rtts = HashMap.remove same key a.rtts;
          last_ping = HashMap.remove same key a.last_ping;
        })
        p,
    get-remove same key p a.rtts,
    get-remove same key p a.last_ping,
  )

  contains-keep_keys :
      (test : P → Bool) (m : HashMap P F) (p : P)
      → contains same p (keep test (map (λ e. e.0) m)) ≡ (test p && contains_key same p m)
  unfolding contains HashMap.get
  contains-keep_keys test [] p = ground arith
  contains-keep_keys test ((k, r) ∷ m) p = elim (same k p) [
    | yes e ↦ ground (arith, ap test e, contains-keep_keys test m p)
    | no n ↦ ground (arith, contains-keep_keys test m p)
  ]

  -- After stale times are dropped, the times of the peers whose last ping is not older than the given
  -- age are as they were, and no other peer has a time.
  pub get_rtt-retain_recent :
      (a : PingAggregator P F) (now max_age : ℕ) (p : P)
      → get_rtt same (retain_recent same a now max_age) p
        ≡ (if stale same a now p max_age then none else get_rtt same a p)
  unfolding retain_recent get_rtt
  get_rtt-retain_recent a now max_age p =
      (get-remove_keys (stale_keys same a now max_age) a p).0
      ∙ rw (contains-keep_keys (λ q. stale same a now q max_age) a.rtts p) (ground arith)

  -- A peer that has just been recorded keeps its time, whatever the age.
  pub get_rtt-retain_recent-record_rtt :
      (a : PingAggregator P F) (now max_age : ℕ) (p : P) (rtt : F)
      → get_rtt same (retain_recent same (record_rtt same a now p rtt) now max_age) p ≡ some rtt
  unfolding record_rtt
  get_rtt-retain_recent-record_rtt a now max_age p rtt =
      get_rtt-retain_recent (record_rtt same a now p rtt) now max_age p
      ∙ unfold stale get_rtt in
        ground (arith, get-insert same p p rtt a.rtts, get-insert same p p now a.last_ping)
