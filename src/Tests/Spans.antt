-- ===== src/Tests/Spans.antt =====
-- Provider caches and sequences of spans.
use inference_mesh.Base.{
  ℕ, ◌≡◌, refl, ◌⊎◌, none, some, List, [], ◌∷◌, length, get_elem?, keep, ℕ_discrete, arith,
}
use inference_mesh.Base.HashMap
use inference_mesh.Base.HashMap.{IsKeyed}
use inference_mesh.P2p.Types.{RemoteSpanInfo, ServerInfo, online}
use inference_mesh.P2p.Types
use inference_mesh.P2p.ProviderCache
use inference_mesh.P2p.ProviderCache.{ProviderCache, ProviderEntry, get_excluding, contains}
use inference_mesh.P2p.ProviderCache.Laws.{get_excluding-prune_expired}
use inference_mesh.P2p.ProviderCache.Chain.{IsChain, HasGap, build_chain_lem}
use inference_mesh.P2p.Sequence.{Spans, spans_containing_block, make_sequence_max_throughput}
use inference_mesh.P2p.Sequence.Containing.{covers, get_elem?-spans_containing_block}
use inference_mesh.P2p.Sequence.Throughput.{Tiles, Gap, make_sequence_max_throughput_lem}

abbrev at : ℕ → ℕ → ProviderEntry ℕ
at peer time = record { peer_id = peer; discovered_at = time }

-- Peer 7 and peer 8 hold layer 0, and peer 8 holds layer 1; peer 6 is known for too long.
abbrev cache : ProviderCache ℕ
cache = record {
  providers = (0, at 6 10 ∷ at 7 95 ∷ at 8 96 ∷ []) ∷ (1, at 8 97 ∷ []) ∷ [];
  ttl = 50;
}

get_excluding_7 : get_excluding ℕ_discrete cache 100 0 (7 ∷ []) ≡ 8 ∷ []
unfolding get_excluding contains HashMap.get ℕ_discrete
get_excluding_7 = refl

cache-IsKeyed : IsKeyed ℕ_discrete cache.providers
unfolding HashMap.get ℕ_discrete
cache-IsKeyed = (refl, (refl, tt))

get_excluding-prune_expired_example :
    get_excluding ℕ_discrete (ProviderCache.prune_expired cache 90) 100 0 []
    ≡ get_excluding ℕ_discrete cache 100 0 []
get_excluding-prune_expired_example =
    get_excluding-prune_expired ℕ_discrete cache 90 100 0 [] cache-IsKeyed (omega arith)

build_chain_lem_example :
    ((chain : List ℕ) × (ProviderCache.build_chain ℕ_discrete cache 100 (0 ∷ 1 ∷ []) (7 ∷ [])
        ≡ some chain)
      × IsChain ℕ_discrete cache 100 (7 ∷ []) (0 ∷ 1 ∷ []) chain)
    ⊎ ((ProviderCache.build_chain ℕ_discrete cache 100 (0 ∷ 1 ∷ []) (7 ∷ []) ≡ none)
        × HasGap ℕ_discrete cache 100 (7 ∷ []) (0 ∷ 1 ∷ []))
build_chain_lem_example = build_chain_lem ℕ_discrete cache 100 (7 ∷ []) (0 ∷ 1 ∷ [])

abbrev span : ℕ → ℕ → ℕ → RemoteSpanInfo ℕ ℕ
span peer start end = record {
  peer_id = peer;
  start = start;
  end = end;
  server_info = Types.new online 1;
}

abbrev spans : Spans ℕ ℕ
spans = span 7 0 3 ∷ span 8 2 9 ∷ []

make_sequence_max_throughput_lem_example :
    ((seq : Spans ℕ ℕ) × (make_sequence_max_throughput spans 6 1 5 ≡ some (some seq))
      × Tiles spans 1 5 seq)
    ⊎ ((make_sequence_max_throughput spans 6 1 5 ≡ some none) × Gap spans 6 1 5)
make_sequence_max_throughput_lem_example = make_sequence_max_throughput_lem spans 6 5 1

get_elem?-spans_containing_block_example :
    (length (spans_containing_block spans 6) ≡ 6)
    × (get_elem? (spans_containing_block spans 6) 2 ≡ some (keep (covers 2) spans))
get_elem?-spans_containing_block_example = get_elem?-spans_containing_block spans 6 2 (omega arith)
