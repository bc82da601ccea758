-- ===== src/Tests/Ranges.antt =====
-- Ranges of layers as they are written on the command line.
use inference_mesh.Base.{
  ◌≡◌, refl, ltb, if◌then◌else◌, ◌++◌, ◌∷◌, ok, err, bad_layers, split, parse_digits, arith,
}
use inference_mesh.P2p.Dht.{codes, show_u32}
use inference_mesh.Cli.{parse_layers}
use inference_mesh.Cli.Layers.{parse_layers_written}

parse_layers_written_example :
    parse_layers (show_u32 3 ++ (b'-' ∷ show_u32 12))
    ≡ (if ltb 12 3 then err bad_layers else ok (3, 12))
parse_layers_written_example = parse_layers_written 3 12 (omega arith) (omega arith)

reads_plus : parse_layers (codes "+3-007") ≡ ok (3, 7)
unfolding parse_layers split parse_digits
reads_plus = refl

refuses_turned : parse_layers (codes "7-3") ≡ err bad_layers
unfolding parse_layers split parse_digits
refuses_turned = refl

refuses_large : parse_layers (codes "0-4294967296") ≡ err bad_layers
unfolding parse_layers split parse_digits
refuses_large = refl
