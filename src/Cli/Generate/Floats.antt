-- ===== src/Cli/Generate/Floats.antt =====
-- The numbers that a worker writes are those that `generate` reads (src/p2p/src/swarm.rs and
-- src/cli/src/main.rs).
use inference_mesh.Base.{
  ℕ, ◌+◌, ◌*◌, ◌/◌, ◌%◌, ◌^◌, ◌<◌, ◌≡◌, refl, List, [], ◌∷◌, All, u32_mod, arith,
}
use inference_mesh.P2p.Worker.{output_bytes}
use inference_mesh.Cli.Generate.{read_floats}

pub read_floats-output_bytes :
    (floats : List ℕ) → All (λ f. f < u32_mod) floats → read_floats (output_bytes floats) ≡ floats
unfolding read_floats output_bytes
read_floats-output_bytes [] h = refl
read_floats-output_bytes (f ∷ floats) (low, h) = cc (whole, read_floats-output_bytes floats h)
  where
    whole :
        f % 256 + f / 2 ^ 8 % 256 * 2 ^ 8 + f / 2 ^ 16 % 256 * 2 ^ 16 + f / 2 ^ 24 % 256 * 2 ^ 24
        ≡ f
    whole = omega (arith, low)
