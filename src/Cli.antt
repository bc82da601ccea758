-- ===== src/Cli.antt =====
-- src/cli/src/main.rs: the range of layers that the `worker` command takes.
pub mod Layers
pub mod Generate
pub mod Start
pub mod Answers
pub mod Replies
pub mod Flat
use inference_mesh.Base.{
  ℕ, ltb, u32_mod, if◌then◌else◌, Option, List, [], ◌∷◌, Result, ok, err, bad_layers, ok_or, ◌>>=◌,
  split, parse_unsigned,
}
use inference_mesh.Protocol.Schema.{Bytes}

-- Both parts are read before they are compared, and every error is one value.
abbrev pub read_range : Bytes → Bytes → Result (ℕ × ℕ)
read_range first second = do
  start ← ok_or (parse_unsigned u32_mod first) bad_layers
  end ← ok_or (parse_unsigned u32_mod second) bad_layers
  if ltb end start then err bad_layers else ok (start, end)

abbrev pub read_parts : List Bytes → Result (ℕ × ℕ)
read_parts (first ∷ second ∷ []) = read_range first second
read_parts (first ∷ second ∷ third ∷ parts) = err bad_layers
read_parts (first ∷ []) = err bad_layers
read_parts [] = err bad_layers

unfoldable pub parse_layers : Bytes → Result (ℕ × ℕ)
parse_layers s = read_parts (split b'-' s)
