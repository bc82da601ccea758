-- ===== src/P2p/Worker/Terminal.antt =====
-- What the worker answers at the last hop of a route (src/p2p/src/swarm.rs, `handle_terminal_hop`).
use inference_mesh.Base.{ℕ, ◌≡◌, List, [], ◌∷◌, ok, arith}
use inference_mesh.Protocol.Request.{ForwardPassRequest}
use inference_mesh.Protocol.Response.{ForwardPassResponse}
use inference_mesh.P2p.Net.{Net, Command, send_response}
use inference_mesh.P2p.Worker.{
  Settings, send_echo_response, send_empty, answer_output, handle_terminal_hop,
}

module _ (net : Net) where
  open net use {Channel}

  -- The commands are one answer on the channel.
  abbrev pub IsAnswer : Channel → List (Command net) → Type 0
  IsAnswer channel commands =
      (response : ForwardPassResponse) × (commands ≡ send_response channel response ∷ [])

  send_echo_response-IsAnswer :
      (channel : Channel) (rid : ℕ) (request : ForwardPassRequest) (commands : List (Command net))
      → send_echo_response net channel rid request ≡ ok commands
      → IsAnswer channel commands
  unfolding send_echo_response
  send_echo_response-IsAnswer channel rid request commands e = ground arith

  send_empty-IsAnswer :
      (channel : Channel) (rid : ℕ) (commands : List (Command net))
      → send_empty net channel rid ≡ ok commands
      → IsAnswer channel commands
  unfolding send_empty
  send_empty-IsAnswer channel rid commands e = ground arith

  answer_output-IsAnswer :
      (channel : Channel) (rid : ℕ) (request : ForwardPassRequest) (output_vec : List ℕ)
      (commands : List (Command net))
      → answer_output net channel rid request output_vec ≡ ok commands
      → IsAnswer channel commands
  unfolding answer_output
  answer_output-IsAnswer channel rid request output_vec commands e = ground arith

  -- A terminal hop that does not end the worker answers the request once.
  pub handle_terminal_hop-IsAnswer :
      (s : Settings net) (channel : Channel) (rid : ℕ) (request : ForwardPassRequest)
      (commands : List (Command net))
      → handle_terminal_hop net s channel rid request ≡ ok commands
      → IsAnswer channel commands
  unfolding handle_terminal_hop
  handle_terminal_hop-IsAnswer s channel rid request commands e = ground (
    arith,
    send_echo_response-IsAnswer channel rid request commands,
    send_empty-IsAnswer channel rid commands,
    λ (out : List ℕ). answer_output-IsAnswer channel rid request out commands,
  )
