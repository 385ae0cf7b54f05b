-- ===== src/Client/Startup.antt =====
-- `main` of client.cpp up to its menu: the command line and the socket.
use high_performance_chatser.Prelude.{
  ℕ, ◌≡◌, ◌<◌, refl, Bool, true, Bytes, List, [], ◌∷◌, Option, none, some, pos, if◌then◌else◌,
}
use high_performance_chatser.Prelude.Decimal.{atoi, fmt_int, to_port, port_back}

-- What `socket` answers, `none` for -1, and whether `connect` of a descriptor to an address and a
-- port succeeds.
pub record Network : Type 0 where
  pub socket : Option ℕ
  pub connect : ℕ → Bytes → ℕ → Bool

-- How `main` goes on: with the menu and the second thread, or with `exit`.
pub data Startup : Type 0 where
  invalid_command no_socket : Startup
  closed_unconnected : ℕ → Startup
  connected : ℕ → Startup

unfoldable pub connect_client : Network → ℕ → Bytes → Bytes → Startup
unfolding atoi to_port
connect_client net fd ip port =
    if net.connect fd ip (to_port (atoi port)) then connected fd else closed_unconnected fd

-- Of `argv`.
unfoldable pub start_client : Network → List Bytes → Startup
unfolding connect_client
start_client net [] = invalid_command
start_client net (program ∷ []) = invalid_command
start_client net (program ∷ ip ∷ []) = invalid_command
start_client net (program ∷ ip ∷ port ∷ rest) = elim net.socket [
  | none ↦ no_socket
  | some fd ↦ connect_client net fd ip port
]

-- With an address and the digits of a port on the command line, the client connects to these, if
-- the system gives it a socket and the connection can be made.
start_client_lem :
    (net : Network) (program ip : Bytes) (port fd : ℕ)
    → port < 65536
    → net.socket ≡ some fd
    → net.connect fd ip port ≡ true
    → start_client net (program ∷ ip ∷ fmt_int (pos port) ∷ []) ≡ connected fd
unfolding start_client connect_client
start_client_lem net program ip port fd small_enough given made =
    let same = port_back port small_enough in rw given (rw (same, made) refl)
