-- ===== src/Rpc/Listen.antt =====
-- server/socket_server.c: socket_listen, accept in sock_rpc, and socket_destroy. What the system calls
-- return is a parameter.
use pfstrase.Prelude.{ℕ, Bool, true, false, Option, none, some, List, [], ◌∷◌, if◌then◌else◌}
use pfstrase.Rpc.{Recv, failure}

-- The descriptor that socket() returns, and whether the calls behind it succeed.
pub record Calls : Type 0 where
  pub socket : Option ℕ
  pub setsockopt : Bool
  pub bind : Bool
  pub listen : Bool

-- `sockfd`, which is `none` where it is -1, and the state of the socket.
pub record Socket : Type 0 where
  pub sockfd : Option ℕ
  pub is_open : Bool
  pub listens : Bool

abbrev pub no_socket : Socket
no_socket = record { sockfd = none; is_open = false; listens = false }

abbrev closed_socket : ℕ → Socket
closed_socket fd = record { sockfd = some fd; is_open = false; listens = false }

-- `goto err` returns the descriptor that there is, closed or not.
abbrev pub set_up : Calls → ℕ → Socket
set_up calls fd =
    if calls.setsockopt
    then if calls.bind
      then if calls.listen
        then record { sockfd = some fd; is_open = true; listens = true }
        else closed_socket fd
      else closed_socket fd
    else record { sockfd = some fd; is_open = true; listens = false }

abbrev pub created : Calls → Option ℕ → Socket
created calls none = no_socket
created calls (some fd) = set_up calls fd

unfoldable pub socket_listen : Calls → Socket
socket_listen calls = created calls calls.socket

-- `fd = accept(sockfd, …)`: what recv then returns. Where accept fails, recv is called with its -1.
unfoldable pub accept : Socket → List Recv → List Recv
accept s arriving = if s.listens then arriving else failure ∷ []

unfoldable pub socket_destroy : Socket → Socket
socket_destroy s = record s { is_open = false; listens = false }
