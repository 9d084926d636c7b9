-- ===== src/Collect/Send.antt =====
-- client/socket_client.c, sock_send_data: a report is collected and sent to the server.
pub mod Ends
use pfstrase.Prelude.{
  ℕ, zero, suc, ◌+◌, ◌-◌, ◌*◌, String, Bool, Option, none, some, ◌>>=◌, eqb, snprintf_format,
  if◌then◌else◌,
}
use pfstrase.Json.{JsonC}
use pfstrase.Collect.{Machine}
use pfstrase.Collect.Devices.{DeviceInfo}
use pfstrase.Collect.Report.{Sysinfo, collect_devices}

-- `SOCKET_BUFFERSIZE`
abbrev pub socket_buffersize : ℕ
socket_buffersize = 1048576 * 100

-- What the network does: whether the name resolves and a socket is made, and how many bytes a send
-- takes that stands at an offset, of a number of bytes; 0 stands for -1 too. A connection that
-- fails is only logged: the sends behind it fail.
pub record Network : Type 0 where
  pub resolves : Bool
  pub makes_socket : Bool
  pub send : ℕ → ℕ → ℕ

-- `while ((bytes_sent = send(server_socket, request + p, sizeof(request) - p, 0)) > 0)`: the bytes
-- sent in the end. Fuel bounds the rounds; `none` is fuel that ran out.
unfoldable pub send_loop : (ℕ → ℕ → ℕ) → ℕ → ℕ → ℕ → Option ℕ
send_loop send zero size p = none
send_loop send (suc fuel) size p =
    let bytes_sent = send p (size - p) in
    let rest = send_loop send fuel size (p + bytes_sent) in
    if eqb bytes_sent 0 then some p else rest

-- No socket was made, or the buffer and the bytes of it that were sent.
pub data Sent : Type 0 where
  not_sent : Sent
  sent : String → ℕ → Sent

module _ (J : JsonC) (env : Machine) (sysinfo : Option Sysinfo) (to_float : ℕ → J.Double)
    (network : Network) where
  open J use {new_object, to_json_string}

  -- `snprintf(request, sizeof(request), json_object_to_json_string(message_json))`: the whole buffer
  -- is sent, so that each round of the loop, which sends a byte at least, has its fuel.
  unfoldable pub send_report : DeviceInfo → Option Sent
  send_report info = do
    message_json ← collect_devices J env sysinfo to_float info new_object
    request ← snprintf_format socket_buffersize (to_json_string message_json)
    p ← send_loop network.send (socket_buffersize + 1) socket_buffersize 0
    some (sent request p)

  unfoldable pub sock_send_data : DeviceInfo → Option Sent
  sock_send_data info =
      let report = send_report info in
      if network.resolves
      then if network.makes_socket then report else some not_sent
      else some not_sent
