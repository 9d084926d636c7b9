-- ===== src/Rpc.antt =====
-- server/socket_server.c: sock_rpc and process_rpc.
pub mod Accepts
pub mod Listen
use Prim.Native.String.{◌++◌ as append}
use pfstrase.Prelude.{
  ℕ, ◌-◌, ◌*◌, String, Bool, true, false, not, ◌&&◌, Option, none, some, List, [], ◌∷◌, ◌==◌, ℤ,
  pos, negsuc, len, slice, leb, eqb, if◌then◌else◌,
}
use pfstrase.Json.{JsonC}
use pfstrase.Stats.Host.{Maps, update_host_map}

-- `SOCKET_BUFFERSIZE` of socket_server.h
abbrev pub socket_buffersize : ℕ
socket_buffersize = 1048576 * 100

-- What arrives on a connection: some bytes, or an error.
pub data Recv : Type 0 where
  packet : String → Recv
  failure : Recv

-- How the loop ends: with `bytes_recvd` 0, or below 0.
pub data Received : Type 0 where
  closed : String → Received
  failed : Received

-- `while ((bytes_recvd = recv(fd, request + p, sizeof(request) - p, 0)) > 0)`. A recv into no
-- room returns 0, and a packet that has no room in full is taken as far as there is.
unfoldable pub recv_loop : ℕ → String → List Recv → Received
recv_loop size request [] = closed request
recv_loop size request (failure ∷ rest) = if leb size (len request) then closed request else failed
recv_loop size request (packet bytes ∷ rest) =
    let room = size - len request in
    let more = recv_loop size (append request bytes) rest in
    if leb (len bytes) room then more else closed (append request (slice bytes 0 room))

module _ (J : JsonC) where
  -- `rpc[0] != '{' && rpc[0] != '['`
  unfoldable pub starts_json : String → Bool
  starts_json rpc = not (not (slice rpc 0 1 == "{") && not (slice rpc 0 1 == "["))

  unfoldable pub process_rpc : Maps J → String → Maps J × ℤ
  process_rpc m rpc = if starts_json rpc then update_host_map J m rpc else (m, negsuc 0)

  abbrev pub process_received : Maps J → Received → Maps J
  process_received m (closed request) = (process_rpc m request).0
  process_received m failed = m

  -- The maps after one connection.
  unfoldable pub sock_rpc : Maps J → List Recv → Maps J
  sock_rpc m arriving = process_received m (recv_loop socket_buffersize "" arriving)
