-- ===== src/Rpc/Accepts.antt =====
-- What one connection can do to the maps.
use Prim.Native.String.{◌++◌ as append}
use text.Mathlib.TextPositions.{len-append}
use pfstrase.Prelude.{
  ℕ, String, ◌≡◌, refl, true, List, [], ◌∷◌, len, leb, le→leb, ◌-◌, ◌≤◌, ◌<◌, ap, Bool-cases, inl,
  inr, arith,
}
use pfstrase.Json.{JsonC}
use pfstrase.Stats.Host.{Maps}
use pfstrase.Stats.Host.Nodes.{IsClosed, update_host_map-IsClosed}
use pfstrase.Rpc.{
  Recv, packet, Received, closed, failed, recv_loop, starts_json, process_rpc, process_received,
  sock_rpc, socket_buffersize,
}

-- The text that packets carry, and the packets as they arrive.
abbrev pub joined : String → List String → String
joined request [] = request
joined request (bytes ∷ rest) = joined (append request bytes) rest

abbrev pub packets : List String → List Recv
packets [] = []
packets (bytes ∷ rest) = packet bytes ∷ packets rest

len-joined : (request : String) (l : List String) → len request ≤ len (joined request l)
len-joined request [] = omega arith
len-joined request (bytes ∷ rest) =
    omega (arith, len-joined (append request bytes) rest, len-append request bytes)

-- However the bytes of an RPC are split into packets, the loop puts them together, if they fit
-- the buffer.
recv_loop-packets :
    (size : ℕ) (request : String) (l : List String)
    → len (joined request l) ≤ size
    → recv_loop size request (packets l) ≡ closed (joined request l)
unfolding recv_loop
recv_loop-packets size request [] fits = refl
recv_loop-packets size request (bytes ∷ rest) fits =
    let room : leb (len bytes) (size - len request) ≡ true =
      le→leb _ _
        (omega (arith, len-joined (append request bytes) rest, len-append request bytes)) in
    rw room (recv_loop-packets size (append request bytes) rest fits)

module _ (J : JsonC) where
  -- However the bytes of an RPC are split into packets, the server takes in the RPC as a whole, if
  -- the buffer holds it and a zero behind it.
  pub sock_rpc-packets :
      (m : Maps J) (l : List String)
      → len (joined "" l) < socket_buffersize
      → sock_rpc J m (packets l) ≡ (process_rpc J m (joined "" l)).0
  unfolding sock_rpc
  sock_rpc-packets m l fits =
      ap (process_received J m) (recv_loop-packets socket_buffersize "" l (omega (arith, fits)))

  process_rpc-IsClosed :
      (m : Maps J) (rpc : String) → IsClosed J m → IsClosed J (process_rpc J m rpc).0
  unfolding process_rpc
  process_rpc-IsClosed m rpc h = elim (Bool-cases (starts_json J rpc)) [
    | inl e ↦ rw (e, process_rpc) (update_host_map-IsClosed J m rpc h)
    | inr e ↦ rw (e, process_rpc) h
  ]

  process_received-IsClosed :
      (m : Maps J) (r : Received) → IsClosed J m → IsClosed J (process_received J m r)
  process_received-IsClosed m (closed request) h = process_rpc-IsClosed m request h
  process_received-IsClosed m failed h = h

  -- Whatever arrives on a connection, in whatever packets and with whatever errors, every node id
  -- goes on to stand for a host that has an entry.
  pub sock_rpc-IsClosed :
      (m : Maps J) (arriving : List Recv) → IsClosed J m → IsClosed J (sock_rpc J m arriving)
  unfolding sock_rpc
  sock_rpc-IsClosed m arriving h =
      process_received-IsClosed m (recv_loop socket_buffersize "" arriving) h
