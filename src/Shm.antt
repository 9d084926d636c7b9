-- ===== src/Shm.antt =====
-- server/shmmap.c: the server's map in shared memory, under a semaphore.
pub mod Protocol
pub mod Exchange
pub mod Closed
pub mod Progress
pub mod Rounds
pub mod Sound
pub mod Setup
use Prim.Native.String.{◌++◌ as append}
use pfstrase.Prelude.{
  ℕ, String, Option, none, some, len, slice, leb, ◌*◌, ◌>>=◌, [], ◌∷◌, if◌then◌else◌,
}
use pfstrase.Json.{JsonC}
use pfstrase.Stats.Host.{Maps}
use pfstrase.Stats.Tag.{tag_stats}
use pfstrase.Stats.Group.{group_statsbytags}

-- `mm_size`
abbrev pub mm_size : ℕ
mm_size = 100 * 1024 * 1024

-- `memcpy(mm_ptr, buffer, strlen(buffer))`: what was in memory behind the text stays there, the
-- text's terminating zero is not copied. `none` is a write past the mapping.
unfoldable pub copy_map : String → String → Option String
copy_map memory buffer =
    if leb (len buffer) mm_size
    then some (append buffer (slice memory (len buffer) (len memory)))
    else none

module _ (J : JsonC) where
  open J use {Json, to_json_string, tokener_parse}

  -- set_shm_map up to the copy: the maps afterwards, and the text.
  unfoldable pub make_buffer : Maps J → Option (Maps J × String)
  make_buffer m = do
    tagged ← tag_stats J m
    grouped ← group_statsbytags J ("system" ∷ "fid" ∷ "server" ∷ "jid" ∷ "uid" ∷ []) tagged
    some (grouped, to_json_string grouped.server_tag_rate_map)

  -- set_shm_map with the semaphore held: the maps and the memory.
  unfoldable pub set_shm_map : Maps J → String → Option (Maps J × String)
  set_shm_map m memory = do
    (grouped, buffer) ← make_buffer m
    written ← copy_map memory buffer
    some (grouped, written)

  -- get_shm_map with the semaphore held: a memory that does not parse keeps the old map.
  abbrev parsed_or_old : Json → Option Json → Json
  parsed_or_old old none = old
  parsed_or_old old (some server_map) = server_map

  unfoldable pub get_shm_map : Json → String → Json
  get_shm_map old memory = parsed_or_old old (tokener_parse memory)
