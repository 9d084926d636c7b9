-- ===== src/Lib.antt =====
-- pfstrase: tracing and analysis of a Lustre file system.
--
-- A collector (client/pfstrase_client) on every server and client of the file system reads its
-- statistics and sends them as a JSON text, an RPC, to the map server
-- (server/pfstrase_server). The server keeps an entry per host in host_map and lets node ids in
-- nid_map share those entries. From two reports of a server it computes the rate of every export,
-- groups the rates by tags, and writes the resulting map to shared memory. The viewer, pfstop
-- (server/screen.c), reads that map, groups it again for display and draws a table.
--
-- Files and code:
--   Json         json-c and double, which the sources only call: a record of operations with the
--                behaviour that the code relies on, a parameter of every model; Json/Sample is
--                a concrete one, for the tests
--   Stats/Host   server/stats.c: update_host_entry, update_host_map
--   Stats/Tag    server/stats.c: tag_stats
--   Stats/Rates  server/stats.c: calc_rates
--   Stats/Totals server/stats.c: add_stats, derived_events
--   Stats/Group  server/stats.c: is_class, aggregate_stat, group_statsbytags
--   Stats/View   server/stats.c: group_ratesbytags
--   Shm          server/shmmap.c: set_shm_map, get_shm_map, the semaphore around them (Protocol), and
--                the set-up of both (Setup)
--   Rpc          server/socket_server.c: process_rpc, sock_rpc, socket_listen (Listen)
--   Screen       server/screen.c: the key handler (Keys), scrolling and drawn rows (Scroll), the
--                table (Table), the header and rows as texts (Draw), the refreshes and the event
--                callbacks (Refresh), the options and the user filter (Session)
--   Buffer       a text that snprintf writes piece by piece into an array, as server/pq.c and
--                server/screen.c do
--   Database     server/pq.c: pq_connect, pq_insert
--   Conf         read_conf_file of server/pfstrase_server.c, server/pfsql.c and
--                client/pfstrase_client.c
--   Collect      client/collect.c, exports.c, target.c, llite.c, osc.c, cpu.c, sysinfo.c;
--                client/lfs_utils.c (Discover), client/socket_client.c (Send)
--   Programs     main of server/pfstrase_server.c, server/pfsql.c and client/pfstrase_client.c; the
--                event loops of the server (Server), of pfsql (Sql) and of the collector
--                (Collector); server/daemonize.c and client/daemonize.c, which are the same,
--                client/pidfile_create.c, and signal_cb_int (Daemon)
--
-- The functions have the names of the source. A loop over an object goes over the list of its
-- entries at the start of the loop; where the body writes to the object itself, it writes under keys
-- that are there. Global maps are passed as state. Objects that the code shares are named:
-- nid_map keeps the name of the host whose object it holds, and Stats/View keeps which row a
-- group took its object from. `none` stands for undefined behaviour, such as a write outside a
-- buffer or a `%` in a format. An int or int64_t wraps around. Buffers keep their sizes: a
-- text is cut as snprintf cuts it. Texts are bytes without a zero. An event loop is
-- a step relation: libev calls one handler after the other, and an event carries what its
-- handler reads from outside.
--
-- Fuel: the loop that draws rows has the length of the table, of which each round takes a row; the
-- loop over the sends of a report has one round for each byte of the buffer and one more, of which
-- each round but the last sends a byte.
--
-- Assumed where a theorem names it: a stats file whose units are words of at most 15 bytes
-- (Collect/Units), a printed map that json-c reads back whatever is behind it (Shm/Exchange), and a
-- comparison that orders the rows that json-c sorts (Screen/Table/Order).
--
-- Not modelled: what libev, libpq, ncurses and the system calls do beyond their results, as libev's
-- own test of a negative descriptor; the network between the sends of a collector and the packets
-- that the server receives; pq_select and the window and clock of the status bar, which are output;
-- and the scripts and the web site.
pub mod Prelude
pub mod Json
pub mod Stats
pub mod Screen
pub mod Shm
pub mod Rpc
pub mod Buffer
pub mod Database
pub mod Programs
pub mod Conf
pub mod Collect
pub mod Tests
