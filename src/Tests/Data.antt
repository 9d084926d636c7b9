-- ===== src/Tests/Data.antt =====
-- A server and a client as they report, and the maps that hold them.
use pfstrase.Prelude.{String, Option, none, some, [], ◌∷◌, pos, true}
use pfstrase.Json.{JsonC}
use pfstrase.Json.Sample.{Value, sample, text, number, object, array}
use pfstrase.Stats.Host.{Maps}
use pfstrase.Rpc.Listen.{Calls}

-- Tags print as texts that this parser knows.
abbrev no_text : String → Option Value
no_text _ = none

abbrev pub J : JsonC
J = sample no_text

abbrev pub get_or {ℓ} : {A : Type ℓ} → A → Option A → A
get_or a none = a
get_or a (some b) = b

abbrev pub client_rpc : Value
client_rpc = object (
    ("hostname", text "c101")
    ∷ ("system", text "stampede")
    ∷ ("nid", text "10@o2ib")
    ∷ ("uid", text "bob")
    ∷ ("jid", text "77")
    ∷ [])

abbrev pub next_job_rpc : Value
next_job_rpc = object (("hostname", text "c101") ∷ ("jid", text "78") ∷ [])

abbrev pub export_entry : Value
export_entry = object (
    ("client_nid", text "10@o2ib")
    ∷ ("target", text "scratch-OST0001")
    ∷ ("stats_type", text "oss")
    ∷ ("stats", object (("write", number (pos 40)) ∷ ("read", number (pos 9)) ∷ []))
    ∷ [])

abbrev pub earlier_entry : Value
earlier_entry = object (
    ("client_nid", text "10@o2ib")
    ∷ ("target", text "scratch-OST0001")
    ∷ ("stats_type", text "oss")
    ∷ ("stats", object (("write", number (pos 10)) ∷ []))
    ∷ [])

abbrev pub short_entry : Value
short_entry = object (("client_nid", text "10@o2ib") ∷ ("target", text "MGS") ∷ [])

abbrev pub client_entry : Value
client_entry = object (("jid", text "77") ∷ ("uid", text "bob") ∷ ("hid", text "c101") ∷ [])

abbrev pub server_entry : Value
server_entry = object (
    ("jid", text "*")
    ∷ ("uid", text "*")
    ∷ ("obdclass", text "oss")
    ∷ ("time", number (pos 12))
    ∷ ("otime", number (pos 10))
    ∷ ("odata", array (earlier_entry ∷ []))
    ∷ ("data", array (export_entry ∷ []))
    ∷ [])

abbrev pub no_hosts : Maps J
no_hosts = record { host_map = object []; nid_map = []; server_tag_rate_map = object [] }

abbrev pub two_hosts : Maps J
two_hosts = record {
  host_map = object (("c101", client_entry) ∷ ("oss1", server_entry) ∷ []);
  nid_map = ("10@o2ib", "c101") ∷ [];
  server_tag_rate_map = object [];
}

-- A library that reads every text as the client's report.
abbrev pub reading : JsonC
reading = sample (λ _. some client_rpc)

abbrev pub reading_no_hosts : Maps reading
reading_no_hosts = record { host_map = object []; nid_map = []; server_tag_rate_map = object [] }

-- A machine on which the port is free.
abbrev pub listening : Calls
listening = record { socket = some 3; setsockopt = true; bind = true; listen = true }
