-- ===== src/Tests/Hosts.antt =====
-- Reports and tags.
use pfstrase.Prelude.{◌≡◌, refl, none, some, [], lookup, snprintf, arith}
use pfstrase.Json.Sample.{Value, text, object}
use pfstrase.Stats.Host.{update_host_entry, host_name}
use pfstrase.Stats.Host.Entries.{field_of, field_of-update_host_entry}
use pfstrase.Stats.Host.Nodes.{node_field, IsClosed, node_field-update_host_entry}
use pfstrase.Stats.Tag.{tag_entry}
use pfstrase.Stats.Tag.Fields.{tag_entry-none_iff}
use pfstrase.Rpc.{sock_rpc, process_rpc}
use pfstrase.Rpc.Accepts.{packets, sock_rpc-packets}
use pfstrase.Prelude.{◌∷◌}
use pfstrase.Tests.Data.{
  J, get_or, client_rpc, next_job_rpc, export_entry, short_entry, no_hosts, two_hosts, reading,
  reading_no_hosts,
}

field_of-update_host_entry_example :
    field_of J (update_host_entry J no_hosts client_rpc).0 "c101" "uid" ≡ some (text "bob")
unfolding host_name snprintf lookup
field_of-update_host_entry_example =
    field_of-update_host_entry J no_hosts client_rpc (text "c101") refl "c101" "uid"

node_field-update_host_entry_example :
    node_field J
      (update_host_entry J (update_host_entry J no_hosts client_rpc).0 next_job_rpc).0
      "10@o2ib"
      "jid"
    ≡ some (text "78")
unfolding host_name snprintf lookup
node_field-update_host_entry_example =
    node_field-update_host_entry J no_hosts client_rpc next_job_rpc (text "c101") (text "c101")
      "10@o2ib" refl refl refl refl "jid"

no_hosts-IsClosed : IsClosed reading reading_no_hosts
unfolding lookup
no_hosts-IsClosed nid h e = cc

abbrev tagged_entry : Value
tagged_entry = get_or (object []) (tag_entry J two_hosts (text "oss1") export_entry)

tag_entry-none_iff_example : tag_entry J two_hosts (text "oss1") short_entry ≡ none
unfolding snprintf lookup
tag_entry-none_iff_example =
    (tag_entry-none_iff J two_hosts (text "oss1") short_entry).1
      (text "10@o2ib", refl, text "MGS", refl, omega arith)

-- A report that arrives in two packets.
sock_rpc-packets_example :
    sock_rpc reading reading_no_hosts (packets ("{\"hid\":" ∷ "1}" ∷ []))
    ≡ (process_rpc reading reading_no_hosts "{\"hid\":1}").0
sock_rpc-packets_example =
    sock_rpc-packets reading reading_no_hosts ("{\"hid\":" ∷ "1}" ∷ []) (omega arith)
