-- ===== src/Server/Store.antt =====
-- misc/server/store_memory.go. A call of a method is one step: each holds the table's lock.
pub mod Table
pub mod Revisions
use securetunnel.Base.{Bool, true, false, List, Option, Text, codes, ◌==◌, if◌then◌else◌, text_eq}
use securetunnel.Server.Id.{tunnel_id}
use securetunnel.Server.Tunnel.{Tunnel, Connection}
use Table.{Operator, Result, ok, err, DataMap, add, update, delete, list, get_with_key}

-- `tunnelOperator` and `connectionOperator`.
abbrev pub tunnel_operator : Operator Text Tunnel
tunnel_operator = record {
  get_key = λ t. t.id;
  get_rev = λ t. t.rev;
  set_rev = λ t rev. record t { rev = rev };
}

abbrev pub connection_operator : Operator Text Connection
connection_operator = record {
  get_key = λ c. c.id;
  get_rev = λ c. c.rev;
  set_rev = λ c rev. record c { rev = rev };
}

pub record MemoryStore : Type 0 where
  pub tunnel_table : DataMap Text Tunnel
  pub connection_table : DataMap Text Connection

-- A method that fails leaves the store alone.
abbrev pub map_result : {A B : Type 0} → (A → B) → Result A → Result B
map_result f (ok a) = ok (f a)
map_result f (err x) = err x

unfoldable pub get_tunnel : Text → MemoryStore → Option Tunnel
get_tunnel id s = get_with_key id s.tunnel_table

unfoldable pub get_tunnels : MemoryStore → List Tunnel
get_tunnels s = list (λ _. true) s.tunnel_table

unfoldable pub add_tunnel : Tunnel → MemoryStore → Result MemoryStore
add_tunnel t s =
    map_result (λ table. record s { tunnel_table = table }) (add tunnel_operator t s.tunnel_table)

unfoldable pub update_tunnel : Tunnel → MemoryStore → Result MemoryStore
update_tunnel t s =
    map_result (λ table. record s { tunnel_table = table })
      (update tunnel_operator t s.tunnel_table)

unfoldable pub delete_tunnel : Text → MemoryStore → MemoryStore
delete_tunnel id s = record s { tunnel_table = delete id s.tunnel_table }

unfoldable pub get_connection : Text → MemoryStore → Option Connection
get_connection id s = get_with_key id s.connection_table

-- An empty tunnel id in the options asks for every connection.
unfoldable pub connection_matches : Text → Connection → Bool
connection_matches id c =
    if id == codes "" then true else if tunnel_id c.id == id then true else false

unfoldable pub get_connections : Text → MemoryStore → List Connection
get_connections id s = list (connection_matches id) s.connection_table

unfoldable pub add_connection : Connection → MemoryStore → Result MemoryStore
add_connection c s =
    map_result (λ table. record s { connection_table = table })
      (add connection_operator c s.connection_table)

unfoldable pub update_connection : Connection → MemoryStore → Result MemoryStore
update_connection c s =
    map_result (λ table. record s { connection_table = table })
      (update connection_operator c s.connection_table)

unfoldable pub delete_connection : Text → MemoryStore → MemoryStore
delete_connection id s = record s { connection_table = delete id s.connection_table }
