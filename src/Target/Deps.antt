-- ===== src/Target/Deps.antt =====
-- src/target/deps.ts: the edges between work items, and their capabilities. The whole edge, and the
-- whole pair, is the primary key of its table.
pub mod Edges
use decompi.Base.{ℕ, ◌≡◌, Bool, ◌&&◌, List, String, ◌===◌, str_dec, pair_dec}
use decompi.Core.Store.{insert_ignore, delete_where}

pub data DepKind : Type 0 where
  depends_on calls unresolved_calls abi_helper : DepKind

-- The text that is stored for a kind.
unfoldable pub kind_text : DepKind → String
kind_text depends_on = "depends_on"
kind_text calls = "calls"
kind_text unresolved_calls = "unresolved_calls"
kind_text abi_helper = "abi_helper"

-- A row of `work_item_deps`.
pub record DepEdge : Type 0 where
  pub from_id : String
  pub to_id : String
  pub kind : DepKind

-- A row of `work_item_capabilities`.
pub record Capability : Type 0 where
  pub work_item_id : String
  pub capability : String

abbrev pub EdgeKey : Type 0
EdgeKey = String × (String × String)

unfoldable pub edge_key : DepEdge → EdgeKey
unfolding kind_text
edge_key e = (e.from_id, (e.to_id, kind_text e.kind))

unfoldable pub edge_dec : (a b : EdgeKey) → Dec (a ≡ b)
unfolding pair_dec str_dec
edge_dec = pair_dec str_dec (pair_dec str_dec str_dec)

abbrev pub capability_key : Capability → String × String
capability_key c = (c.work_item_id, c.capability)

unfoldable pub capability_dec : (a b : String × String) → Dec (a ≡ b)
unfolding pair_dec str_dec
capability_dec = pair_dec str_dec str_dec

-- True when the edge was inserted, false when it was there.
unfoldable pub add_dep : String → String → DepKind → List DepEdge → List DepEdge × Bool
add_dep from_id to_id kind deps =
    insert_ignore edge_dec edge_key (record { from_id = from_id; to_id = to_id; kind = kind }) deps

-- The number of rows deleted comes second.
unfoldable pub remove_dep : String → String → DepKind → List DepEdge → List DepEdge × ℕ
remove_dep from_id to_id kind =
    delete_where
      (λ r. (r.from_id === from_id) && (r.to_id === to_id) && (kind_text r.kind === kind_text kind))

unfoldable pub add_capability : String → String → List Capability → List Capability × Bool
add_capability item capability =
    insert_ignore capability_dec capability_key
      (record { work_item_id = item; capability = capability })
