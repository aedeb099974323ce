-- ===== src/Inventory/Snapshots.antt =====
-- The rows of `InventorySnapshot`, as the queries of the inventory services read and write them.
-- A query by key takes the first row that fits (`snapshots[0]`), and an update or a delete by the
-- id of that row meets the same row.
pub mod Totals
pub mod Bounds
pub mod Reads
use pasalho.Prelude.{
  ℕ, ◌+◌, Bool, true, false, Option, none, some, List, [], ◌∷◌, ◌++◌, if◌then◌else◌, ◌&&◌, ◌||◌,
  is_some,
}
use pasalho.Prelude.Int.{ℤ, pos, ◌+ℤ◌}
use pasalho.Prelude.Result.{Result, ok, err, p2002}
use pasalho.Inventory.Data.{StockKey, Snapshot, same_key, same_unit_free_key}

unfoldable pub find_snapshot : StockKey → List Snapshot → Option Snapshot
find_snapshot k [] = none
find_snapshot k (r ∷ rows) = if same_key k r.key then some r else find_snapshot k rows

-- `none` as the last movement leaves that column as it is.
abbrev pub or_else : Option ℕ → Option ℕ → Option ℕ
or_else none old = old
or_else (some m) old = some m

abbrev pub written : ℤ → ℤ → Option ℕ → Snapshot → Snapshot
written q b m r = record r {
  quantity = q;
  base_quantity = b;
  version = r.version + 1;
  last_movement = or_else m r.last_movement;
}

-- `UPDATE "InventorySnapshot" SET quantity, "baseQuantity", version = version + 1 WHERE id`
unfoldable pub update_snapshot : StockKey → ℤ → ℤ → Option ℕ → List Snapshot → List Snapshot
update_snapshot k q b m [] = []
update_snapshot k q b m (r ∷ rows) =
    if same_key k r.key then written q b m r ∷ rows else r ∷ update_snapshot k q b m rows

unfoldable pub delete_snapshot : StockKey → List Snapshot → List Snapshot
delete_snapshot k [] = []
delete_snapshot k (r ∷ rows) = if same_key k r.key then rows else r ∷ delete_snapshot k rows

-- The unique index of the table. Rows with no batch never collide, as SQL's nulls are distinct.
unfoldable pub collides : StockKey → List Snapshot → Bool
collides k [] = false
collides k (r ∷ rows) = (is_some k.batch && same_unit_free_key k r.key) || collides k rows

abbrev pub new_row : StockKey → ℤ → ℤ → Option ℕ → Snapshot
new_row k q b m = record {
  key = k;
  quantity = q;
  base_quantity = b;
  version = 0;
  last_movement = m;
}

unfoldable pub create_snapshot :
    StockKey → ℤ → ℤ → Option ℕ → List Snapshot → Result (List Snapshot)
unfolding collides
create_snapshot k q b m rows =
    if collides k rows then err p2002 else ok (rows ++ new_row k q b m ∷ [])

-- The base quantity that the rows hold under a key, over all rows of the key.
abbrev pub base_under : StockKey → Snapshot → ℤ
base_under k r = if same_key k r.key then r.base_quantity else pos 0

unfoldable pub on_hand : StockKey → List Snapshot → ℤ
on_hand k [] = pos 0
on_hand k (r ∷ rows) = base_under k r +ℤ on_hand k rows

-- What a write under `k` changes at `j`.
abbrev pub at_key : StockKey → StockKey → ℤ → ℤ
at_key k j d = if same_key j k then d else pos 0
