-- ===== src/TxPool/Lookup.antt =====
-- txpool/lookup_map.go: the transactions of the pool by their hash.
use go_plgchain.Base.{ℕ, List, [], ◌∷◌, Bool, true, false, Option, none, some}
use go_plgchain.Base.Dict.{lookup, insert, delete}
use go_plgchain.Types.{Transaction}
use go_plgchain.TxPool.Queue.{Txs}

abbrev pub LookupMap : Type 0
LookupMap = List (ℕ × Transaction)

-- The map afterwards, and false if the hash was there already.
unfoldable pub add : LookupMap → Transaction → LookupMap × Bool
unfolding lookup insert
add m tx = elim (lookup tx.hash m) [ some old ↦ (m, false) | none ↦ (insert tx.hash tx m, true) ]

unfoldable pub remove : Txs → LookupMap → LookupMap
unfolding delete
remove [] m = m
remove (tx ∷ txs) m = remove txs (delete tx.hash m)

unfoldable pub get : LookupMap → ℕ → Option Transaction
unfolding lookup
get m hash = lookup hash m
