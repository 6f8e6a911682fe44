-- ===== src/Open/Sample.antt =====
-- The sample file, open once.
use cs162_group.Prelude.{ℕ, Bool, true, false, Option, some, [], ◌∷◌}
use cs162_group.Block.{Data}
use cs162_group.Bitmap.{Bitmap}
use cs162_group.Store.Plain.{plain}
use cs162_group.Volume.{Volume, of_free_map}
use cs162_group.Inode.Sample.{file600}
use cs162_group.Open.{OpenInode, OpenInodes}

abbrev pub write_map : Bitmap → (ℕ → Data) → Option (Bool × (ℕ → Data))
write_map m w = some (true, w)

abbrev pub vol : Volume
vol = of_free_map plain true write_map

abbrev pub node4 : OpenInode
node4 = record { sector = 4; open_cnt = 1; removed = false; deny_write_cnt = 0; data' = file600 }

abbrev pub one_open : OpenInodes
one_open = record { next = 1; nodes = (0, node4) ∷ [] }
