-- ===== src/Inode/Tests.antt =====
-- Lookups and reads of the sample file.
use Prim.Native.Nat.{min}
use cs162_group.Prelude.{ℕ, ◌-◌, ◌≡◌, refl, Returns}
use cs162_group.Prelude.Int.{pos}
use cs162_group.Store.Plain.{plain}
use cs162_group.Inode.Lookup.{byte_to_sector}
use cs162_group.Inode.Table.{located, byte_to_sector-table}
use cs162_group.Inode.Read.{inode_read_at}
use cs162_group.Inode.Content.{bytes_from, inode_read_at-bytes_from}
use cs162_group.Inode.Sample.{sectors, file600, file600-IsMapped, file600-HasBlocks}

byte_to_sector-table_example : Returns (byte_to_sector plain file600 (pos 520) sectors) λ r.
    (r.0 ≡ located plain file600 sectors 8 file600-IsMapped 520) × ((s : ℕ) → r.1 s ≡ sectors s)
byte_to_sector-table_example =
    byte_to_sector-table plain file600 sectors 8 file600-IsMapped sectors 520 (λ s. refl)

inode_read_at-bytes_from_example : Returns (inode_read_at plain file600 100 500 sectors) λ r.
    (r.0 ≡ bytes_from file600 sectors 500 (min 100 (600 - 500))) × ((s : ℕ) → r.1 s ≡ sectors s)
inode_read_at-bytes_from_example =
    inode_read_at-bytes_from plain file600 sectors 8 file600-HasBlocks 100 500 sectors (λ s. refl)
