-- ===== src/File/Tests.antt =====
-- The sample file, open.
use Prim.Native.Nat.{min}
use cs162_group.Prelude.{ℕ, ◌+◌, ◌-◌, ◌≡◌, refl, true, false, some, Returns, List, ◌++◌, arith}
use cs162_group.Block.{Data}
use cs162_group.Bitmap.{Bitmap}
use cs162_group.Store.Plain.{plain}
use cs162_group.Inode.Sample.{sectors, file600, file600-HasBlocks}
use cs162_group.Inode.Content.{bytes_from}
use cs162_group.Open.Sample.{write_map, node4, one_open}
use cs162_group.File.{File, file_read, file_write, file_deny_write, file_allow_write}
use cs162_group.File.Laws.{file_read-file_read, file_allow_write-file_deny_write}

abbrev at_500 : File
at_500 = record { inode = 0; pos = 500; deny_write = false }

file_read-file_read_example :
    Returns (file_read plain true write_map at_500 40 one_open sectors) λ r.
      Returns (file_read plain true write_map r.1 80 one_open r.2) λ q.
        (r.0 ++ q.0 ≡ bytes_from file600 sectors 500 (min (40 + 80) (600 - 500)))
        × (q.1.pos ≡ 500 + min (40 + 80) (600 - 500))
        × ((s : ℕ) → q.2 s ≡ sectors s)
file_read-file_read_example =
    file_read-file_read plain true write_map at_500 node4 sectors 8 40 80 one_open sectors refl
      file600-HasBlocks (λ s. refl)

file_allow_write-file_deny_write_example : Returns (file_deny_write at_500 one_open) λ r.
    ((other : File) (buffer : List ℕ) (size : ℕ) (w : Bitmap × (ℕ → Data))
      → other.inode ≡ 0
      → file_write plain true write_map other buffer size r.1 w
        ≡ some (0, record other { pos = other.pos + 0 }, r.1, w))
    × Returns (file_allow_write r.0 r.1) λ q. (q.0 ≡ at_500) × (q.1.nodes ≡ one_open.nodes)
file_allow_write-file_deny_write_example =
    file_allow_write-file_deny_write plain true write_map at_500 node4 one_open refl refl
      (omega arith)
