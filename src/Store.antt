-- ===== src/Store.antt =====
-- What the file system asks of the buffer cache: sectors that read as they were last written.
-- `Words` is the layout of 32-bit words in a sector, `Cached` the cache as such a store, `Plain` sectors
-- as a function.
pub mod Pieces
pub mod Words
pub mod Cached
pub mod Plain
use cs162_group.Prelude.{ℕ, ◌<◌, ◌≡◌, Option, Returns, ◌==◌, if◌then◌else◌}
use cs162_group.Block.{Data, overwrite}

pub record Store : Type 1 where
  pub State : Type 0
  pub read : ℕ → State → Option (Data × State)
  pub write : ℕ → Data → State → Option State
  -- The state is in order, has `n` sectors and reads as `f`.
  pub Holds : State → (ℕ → Data) → ℕ → Type 0
  pub read_lem :
      (w : State) (f : ℕ → Data) (n s : ℕ)
      → Holds w f n
      → s < n
      → Returns (read s w) λ r. (r.0 ≡ f s) × Holds r.1 f n
  pub write_lem :
      (w : State) (f : ℕ → Data) (n s : ℕ) (d : Data)
      → Holds w f n
      → s < n
      → Returns (write s d w) λ w'. Holds w' (overwrite f s d) n
