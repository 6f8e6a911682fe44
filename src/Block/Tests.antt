-- ===== src/Block/Tests.antt =====
-- A small device.
use cs162_group.Prelude.{[], ◌∷◌, ◌≡◌, refl, none}
use cs162_group.Block.{Device, BlockType, block_read}

abbrev disk : Device
disk = record {
  type = BlockType.filesys;
  size = 4;
  sectors = λ s. s ∷ [];
  read_cnt = 0;
  write_cnt = 0;
}

read_past_end : block_read disk 4 ≡ none
unfolding block_read
read_past_end = refl
