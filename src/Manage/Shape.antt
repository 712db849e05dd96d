-- ===== src/Manage/Shape.antt =====
-- calc_sparse_values: when the sector bitmap has room for a bit of each sector of a block.
use mini_vhd.Prelude.{◌*◌, ◌/◌, ◌%◌, ◌≤◌, ◌≡◌, ◌↔◌, ◌⊎◌, arith}
use mini_vhd.Image.{Meta}
use mini_vhd.Manage.{calc_sparse_values}

-- The two roundings down lose up to seven sectors behind a multiple of 4096.
pub calc_sparse_values-capacity :
    (m : Meta)
    → ((calc_sparse_values m).sect_per_block ≤ (calc_sparse_values m).bitmap.sector_count * 4096)
      ↔ ((m.sparse.block_sz / 512 % 4096 ≡ 0) ⊎ (8 ≤ m.sparse.block_sz / 512 % 4096))
unfolding calc_sparse_values
calc_sparse_values-capacity m = (λ fits. ground arith, λ whole. ground arith)
