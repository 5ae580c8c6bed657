-- ===== src/Height.antt =====
-- height/height.go: the height of the top of the chain, as the updates of the block manager tell
-- it. `none` is a panic.
pub mod Top
use gobalance.Common.{sub64, ℕ, Option, none, some}
use gobalance.BlockManager.{op_backtrack, UpdateClass, op_commit, op_new_block, op_commit_done}
use gobalance.Primitives.{Block}

pub record HeightCache : Type 0 where
  pub height : ℕ

unfoldable pub new_height_cache : HeightCache
new_height_cache = record { height = 0 }

-- the switch of `heightRoutine`
unfoldable pub height_update : UpdateClass → Option Block → HeightCache → Option HeightCache
height_update op_new_block none h = none
height_update op_new_block (some block) h = some (record { height = block.height })
height_update op_backtrack none h = none
height_update op_backtrack (some block) h = some (record { height = sub64 block.height 1 })
height_update op_commit block h = some h
height_update op_commit_done block h = some h

unfoldable pub get_height : HeightCache → ℕ
get_height h = h.height
