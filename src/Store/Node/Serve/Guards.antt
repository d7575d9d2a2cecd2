-- ===== src/Store/Node/Serve/Guards.antt =====
-- What holds of every request that a node serves.
use tide_pool.Store.Exec.{failed}
use tide_pool.Store.Interfaces.{PolicyOps, TierOps}
use tide_pool.Api.Status.{unavailable}
use tide_pool.Api.BlockKey.{BlockKey}
use tide_pool.Api.Block.{Block, MutableBuffer}
use tide_pool.Prelude.{Bool, false, refl, ◌≡◌}
use tide_pool.Store.Node.{Node}
use tide_pool.Store.Node.Serve.{put, get, probe, contains_block, locate}

module _ (T : TierOps) (P : PolicyOps) where
  -- A node that is not ready answers every request with `unavailable` and stays as it is.
  pub not_ready-unavailable :
      (has_out : Bool) (key : BlockKey) (block : Block) (dst : MutableBuffer) (n : Node T P)
      → n.ready ≡ false
      → (put T P key block n ≡ failed unavailable n)
        × (get T P has_out key dst n ≡ failed unavailable n)
        × (probe T P key n ≡ failed unavailable n)
        × (contains_block T P key n ≡ failed unavailable n)
        × (locate T P key n ≡ failed unavailable n)
  unfolding put get probe contains_block locate
  not_ready-unavailable has_out key block dst n h = (
    rw (h, put) refl,
    rw (h, get) refl,
    rw (h, probe) refl,
    rw (h, contains_block) refl,
    rw (h, locate) refl,
  )
