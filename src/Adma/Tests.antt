-- ===== src/Adma/Tests.antt =====
-- The theorems on descriptors at a request of two blocks, one of them out of reach.
use emmc_driver.Base.{◌≡◌, refl, true, false, List, [], ◌∷◌, done, throws, einval, arith}
use emmc_driver.Mmc.{cmd18_read_multiple_block}
use emmc_driver.Cmd.{Cmd, Block, blank}
use emmc_driver.Adma.{Conf, adma2_set_descs, fetch_bounced, dma_accessible}
use emmc_driver.Adma.Blocks.{Described, Fits, adma2_set_descs_lem}
use emmc_driver.Adma.Bounce.{ReadBack, fetch_bounced_lem}
use emmc_driver.Adma.Buffer.{
  Answers, Buffer, recorded, setup_bounce_buffer, Recorded, setup_bounce_buffer_lem,
}

abbrev conf : Conf
conf = record {
  adma2_64 = false;
  capacity = 512;
  dma_offset = 0;
  dma_limit = 0x3fffffff;
  bb_phys = 0x10000000;
  bb_size = 131072;
}

-- the second block is above the limit
abbrev blocks : List Block
blocks =
    record { dma_addr = 0x20000000; virt_addr = 0x1000; num_sectors = 100 }
    ∷ record { dma_addr = 0x80000000; virt_addr = 0x2000; num_sectors = 80 }
    ∷ []

blocks_Fits : Fits conf 0 blocks
unfolding dma_accessible
blocks_Fits = ground arith

adma2_set_descs_lem_example : Described conf false 0 blocks (adma2_set_descs conf false 0 0 blocks)
adma2_set_descs_lem_example =
    adma2_set_descs_lem conf false 0 0 blocks (omega arith) (omega arith) blocks_Fits (omega arith)

abbrev read_blocks : Cmd
read_blocks = record blank {
  cmd = cmd18_read_multiple_block;
  flags = record (blank.flags) { read_from_bounce_buffer = true };
  blocks = blocks;
}

fetch_bounced_lem_example :
    let (t, r) = adma2_set_descs conf true 0 0 blocks in
    (r ≡ done tt) × ReadBack conf 0 blocks t.descs (fetch_bounced conf read_blocks)
fetch_bounced_lem_example =
    fetch_bounced_lem conf read_blocks (λ e. omega (arith, e)) (omega arith) (omega arith)
      blocks_Fits (omega arith) refl refl

-- a bounce buffer behind the limit
abbrev far : Answers
far = record { cap_size = 1048576; map = done (0x40000000, 1048576); attach = done 0x8000 }

abbrev unset : Buffer
unset = record { conf = record conf { bb_size = 0; bb_phys = 0 }; bb_virt = 0 }

far_run :
    setup_bounce_buffer far 64 unset ≡ (recorded 0x40000000 1048576 0x8000 unset, throws einval)
unfolding setup_bounce_buffer dma_accessible
far_run = refl

setup_bounce_buffer_lem_example : Recorded 64 unset (setup_bounce_buffer far 64 unset)
setup_bounce_buffer_lem_example = setup_bounce_buffer_lem far 64 unset (omega arith)
