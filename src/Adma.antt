-- ===== src/Adma.antt =====
-- server/src/drv_sdhci-impl.h and server/src/drv_sdhci.h: the ADMA2 descriptor table, by which the
-- controller finds the memory of a request, and the bounce buffer for memory that it cannot reach.
-- Drv_base::dma_accessible() stands in server/src/drv.h.
pub mod Region
pub mod Blocks
pub mod Bounce
pub mod Buffer
pub mod Size
mod Tests
use emmc_driver.Base.{
  ℕ, zero, suc, ◌+◌, ◌-◌, ◌*◌, ◌/◌, ◌%◌, ◌^◌, min, Bool, true, false, not, ◌&&◌, ◌||◌, List, [],
  ◌∷◌, ◌++◌, Outcome, done, throws, einval, ltb, leb, ◌==◌, if◌then◌else◌, length,
}
use emmc_driver.Mmc.{cmd17_read_single_block, cmd18_read_multiple_block}
use emmc_driver.Cmd.{Cmd, Block}

-- What the table and the buffers of a controller are. `capacity` is the number of descriptors that
-- fit the table, `bb_size` is 0 without a bounce buffer.
pub record Conf : Type 0 where
  pub adma2_64 : Bool
  pub capacity : ℕ
  pub dma_offset : ℕ
  pub dma_limit : ℕ
  pub bb_phys : ℕ
  pub bb_size : ℕ

-- Adma2_desc_32::max_length
abbrev pub max_length : ℕ
max_length = 32768

-- Adma2_desc_32 and Adma2_desc_64: `addr` is what get_addr() reads.
pub record Desc : Type 0 where
  pub valid : Bool
  pub act_tran : Bool
  pub length_field : ℕ
  pub end_flag : Bool
  pub addr : ℕ

-- T::get_max_addr()
abbrev pub max_addr : Conf → ℕ
max_addr cf = if cf.adma2_64 then 2 ^ 64 - 1 else 2 ^ 32 - 1

-- T::set_addr() of a 64-bit sum
abbrev pub addr_field : Conf → ℕ → ℕ
addr_field cf a = if cf.adma2_64 then a % 2 ^ 64 else a % 2 ^ 32

-- `addr + size - 1` in 64 bits
unfoldable pub dma_accessible : Conf → ℕ → ℕ → Bool
dma_accessible cf addr size =
    leb addr cf.dma_limit && leb ((addr + size + (2 ^ 64 - 1)) % 2 ^ 64) cf.dma_limit

abbrev pub provided_bounce_buffer : Conf → Bool
provided_bounce_buffer cf = not (cf.bb_size == 0)

-- adma2_set_descs_mem_region(): `n` is the index of `desc`; given back are the descriptors that
-- were written. Each round but the last takes `max_length` bytes off the size, so that
-- `size / max_length + 1` rounds are enough.
unfoldable pub adma2_set_descs_mem_region :
    Conf → ℕ → ℕ → ℕ → ℕ → Bool → List Desc × Outcome (Unit {0})
adma2_set_descs_mem_region cf zero n phys size terminate = ([], done tt)
adma2_set_descs_mem_region cf (suc fuel) n phys size terminate =
    let len = min size max_length in
    let rest =
      adma2_set_descs_mem_region cf fuel (n + 1) ((phys + len) % 2 ^ 64) (size - len) terminate in
    if size == 0
    then ([], done tt)
    else if leb cf.capacity n
    then ([], throws einval)
    else if leb (max_addr cf) phys
    then ([], throws einval)
    else (
      record {
        valid = true;
        act_tran = true;
        length_field = len;
        end_flag = (size - len == 0) && terminate;
        addr = addr_field cf (phys + cf.dma_offset);
      }
          ∷ rest.0,
      rest.1,
    )

abbrev pub rounds : ℕ → ℕ
rounds size = size / max_length + 1

-- A copy between client memory and the bounce buffer, at an offset.
pub record Copy : Type 0 where
  pub virt : ℕ
  pub offset : ℕ
  pub size : ℕ

abbrev pub block_size : Block → ℕ
block_size b = (b.num_sectors * 2 ^ 9) % 2 ^ 32

-- What adma2_set_descs() leaves: the descriptors, the copies into the bounce buffer that precede
-- a write, and `bb_offs` at the end of its loop.
pub record Table : Type 0 where
  pub descs : List Desc
  pub copies : List Copy
  pub bb_offs : ℕ

abbrev pub is_nil : List Block → Bool
is_nil [] = true
is_nil (b ∷ bs) = false

abbrev pub before : List Desc → List Copy → Table × Outcome (Unit {0}) → Table × Outcome (Unit {0})
before ds cs (t, r) = (record t { descs = ds ++ t.descs; copies = cs ++ t.copies }, r)

-- One round is done; the loop goes on unless it threw.
abbrev pub and_then :
    List Desc × Outcome (Unit {0})
    → List Copy
    → ℕ
    → Table × Outcome (Unit {0})
    → Table × Outcome (Unit {0})
and_then (ds, done u) cs bb_offs rest = before ds cs rest
and_then (ds, throws e) cs bb_offs rest =
    (record { descs = ds; copies = cs; bb_offs = bb_offs }, throws e)

-- The loop of adma2_set_descs() at the descriptor `n`.
unfoldable pub adma2_set_descs : Conf → Bool → ℕ → ℕ → List Block → Table × Outcome (Unit {0})
adma2_set_descs cf inout_read n bb_offs [] =
    (record { descs = []; copies = []; bb_offs = bb_offs }, done tt)
adma2_set_descs cf inout_read n bb_offs (b ∷ bs) =
    let size = block_size b in
    let bb_next = (bb_offs + size) % 2 ^ 32 in
    let own = adma2_set_descs_mem_region cf (rounds size) n b.dma_addr size (is_nil bs) in
    let bounced =
      adma2_set_descs_mem_region cf (rounds size) n ((cf.bb_phys + bb_offs) % 2 ^ 64) size
        (is_nil bs) in
    let rest_own = adma2_set_descs cf inout_read (n + length own.0) bb_offs bs in
    let rest_bounced = adma2_set_descs cf inout_read (n + length bounced.0) bb_next bs in
    let copy : Copy = record { virt = b.virt_addr; offset = bb_offs; size = size } in
    if provided_bounce_buffer cf && not (dma_accessible cf b.dma_addr size)
    then if ltb cf.bb_size bb_next
      then (record { descs = []; copies = []; bb_offs = bb_offs }, throws einval)
      else and_then bounced (if inout_read then [] else copy ∷ []) bb_next rest_bounced
    else and_then own [] bb_offs rest_own

-- The loop of cmd_fetch_response() over the blocks of a read that used the bounce buffer.
unfoldable pub fetch_copies : Conf → ℕ → List Block → List Copy
fetch_copies cf offset [] = []
fetch_copies cf offset (b ∷ bs) =
    let size = block_size b in
    let skipped = fetch_copies cf offset bs in
    let copied = fetch_copies cf ((offset + size) % 2 ^ 32) bs in
    if dma_accessible cf b.dma_addr size
    then skipped
    else record { virt = b.virt_addr; offset = offset; size = size } ∷ copied

-- What cmd_fetch_response() copies.
unfoldable pub fetch_bounced : Conf → Cmd → List Copy
fetch_bounced cf c =
    if c.flags.read_from_bounce_buffer
      && (c.cmd == cmd17_read_single_block || c.cmd == cmd18_read_multiple_block)
    then fetch_copies cf 0 c.blocks
    else []

-- adma2_desc_mem_size(), with the size of a descriptor; L4::round_page() rounds up to 4 KiB.
unfoldable pub adma2_desc_mem_size : Bool → ℕ → ℕ → ℕ
adma2_desc_mem_size adma2_64 max_inout_req_size max_seg =
    (max_seg * (max_inout_req_size / max_length) * (if adma2_64 then 16 else 8) + 4095)
    / 4096
    * 4096

-- Device::max_size()
unfoldable pub max_size : ℕ → ℕ → ℕ
max_size sz max_seg = (sz / max_seg) / 512 * 512
