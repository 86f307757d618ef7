-- ===== src/Factory.antt =====
-- server/src/factory.cc and server/src/factory.h: which of the devices of the bus the driver takes, and
-- with which resources. The factories of the single platforms are given by their answers.
pub mod Resources
pub mod Taking
mod Tests
use Prim.Native.String.{String}
use emmc_driver.Base.{
  ℕ, zero, suc, ◌+◌, ◌-◌, ◌*◌, ◌/◌, ◌%◌, ◌^◌, Bool, true, false, not, ◌&&◌, ◌||◌, List, [], ◌∷◌,
  ◌++◌, Option, none, some, Errno, einval, enxio, Outcome, done, throws, Method, ◌>>=◌, ◌==◌, ltb,
  if◌then◌else◌,
}
use emmc_driver.Mmc.{test_bit}

-- l4vbus_resource_t by its type
pub data Resource : Type 0 where
  res_mem : ℕ → ℕ → Resource
  res_irq : ℕ → ℕ → Resource
  res_dma_domain : ℕ → Resource
  res_other : Resource

-- L4_irq_mode: two named values, or the flags of a resource
pub data IrqMode : Type 0 where
  irq_level_high irq_edge : IrqMode
  irq_flags : ℕ → IrqMode

-- What nopci_dev() and pci_dev() find.
pub record Found : Type 0 where
  pub mmio_addr : ℕ
  pub mmio_size : ℕ
  pub irq_num : ℕ
  pub irq_mode : IrqMode

abbrev pub nothing_found : Found
nothing_found = record { mmio_addr = 0; mmio_size = 0; irq_num = 0; irq_mode = irq_level_high }

-- A round of the loop of nopci_dev(). The start of an interrupt is cut to an int, here of 32 bits
-- without its sign.
abbrev pub take_resource : Resource → Found → Found
take_resource (res_mem start end) f =
    if f.mmio_addr == 0
    then record f { mmio_addr = start; mmio_size = (end + 2 ^ 64 - start + 1) % 2 ^ 64 }
    else f
take_resource (res_irq start flags) f =
    if f.irq_num == 0 then record f { irq_num = start % 2 ^ 32; irq_mode = irq_flags flags } else f
take_resource (res_dma_domain id) f = f
take_resource res_other f = f

unfoldable pub find_resources : List Resource → Found → Found
find_resources [] f = f
find_resources (r ∷ rs) f =
    let rest = find_resources rs (take_resource r f) in
    if f.mmio_addr == 0 || f.irq_num == 0 then rest else f

-- `none` is `false`.
unfoldable pub nopci_dev : List Resource → Option Found
unfolding find_resources
nopci_dev rs = if f.mmio_addr == 0 then none else if f.irq_num == 0 then none else some f
  where
    f : Found
    f = find_resources rs nothing_found

-- A write to the configuration space of a PCI device: offset and value.
abbrev pub CfgWrite : Type 0
CfgWrite = ℕ × ℕ

-- What is read of a PCI device: its BAR 0, what that holds after all ones were written, the command
-- register, and the number of the interrupt with whether it is triggered by edges.
pub record PciDev : Type 0 where
  pub bar0 : ℕ
  pub bar0_size : ℕ
  pub command : ℕ
  pub irq : ℕ
  pub edge : Bool

abbrev pub enable_bus_master : ℕ → List CfgWrite → List CfgWrite
enable_bus_master cmd log = if test_bit cmd 2 then log else (0x04, cmd + 4) ∷ log

-- pci_dev() with its writes, the latest first; the size is negated in 32 bits.
unfoldable pub pci_dev : PciDev → Method (List CfgWrite) Found
pci_dev d log =
    if test_bit d.bar0_size 0
    then (restored, throws einval)
    else if test_bit d.bar0_size 1 || test_bit d.bar0_size 2
    then (restored, throws einval)
    else (
      enable_bus_master d.command restored,
      done (record {
        mmio_addr = (d.bar0 / 16) * 16;
        mmio_size = (2 ^ 32 - (d.bar0_size / 16) * 16) % 2 ^ 32;
        irq_num = d.irq;
        irq_mode = if d.edge then irq_edge else irq_level_high;
      }),
    )
  where
    restored : List CfgWrite
    restored = (0x10, d.bar0) ∷ (0x10, 2 ^ 32 - 1) ∷ log

-- The loop for the DMA domain in create_dev(); `none` is the global one.
unfoldable pub dma_domain : List Resource → Option ℕ
dma_domain [] = none
dma_domain (res_dma_domain id ∷ rs) = some id
dma_domain (res_mem start end ∷ rs) = dma_domain rs
dma_domain (res_irq start flags ∷ rs) = dma_domain rs
dma_domain (res_other ∷ rs) = dma_domain rs

-- Device_type_pci::find() and Device_type_nopci::find(): the first entry whose key fits.
module _ {K : Type 0} where
  unfoldable pub find_type : (K → Bool) → List (K × ℕ) → Option ℕ
  find_type fits [] = none
  find_type fits ((k, f) ∷ ts) = let rest = find_type fits ts in if fits k then some f else rest

-- guess_clock() of server/src/drv_sdhci-usdhc.cc and server/src/drv_sdhci-bcm2711.cc
unfoldable pub guess_clock_usdhc : ℕ → Outcome ℕ
guess_clock_usdhc a =
    if a == 0x30b40000
    then done 400000000
    else if a == 0x30b50000
    then done 200000000
    else if a == 0x30b60000
    then done 200000000
    else if a == 0x5b010000
    then done 396000000
    else if a == 0x5b020000
    then done 198000000
    else if a == 0x5b030000
    then done 198000000
    else if a == 0x402f0000
    then done 400000000
    else throws einval

unfoldable pub guess_clock_bcm2711 : ℕ → Outcome ℕ
guess_clock_bcm2711 a = if a == 0xfe340000 then done 100000000 else done 0

-- `host_clock` in create_dev()
abbrev pub host_clock_of : ℕ → ℕ
host_clock_of guessed = if guessed == 0 then 400000 else guessed

-- A device of the bus, as create_dev() asks for it: `class_code` is `none` where the configuration
-- space cannot be read.
pub record BusDev : Type 0 where
  pub is_pcidev : Bool
  pub class_code : Option ℕ
  pub pci : PciDev
  pub resources : List Resource
  pub is_compatible : String → Bool

-- The registered factories, by number, and what they answer; `create` is the call of
-- Factory::create() with the DMA space before it.
pub record Platform : Type 0 where
  pub pci_types : List (ℕ × ℕ)
  pub nopci_types : List (String × ℕ)
  pub guess_clock : ℕ → ℕ → Outcome ℕ
  pub create : ℕ → Found → Option ℕ → ℕ → Outcome (Unit {0})

-- What a device was created with.
pub record Taken : Type 0 where
  pub factory : ℕ
  pub found : Found
  pub domain : Option ℕ
  pub host_clock : ℕ

-- The `try` of create_dev(), which skips a device that cannot be created.
abbrev pub try_create : Taken → Outcome (Unit {0}) → Option Taken
try_create d (done u) = some d
try_create d (throws e) = none

-- The end of create_dev(), where guess_clock() is called before the `try`.
abbrev pub with_clock : Platform → ℕ → Found → Option ℕ → Outcome ℕ → Outcome (Option Taken)
with_clock p n f domain (throws e) = throws e
with_clock p n f domain (done clock) = done (
    try_create
      (record { factory = n; found = f; domain = domain; host_clock = host_clock_of clock })
      (p.create n f domain (host_clock_of clock)))

abbrev pub create_found : Platform → ℕ → BusDev → Found → Outcome (Option Taken)
create_found p n d f = with_clock p n f (dma_domain d.resources) (p.guess_clock n f.mmio_addr)

abbrev pub with_pci : Platform → ℕ → BusDev → Outcome Found → Outcome (Option Taken)
with_pci p n d (done f) = create_found p n d f
with_pci p n d (throws e) = throws e

abbrev pub create_pci : Platform → BusDev → Option ℕ → Outcome (Option Taken)
create_pci p d none = done none
create_pci p d (some n) = with_pci p n d (pci_dev d.pci []).1

abbrev pub with_resources : Platform → ℕ → BusDev → Option Found → Outcome (Option Taken)
with_resources p n d none = done none
with_resources p n d (some f) = create_found p n d f

abbrev pub create_nopci : Platform → BusDev → Option ℕ → Outcome (Option Taken)
create_nopci p d none = done none
create_nopci p d (some n) = with_resources p n d (nopci_dev d.resources)

abbrev pub create_class : Platform → BusDev → Option ℕ → Outcome (Option Taken)
create_class p d none = done none
create_class p d (some c) = create_pci p d (find_type (λ k. c == k) p.pci_types)

-- `none` is `nullptr`
unfoldable pub create_dev : Platform → BusDev → Outcome (Option Taken)
create_dev p d =
    if d.is_pcidev
    then create_class p d d.class_code
    else create_nopci p d (find_type d.is_compatible p.nopci_types)
