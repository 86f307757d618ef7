-- ===== src/Factory/Resources.antt =====
-- The resources that nopci_dev() and pci_dev() of server/src/factory.cc find.
use emmc_driver.Base.{
  ℕ, ◌+◌, ◌-◌, ◌%◌, ◌^◌, ◌≤◌, ◌<◌, ◌≡◌, refl, true, ◌||◌, List, [], ◌∷◌, Option, none, some,
  Outcome, done, throws, arith, ◌==◌, if◌then◌else◌, Bool-cases, ◌⊎◌, inl, inr,
}
use emmc_driver.Mmc.{test_bit}
use emmc_driver.Factory.{
  Resource, res_mem, res_irq, res_dma_domain, res_other, Found, nothing_found, take_resource,
  IrqMode, irq_flags, find_resources, nopci_dev, PciDev, CfgWrite, pci_dev,
}

-- The specification: the first memory that does not start at zero, with its size, and the first
-- interrupt whose number is not zero in 32 bits, with its flags.
abbrev pub first_memory : List Resource → Option (ℕ × ℕ)
first_memory [] = none
first_memory (res_mem start end ∷ rs) =
    let rest = first_memory rs in
    if start == 0 then rest else some (start, (end + 2 ^ 64 - start + 1) % 2 ^ 64)
first_memory (res_irq start flags ∷ rs) = first_memory rs
first_memory (res_dma_domain id ∷ rs) = first_memory rs
first_memory (res_other ∷ rs) = first_memory rs

abbrev pub first_irq : List Resource → Option (ℕ × IrqMode)
first_irq [] = none
first_irq (res_irq start flags ∷ rs) =
    let rest = first_irq rs in
    if start % 2 ^ 32 == 0 then rest else some (start % 2 ^ 32, irq_flags flags)
first_irq (res_mem start end ∷ rs) = first_irq rs
first_irq (res_dma_domain id ∷ rs) = first_irq rs
first_irq (res_other ∷ rs) = first_irq rs

abbrev pub found_of : Option (ℕ × ℕ) → Option (ℕ × IrqMode) → Option Found
found_of none i = none
found_of (some m) none = none
found_of (some (a, n)) (some (i, f)) =
    some (record { mmio_addr = a; mmio_size = n; irq_num = i; irq_mode = f })

-- what was found before, or else what the rest has
abbrev memory_or : Found → Option (ℕ × ℕ) → Option (ℕ × ℕ)
memory_or f o = if f.mmio_addr == 0 then o else some (f.mmio_addr, f.mmio_size)

abbrev irq_or : Found → Option (ℕ × IrqMode) → Option (ℕ × IrqMode)
irq_or f o = if f.irq_num == 0 then o else some (f.irq_num, f.irq_mode)

abbrev accept : Found → Option Found
accept f = if f.mmio_addr == 0 then none else if f.irq_num == 0 then none else some f

find_resources-eq :
    (rs : List Resource) (f : Found)
    → accept (find_resources rs f)
      ≡ found_of (memory_or f (first_memory rs)) (irq_or f (first_irq rs))
unfolding find_resources
find_resources-eq [] f = ground arith
find_resources-eq (res_mem start end ∷ rs) f =
    ground (arith, find_resources-eq rs (take_resource (res_mem start end) f))
find_resources-eq (res_irq start flags ∷ rs) f =
    ground (arith, find_resources-eq rs (take_resource (res_irq start flags) f))
find_resources-eq (res_dma_domain id ∷ rs) f = ground (arith, find_resources-eq rs f)
find_resources-eq (res_other ∷ rs) f = ground (arith, find_resources-eq rs f)

-- `nopci_dev()` takes a device exactly where it has both a memory that does not start at zero and an
-- interrupt whose number is not zero in 32 bits, and it finds the first of each, with its own size
-- and flags.
pub nopci_dev_lem : (rs : List Resource) → nopci_dev rs ≡ found_of (first_memory rs) (first_irq rs)
unfolding nopci_dev
nopci_dev_lem rs = find_resources-eq rs nothing_found

-- The latest write to an offset.
abbrev pub last_write : ℕ → List CfgWrite → Option ℕ
last_write offs [] = none
last_write offs ((o, v) ∷ ws) = let rest = last_write offs ws in if o == offs then some v else rest

-- The memory starts where the BAR says, and its size and the mask that was read make 2 ^ 32.
abbrev pub Mapped : PciDev → Outcome Found → Type 0
Mapped d (done f) =
    (f.mmio_addr ≡ d.bar0 - d.bar0 % 16) × (f.mmio_size + (d.bar0_size - d.bar0_size % 16) ≡ 2 ^ 32)
Mapped d (throws e) =
    (test_bit d.bar0_size 0 ≡ true)
    ⊎ ((test_bit d.bar0_size 1 ≡ true) ⊎ (test_bit d.bar0_size 2 ≡ true))

mapped_lem :
    (d : PciDev) (log : List CfgWrite)
    → 16 ≤ d.bar0_size
    → d.bar0_size < 2 ^ 32
    → Mapped d (pci_dev d log).1
unfolding pci_dev
mapped_lem d log a b = elim (Bool-cases (test_bit d.bar0_size 0)) [
  | inl io ↦ rw io (inl io)
  | inr mem ↦ elim (Bool-cases (test_bit d.bar0_size 1)) [
    | inl below ↦ rw (mem, below) (inr (inl below))
    | inr wide ↦ elim (Bool-cases (test_bit d.bar0_size 2)) [
      | inl long ↦ rw (mem, wide, long) (inr (inr long))
      | inr short ↦ rw (mem, wide, short) (omega arith, omega arith)
    ]
  ]
]

restored_lem : (d : PciDev) (log : List CfgWrite) → last_write 0x10 (pci_dev d log).0 ≡ some d.bar0
unfolding pci_dev
restored_lem d log = elim (Bool-cases (test_bit d.bar0_size 0)) [
  | inl io ↦ rw io refl
  | inr mem ↦ elim (Bool-cases (test_bit d.bar0_size 1 || test_bit d.bar0_size 2)) [
    | inl other ↦ rw (mem, other) refl
    | inr short ↦ elim (Bool-cases (test_bit d.command 2)) [
      | inl on ↦ rw (mem, short, on) refl
      | inr off ↦ rw (mem, short, off) refl
    ]
  ]
]

-- For a device whose BAR 0 has an address, `pci_dev()` leaves the BAR as it was, also where it throws;
-- it throws only for a BAR that is not a 32-bit memory, and otherwise finds the memory at the
-- address of the BAR, with the size that the BAR decodes.
pub pci_dev_lem :
    (d : PciDev) (log : List CfgWrite)
    → 16 ≤ d.bar0_size
    → d.bar0_size < 2 ^ 32
    → (last_write 0x10 (pci_dev d log).0 ≡ some d.bar0) × Mapped d (pci_dev d log).1
pci_dev_lem d log a b = (restored_lem d log, mapped_lem d log a b)
