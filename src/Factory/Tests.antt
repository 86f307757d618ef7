-- ===== src/Factory/Tests.antt =====
-- The theorems on the resources of devices at a uSDHC controller and at a PCI device.
use emmc_driver.Base.{◌≡◌, refl, true, false, [], ◌∷◌, none, some, done}
use emmc_driver.Factory.{
  irq_level_high, res_mem, res_irq, res_dma_domain, res_other, irq_flags, PciDev, BusDev, Platform,
  find_resources, nopci_dev, pci_dev, find_type, dma_domain, guess_clock_usdhc, create_dev,
}
use emmc_driver.Factory.Resources.{first_memory, first_irq, found_of, nopci_dev_lem}

abbrev sd_host : PciDev
sd_host = record { bar0 = 0xfebf1000; bar0_size = 0xffffff00; command = 3; irq = 11; edge = false }

sd_host_run :
    (pci_dev sd_host []).1
    ≡ done (record {
      mmio_addr = 0xfebf1000;
      mmio_size = 0x100;
      irq_num = 11;
      irq_mode = irq_level_high;
    })
unfolding pci_dev
sd_host_run = refl

abbrev usdhc_dev : BusDev
usdhc_dev = record {
  is_pcidev = false;
  class_code = none;
  pci = sd_host;
  resources = res_other ∷ res_mem 0x30b50000 0x30b5ffff ∷ res_irq 55 3 ∷ res_dma_domain 7 ∷ [];
  is_compatible = λ s. true;
}

abbrev platform : Platform
platform = record {
  pci_types = [];
  nopci_types = ("fsl,imx8mq-usdhc", 4) ∷ [];
  guess_clock = λ n a. guess_clock_usdhc a;
  create = λ n f i clock. done tt;
}

usdhc_run :
    create_dev platform usdhc_dev
    ≡ done (
        some (record {
          factory = 4;
          found = record {
            mmio_addr = 0x30b50000;
            mmio_size = 0x10000;
            irq_num = 55;
            irq_mode = irq_flags 3;
          };
          domain = some 7;
          host_clock = 200000000;
        }))
unfolding create_dev nopci_dev find_resources find_type dma_domain guess_clock_usdhc
usdhc_run = refl

nopci_dev_lem_example :
    nopci_dev usdhc_dev.resources
    ≡ found_of (first_memory usdhc_dev.resources) (first_irq usdhc_dev.resources)
nopci_dev_lem_example = nopci_dev_lem usdhc_dev.resources
