-- ===== src/Factory/Taking.antt =====
-- create_dev() of server/src/factory.cc: what holds of each device that the driver takes.
use Prim.Native.String.{String}
use emmc_driver.Base.{
  ℕ, ◌≡◌, ◌≢◌, ◌⊎◌, true, List, [], ◌∷◌, ◌++◌, Option, none, some, Outcome, done, throws, ◌==◌,
}
use emmc_driver.Reg.Laminar.{Member}
use emmc_driver.Factory.{
  Resource, res_dma_domain, Found, Platform, BusDev, Taken, nopci_dev, pci_dev,
}

-- The factory was registered for the device, which has what the factory is given.
abbrev pub Registered : Platform → BusDev → ℕ → Found → Type 0
Registered p d n f =
    ((c : ℕ) × (d.class_code ≡ some c)
      × ((k : ℕ) × Member (k, n) p.pci_types × ((c == k) ≡ true))
      × ((pci_dev d.pci []).1 ≡ done f))
    ⊎ (((k : String) × Member (k, n) p.nopci_types × (d.is_compatible k ≡ true))
        × (nopci_dev d.resources ≡ some f))

abbrev pub IsOther : Resource → Type 0
IsOther (res_dma_domain id) = ⊥
IsOther _ = Unit

abbrev pub NoDomain : List Resource → Type 0
NoDomain [] = Unit
NoDomain (r ∷ rs) = IsOther r × NoDomain rs

-- The domain that the resources name first, where they name any.
abbrev pub FirstDomain : List Resource → Option ℕ → Type 0
FirstDomain rs none = NoDomain rs
FirstDomain rs (some id) =
    (before : List Resource) × (after : List Resource) × (rs ≡ before ++ res_dma_domain id ∷ after)
    × NoDomain before

abbrev pub Created : Platform → BusDev → Outcome (Option Taken) → Type 0
Created p d (throws e) = Unit
Created p d (done none) = Unit
Created p d (done (some t)) =
    (p.create t.factory t.found t.domain t.host_clock ≡ done tt)
    × (t.host_clock ≢ 0)
    × FirstDomain d.resources t.domain
    × Registered p d t.factory t.found
