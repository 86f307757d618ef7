-- ===== src/MmcCard/Zero.antt =====
-- The address of an eMMC device in start_device_scan() of server/src/device-impl.h, which looks for
-- an SD card first.
use emmc_driver.Base.{
  ℕ, zero, suc, ◌≡◌, refl, Bool, true, false, List, Option, none, some, inl, inr, Method,
}
use emmc_driver.Cmd.{Status, success, cmd_timeout}
use emmc_driver.PowerUp.{DeviceType, Mode, RoundResult, fastest_mode, disable}
use emmc_driver.Session.{Env, Session, Action}
use emmc_driver.Session.Keep.{Keeps, bind-Keeps, pure-Keeps, get-Keeps, fail-Keeps}
use emmc_driver.Session.Post.{Post, Leaves, keep-Leaves, bind-Leaves, pure-Leaves}
use emmc_driver.Session.Address.{NoAddress, no_address, address_rules}
use emmc_driver.SdCard.{Host}
use emmc_driver.SdCard.Select.{on_finished, after_tuning_block, PowerUp, no_sd_card, selected}
use emmc_driver.SdCard.Refuse.{GaveUp, power_up_sd-Leaves}
use emmc_driver.MmcCard.Select.{
  mmc_tuning_loop, set_mode, set_hs400, hs400_part, try_mmc_mode, on_round, on_mode,
  search_mmc_mode, PowerUpMmc, no_mmc, mmc_device, power_up_device, power_up_mmc, Found, sd_card,
  mmc, on_mmc, on_sd, find_card,
}
use emmc_driver.MmcCard.Address.{
  init-Keeps, identify_mmc-Keeps, read_ext_csd-Keeps, set_features-Keeps, width-Keeps, timing-Keeps,
}

finished-Keeps :
    (o : Option Bool) {rest : Method Session Bool}
    → Keeps NoAddress rest
    → Keeps NoAddress (on_finished o rest)
finished-Keeps none k = k
finished-Keeps (some ok) k = pure-Keeps ok

after_tuning_block-Keeps :
    (env : Env) (st : Status) {rest : Method Session Bool}
    → Keeps NoAddress rest
    → Keeps NoAddress (after_tuning_block env st rest)
after_tuning_block-Keeps env success k = bind-Keeps (get-Keeps _) (λ o. finished-Keeps o k)
after_tuning_block-Keeps env cmd_timeout k = pure-Keeps false
after_tuning_block-Keeps env st k = k

tuning-Keeps : (n : ℕ) (env : Env) → Keeps NoAddress (mmc_tuning_loop n env)
unfolding mmc_tuning_loop
tuning-Keeps zero env = pure-Keeps false
tuning-Keeps (suc n) env =
    bind-Keeps (init-Keeps env _)
      (λ u. bind-Keeps (get-Keeps _) (λ st. after_tuning_block-Keeps env st (tuning-Keeps n env)))

set_mode-Keeps : (env : Env) (m : Mode) → Keeps NoAddress (set_mode env m)
unfolding set_mode
set_mode-Keeps env m = search (address_rules, timing-Keeps, tuning-Keeps) depth 14

set_hs400-Keeps : (env : Env) (b : Bool) → Keeps NoAddress (set_hs400 env b)
unfolding set_hs400
set_hs400-Keeps env b = search (address_rules, timing-Keeps, width-Keeps) depth 18

hs400_part-Keeps :
    (env : Env) (b : Bool) (r t : DeviceType) → Keeps NoAddress (hs400_part env b r t)
unfolding hs400_part
hs400_part-Keeps env b r t = search (address_rules, set_hs400-Keeps) depth 10

try_mmc_mode-Keeps :
    (env : Env) (b : Bool) (r : DeviceType) (m : Mode) → Keeps NoAddress (try_mmc_mode env b r m)
unfolding try_mmc_mode
try_mmc_mode-Keeps env b r m =
    search (address_rules, width-Keeps, set_mode-Keeps, hs400_part-Keeps) depth 18

on_mode-Keeps :
    (o : Option Mode) {f : Mode → Method Session (Option DeviceType)}
    → ((m : Mode) → Keeps NoAddress (f m))
    → Keeps NoAddress (on_mode o f)
on_mode-Keeps none k = fail-Keeps _
on_mode-Keeps (some m) k = k m

on_round-Keeps :
    (res : RoundResult) {rest : Method Session (Option DeviceType)}
    → Keeps NoAddress rest
    → Keeps NoAddress (on_round res rest)
on_round-Keeps (true, t) k = pure-Keeps (some t)
on_round-Keeps (false, t) k = k

search_mmc_mode-Keeps :
    (n : ℕ) (env : Env) (b : Bool) (r : DeviceType) → Keeps NoAddress (search_mmc_mode n env b r)
unfolding search_mmc_mode
search_mmc_mode-Keeps zero env b r = pure-Keeps none
search_mmc_mode-Keeps (suc n) env b r = on_mode-Keeps (fastest_mode r) (λ m.
    bind-Keeps (try_mmc_mode-Keeps env b r m)
      (λ res. on_round-Keeps res (search_mmc_mode-Keeps n env b (disable r res.1))))

device-Keeps :
    (env : Env) (host : Host) (off : DeviceType) (ocr : ℕ)
    → Keeps NoAddress (power_up_device env host off ocr)
unfolding power_up_device
device-Keeps env host off ocr =
    search
      (
        address_rules, identify_mmc-Keeps, read_ext_csd-Keeps, set_features-Keeps,
        search_mmc_mode-Keeps,
      )
      depth 16

power_up_mmc-Keeps :
    (env : Env) (host : Host) (off : DeviceType) → Keeps NoAddress (power_up_mmc env host off)
unfolding power_up_mmc
power_up_mmc-Keeps env host off = search (address_rules, init-Keeps, device-Keeps) depth 14

-- An eMMC device that is found behind the actions `l`: no command gave it an address but 0.
abbrev pub WithoutAddress : List Action → Found → Session → Type 0
WithoutAddress l (sd_card t) s = Unit {0}
WithoutAddress l (mmc r) s = no_address l ≡ true → (s.rca ≡ 0) × (no_address s.log ≡ true)

-- the session that an SD power-up without a card leaves
refused :
    (l : List Action) (s : Session) → GaveUp l no_sd_card s → no_address l ≡ true → NoAddress s
refused l s (a, inl e) h = (a, rw (e) h)
refused l s (a, inr e) h = (a, rw (e) h)

on_mmc-Leaves :
    (l : List Action) (r : PowerUpMmc)
    → Leaves (λ s. no_address l ≡ true → NoAddress s) (WithoutAddress l) (on_mmc r)
on_mmc-Leaves l no_mmc = record { leave = λ s p. tt }
on_mmc-Leaves l (mmc_device t info b) = pure-Leaves (mmc (mmc_device t info b)) (λ s p. p)

kept-if :
    {A : Type 0} {P : Session → Type 0} {m : Method Session A} (H : Type 0)
    → Keeps P m
    → Keeps (λ s. H → P s) m
kept-if H k = record { keep = λ s p h. k.keep s (p h) }

on_sd-Leaves :
    (env : Env) (host : Host) (off : DeviceType) (l : List Action) (r : PowerUp)
    → Leaves (GaveUp l r) (WithoutAddress l) (on_sd env host off r)
on_sd-Leaves env host off l (selected t) = pure-Leaves (sd_card t) (λ s p. tt)
on_sd-Leaves env host off l no_sd_card = record {
  leave = λ s p.
      (bind-Leaves (keep-Leaves (kept-if (no_address l ≡ true) (power_up_mmc-Keeps env host off)))
          (on_mmc-Leaves l)).leave
        s (refused l s p);
}

-- An eMMC device is found only behind the search for an SD card, which resets the address: each
-- command that gives it an address or that names the device by its address, CMD3, CMD7, CMD9 and
-- CMD13, carries the address 0, if this holds of those sent before.
pub find_card-WithoutAddress :
    (env : Env) (host : Host) (off : DeviceType) (s : Session)
    → Post (WithoutAddress s.log) (find_card env host off s)
unfolding find_card
find_card-WithoutAddress env host off s =
    (bind-Leaves (power_up_sd-Leaves env host s.log) (on_sd-Leaves env host off s.log)).leave s refl
