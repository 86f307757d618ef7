-- ===== src/Sdhci/Init.antt =====
-- init(), set_bus_width() and mask_interrupts() of server/src/drv_sdhci-impl.h, as sequences of
-- register writes. On a slow controller each write waits before, which changes no register.
mod Tests
use Prim.Native.String.{String}
use emmc_driver.Base.{
  ℕ, ◌+◌, Bool, true, false, ◌||◌, List, [], ◌∷◌, ◌++◌, leb, ltb, ◌&&◌, if◌then◌else◌,
}
use emmc_driver.Mmc.{BusWidth, width_1bit, width_4bit, width_8bit}
use emmc_driver.Reg.{Word, word, Layout}
use emmc_driver.Reg.Ops.{Hw, Op, write_reg, await, zeros, set_named}
use emmc_driver.Sdhci.{SdhciType, plain, usdhc, iproc, bcm2711}
use emmc_driver.Sdhci.Fields.{reg_prot_ctrl}
use emmc_driver.Sdhci.Fields.Control.{reg_host_ctrl, reg_sys_ctrl}
use emmc_driver.Sdhci.Fields.Vendor.{reg_vend_spec, reg_vend_spec2, reg_tuning_ctrl}

-- The registers, and their offsets.
pub data Regs : Type 0 where
  ds_addr blk_att blk_size cmd_arg cmd_xfr_typ cmd_rsp0 cmd_rsp1 cmd_rsp2 cmd_rsp3
        data_buff_acc_port pres_state prot_ctrl host_ctrl sys_ctrl int_status int_status_en
        int_signal_en autocmd12_err_status host_ctrl2 host_ctrl_cap cap1_sdhci wtmk_lvl cap2_sdhci
        mix_ctrl max_current max_current2 force_event adma_err_status adma_sys_addr_lo
        adma_sys_addr_hi dll_ctrl dll_status clk_tune_ctrl_status strobe_dll_ctrl strobe_dll_status
        vend_spec mmc_boot vend_spec2 tuning_ctrl host_version cqe :
      Regs

abbrev pub offset : Regs → ℕ
offset ds_addr = 0x00
offset blk_att = 0x04
offset blk_size = 0x04
offset cmd_arg = 0x08
offset cmd_xfr_typ = 0x0c
offset cmd_rsp0 = 0x10
offset cmd_rsp1 = 0x14
offset cmd_rsp2 = 0x18
offset cmd_rsp3 = 0x1c
offset data_buff_acc_port = 0x20
offset pres_state = 0x24
offset prot_ctrl = 0x28
offset host_ctrl = 0x28
offset sys_ctrl = 0x2c
offset int_status = 0x30
offset int_status_en = 0x34
offset int_signal_en = 0x38
offset autocmd12_err_status = 0x3c
offset host_ctrl2 = 0x3c
offset host_ctrl_cap = 0x40
offset cap1_sdhci = 0x40
offset wtmk_lvl = 0x44
offset cap2_sdhci = 0x44
offset mix_ctrl = 0x48
offset max_current = 0x48
offset max_current2 = 0x4c
offset force_event = 0x50
offset adma_err_status = 0x54
offset adma_sys_addr_lo = 0x58
offset adma_sys_addr_hi = 0x5c
offset dll_ctrl = 0x60
offset dll_status = 0x64
offset clk_tune_ctrl_status = 0x68
offset strobe_dll_ctrl = 0x70
offset strobe_dll_status = 0x74
offset vend_spec = 0xc0
offset mmc_boot = 0xc4
offset vend_spec2 = 0xc8
offset tuning_ctrl = 0xcc
offset host_version = 0xfc
offset cqe = 0x100

abbrev pub write : Regs → (Hw → Word) → List Op
write r w = write_reg (offset r) w ∷ []

abbrev pub held : Regs → Hw → Word
held r h = h.regs (offset r)

abbrev pub sys_ctrl_with : String → ℕ → Word → Word
sys_ctrl_with n v w = set_named reg_sys_ctrl n (word v) w

-- The resets at the start of init(), where `sc` is what is read of Sys_ctrl behind its first write.
abbrev reset_value : SdhciType → Word → Word
reset_value usdhc sc = λ i. if ltb i 4 then true else sys_ctrl_with "rsta" 1 sc i
reset_value _ sc = sys_ctrl_with "rsta" 1 sc

abbrev reset_all : SdhciType → Word → List Op
reset_all t sc =
    write sys_ctrl (λ h. sys_ctrl_with "dtocv" 15 (held sys_ctrl h))
    ++ (write vend_spec2
          (λ h. set_named reg_vend_spec2 "acmd23_argu2_en" (word 1) (held vend_spec2 h))
        ++ (write sys_ctrl (λ h. reset_value t sc) ++ await ∷ []))

abbrev tuning_with : String → ℕ → Word → Word
tuning_with n v w = set_named reg_tuning_ctrl n (word v) w

-- `vs` with its reserved bits 28 and 29
abbrev vendor_spec : Word
vendor_spec i =
    if leb 28 i && leb i 29
    then true
    else set_named reg_vend_spec "cken" (word 1)
        (set_named reg_vend_spec "ipgen" (word 1) (
          set_named reg_vend_spec "hcken" (word 1) (
            set_named reg_vend_spec "peren" (word 1)
              (set_named reg_vend_spec "ext_dma_en" (word 1) zeros))))
        i

-- The branch for uSDHC, with its standard tuning and with ADMA2.
abbrev init_usdhc : List Op
init_usdhc =
    write mmc_boot (λ h. zeros)
    ++ (write mix_ctrl (λ h. zeros)
        ++ (write autocmd12_err_status (λ h. zeros)
            ++ (write clk_tune_ctrl_status (λ h. zeros)
                ++ (write dll_ctrl (λ h. zeros)
                    ++ (write tuning_ctrl (λ h.
                          tuning_with "disable_crc_on_tuning" 1
                            (tuning_with "tuning_start_tap" 0x14 (held tuning_ctrl h)))
                        ++ (write vend_spec (λ h. vendor_spec)
                            ++ (write vend_spec2 (λ h.
                                  set_named reg_vend_spec2 "en_busy_irq" (word 1)
                                    (held vend_spec2 h))
                                ++ (write prot_ctrl (λ h.
                                      set_named reg_prot_ctrl "dmasel" (word 2) (held prot_ctrl h))
                                    ++ write tuning_ctrl (λ h.
                                      tuning_with "disable_crc_on_tuning" 1 (
                                        tuning_with "tuning_step" 2 (
                                          tuning_with "tuning_start_tap" 20 (
                                            tuning_with "std_tuning_en" 1
                                              (held tuning_ctrl h)))))))))))))

-- The clock of the others; where it is enabled in two steps, `sc` starts from zero.
abbrev start_clock_twice : List Op
start_clock_twice =
    write sys_ctrl (λ h. sys_ctrl_with "icen" 1 zeros)
    ++ (await
        ∷ (write sys_ctrl (λ h.
              sys_ctrl_with "pllen" 1 (sys_ctrl_with "sdcen" 1 (sys_ctrl_with "icen" 1 zeros)))
            ++ await ∷ []))

abbrev start_clock_once : Word → List Op
start_clock_once sc = write sys_ctrl (λ h.
    sys_ctrl_with "pllen" 1
      (sys_ctrl_with "sdcen" 1 (sys_ctrl_with "icst" 1 (sys_ctrl_with "icen" 1 sc))))

abbrev power_33 : Word → Word
power_33 w =
    set_named reg_host_ctrl "bus_power" (word 1) (set_named reg_host_ctrl "voltage_sel" (word 7) w)

abbrev adma32 : Word → Word
adma32 w = set_named reg_host_ctrl "dmamod" (word 2) w

abbrev init_host : (Word → Word) → List Op
init_host power =
    write autocmd12_err_status (λ h. zeros)
    ++ (write clk_tune_ctrl_status (λ h. zeros)
        ++ write host_ctrl (λ h. adma32 (power (held host_ctrl h))))

abbrev init_type : SdhciType → Word → List Op
init_type usdhc sc = init_usdhc
init_type plain sc = start_clock_once (reset_value plain sc) ++ init_host (λ w. w)
init_type iproc sc = start_clock_twice ++ init_host power_33
init_type bcm2711 sc = start_clock_twice ++ init_host power_33

unfoldable pub init : SdhciType → Word → List Op
init t sc = reset_all t sc ++ init_type t sc

-- Reg_prot_ctrl::set_bus_width()
abbrev pub dtw_value : BusWidth → ℕ
dtw_value width_1bit = 0
dtw_value width_4bit = 1
dtw_value width_8bit = 2

-- Reg_host_ctrl::set_bus_width()
abbrev pub host_width : BusWidth → Word → Word
host_width width_1bit w =
    set_named reg_host_ctrl "bbit4" (word 0) (set_named reg_host_ctrl "bbit8" (word 0) w)
host_width width_4bit w =
    set_named reg_host_ctrl "bbit4" (word 1) (set_named reg_host_ctrl "bbit8" (word 0) w)
host_width width_8bit w =
    set_named reg_host_ctrl "bbit4" (word 0) (set_named reg_host_ctrl "bbit8" (word 1) w)

unfoldable pub set_bus_width : SdhciType → BusWidth → List Op
set_bus_width usdhc b =
    write prot_ctrl (λ h. set_named reg_prot_ctrl "dtw" (word (dtw_value b)) (held prot_ctrl h))
set_bus_width _ b = write host_ctrl (λ h. host_width b (held host_ctrl h))

unfoldable pub mask_interrupts : List Op
mask_interrupts = write int_signal_en (λ h. zeros)
