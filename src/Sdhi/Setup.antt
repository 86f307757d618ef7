-- ===== src/Sdhi/Setup.antt =====
-- The set-up of the SDHI controller in server/src/drv_sdhi.cc: init(), the clock, the bus width and
-- the interrupts, as sequences of register writes.
mod Tests
use Prim.Native.String.{String}
use emmc_driver.Base.{ℕ, ◌+◌, Bool, true, false, List, [], ◌∷◌, ◌++◌, ◌==◌, ltb, if◌then◌else◌}
use emmc_driver.Mmc.{BusWidth, width_1bit, width_4bit, width_8bit}
use emmc_driver.Reg.{Word, word, Layout}
use emmc_driver.Reg.Ops.{Hw, Op, write_reg, await, zeros, ones, set_named}
use emmc_driver.Sdhi.{set_clock}
use emmc_driver.Sdhi.Fields.Card.{reg_sd_info_mask, reg_sd_clk_ctrl, reg_sd_option}
use emmc_driver.Sdhi.Fields.Dma.{
  reg_sdio_mode, reg_sdio_info1_mask, reg_cc_ext_mode, reg_soft_rst, reg_host_mode, reg_dm_cm_rst,
}

-- The registers, and their offsets.
pub data Regs : Type 0 where
  sd_cmd sd_portsel sd_arg sd_arg1 sd_stop sd_seccnt sd_rsp10 sd_rsp1 sd_rsp32 sd_rsp3 sd_rsp54
        sd_rsp5 sd_rsp76 sd_rsp7 sd_info1 sd_info2 sd_info1_mask sd_info2_mask sd_clk_ctrl sd_size
        sd_option sd_err_sts1 sd_err_sts2 sd_buf0 sdio_mode sdio_info1 sdio_info1_mask cc_ext_mode
        soft_rst version host_mode sdif_mode dm_cm_info1 dm_cm_info1_mask dm_cm_info2
        dm_cm_info2_mask dm_cm_seq_regset dm_cm_seq_ctrl dm_cm_dtran_mode dm_cm_dtran_ctrl dm_cm_rst
        dm_cm_seq_stat dm_dtran_addr dm_seq_cmd dm_seq_arg dm_seq_size dm_seq_seccnt dm_seq_rsp
        dm_seq_rsp_chk dm_seq_addr :
      Regs

abbrev pub offset : Regs → ℕ
offset sd_cmd = 0x0000
offset sd_portsel = 0x0008
offset sd_arg = 0x0010
offset sd_arg1 = 0x0018
offset sd_stop = 0x0020
offset sd_seccnt = 0x0028
offset sd_rsp10 = 0x0030
offset sd_rsp1 = 0x0038
offset sd_rsp32 = 0x0040
offset sd_rsp3 = 0x0048
offset sd_rsp54 = 0x0050
offset sd_rsp5 = 0x0058
offset sd_rsp76 = 0x0060
offset sd_rsp7 = 0x0068
offset sd_info1 = 0x0070
offset sd_info2 = 0x0078
offset sd_info1_mask = 0x0080
offset sd_info2_mask = 0x0088
offset sd_clk_ctrl = 0x0090
offset sd_size = 0x0098
offset sd_option = 0x00a0
offset sd_err_sts1 = 0x00b0
offset sd_err_sts2 = 0x00b8
offset sd_buf0 = 0x00c0
offset sdio_mode = 0x00d0
offset sdio_info1 = 0x00d8
offset sdio_info1_mask = 0x00e0
offset cc_ext_mode = 0x0360
offset soft_rst = 0x0380
offset version = 0x0388
offset host_mode = 0x0390
offset sdif_mode = 0x0398
offset dm_cm_info1 = 0x0840
offset dm_cm_info1_mask = 0x0848
offset dm_cm_info2 = 0x0850
offset dm_cm_info2_mask = 0x0858
offset dm_cm_seq_regset = 0x0800
offset dm_cm_seq_ctrl = 0x0810
offset dm_cm_dtran_mode = 0x0820
offset dm_cm_dtran_ctrl = 0x0828
offset dm_cm_rst = 0x0830
offset dm_cm_seq_stat = 0x0868
offset dm_dtran_addr = 0x0880
offset dm_seq_cmd = 0x08a0
offset dm_seq_arg = 0x08a8
offset dm_seq_size = 0x08b0
offset dm_seq_seccnt = 0x08b8
offset dm_seq_rsp = 0x08c0
offset dm_seq_rsp_chk = 0x08c8
offset dm_seq_addr = 0x08d0

-- Reg::write(): for some registers, it waits until the card is not busy or the clock may be set.
abbrev pub waits : Regs → Bool
waits sd_cmd = true
waits sd_stop = true
waits sd_seccnt = true
waits sd_size = true
waits sd_option = true
waits sdio_mode = true
waits cc_ext_mode = true
waits host_mode = true
waits sd_clk_ctrl = true
waits _ = false

abbrev pub write : Regs → (Hw → Word) → List Op
write r w = if waits r then await ∷ write_reg (offset r) w ∷ [] else write_reg (offset r) w ∷ []

-- Reg_2_16::write(): two registers of 16 bits, 8 bytes apart
abbrev pub write_2_16 : Regs → (Hw → Word) → List Op
write_2_16 r w =
    write_reg (offset r) (λ h i. if ltb i 16 then w h i else false)
    ∷ write_reg (offset r + 8) (λ h i. if ltb i 16 then w h (i + 16) else false)
    ∷ []

-- The content of a register as it is read.
abbrev pub held : Regs → Hw → Word
held r h = h.regs (offset r)

abbrev pub set_clk_ctrl : String → ℕ → Word → Word
set_clk_ctrl n v w = set_named reg_sd_clk_ctrl n (word v) w

unfoldable pub clock_disable : List Op
clock_disable = write sd_clk_ctrl (λ h. set_clk_ctrl "sclken" 0 (held sd_clk_ctrl h))

unfoldable pub clock_enable : List Op
clock_enable = write sd_clk_ctrl (λ h. set_clk_ctrl "sclken" 1 (held sd_clk_ctrl h))

-- Sdhi::set_clock(), which writes the divisor that `set_clock` finds
unfoldable pub set_clock_div : ℕ → List Op
set_clock_div freq =
    write sd_clk_ctrl (λ h. set_clk_ctrl "div" (set_clock freq) (held sd_clk_ctrl h))

unfoldable pub set_clock_and_timing : ℕ → List Op
set_clock_and_timing freq =
    if freq == 0 then clock_disable else clock_disable ++ (set_clock_div freq ++ clock_enable)

-- Reg_sd_option::set_bus_width()
abbrev pub option_width : BusWidth → Word → Word
option_width width_1bit w =
    set_named reg_sd_option "width8" (word 0) (set_named reg_sd_option "width" (word 1) w)
option_width width_4bit w =
    set_named reg_sd_option "width8" (word 0) (set_named reg_sd_option "width" (word 0) w)
option_width width_8bit w =
    set_named reg_sd_option "width8" (word 1) (set_named reg_sd_option "width" (word 0) w)

unfoldable pub set_bus_width : BusWidth → List Op
set_bus_width b = write sd_option (λ h. option_width b (held sd_option h))

-- Reg_sd_info_mask::disable_ints()
unfoldable pub mask_interrupts : List Op
mask_interrupts = write_2_16 sd_info1_mask (λ h. ones)

-- Reg_cc_ext_mode(), where two bits are always 1
abbrev pub new_cc_ext_mode : Word
new_cc_ext_mode =
    set_named reg_cc_ext_mode "res12" (word 1) (set_named reg_cc_ext_mode "res4" (word 1) zeros)

unfoldable pub enable_dma : Bool → List Op
enable_dma true =
    write cc_ext_mode (λ h. set_named reg_cc_ext_mode "dmasdrw" (word 1) new_cc_ext_mode)
enable_dma false =
    write dm_cm_info1 (λ h. zeros)
    ++ write cc_ext_mode (λ h. set_named reg_cc_ext_mode "dmasdrw" (word 0) new_cc_ext_mode)

-- Reg_soft_rst(), where two bits are always 1
abbrev pub new_soft_rst : ℕ → Word
new_soft_rst v =
    set_named reg_soft_rst "sdrst" (word v)
      (set_named reg_soft_rst "res2" (word 1) (set_named reg_soft_rst "res1" (word 1) zeros))

-- Reg_sdio_info1_mask(), with the SDIO interrupts masked
abbrev pub masked_sdio : Word
masked_sdio = set_named reg_sdio_info1_mask "mexwt" (word 1) (
    set_named reg_sdio_info1_mask "mexpub52" (word 1) (
      set_named reg_sdio_info1_mask "iomsk" (word 1) (
        set_named reg_sdio_info1_mask "res2" (word 1)
          (set_named reg_sdio_info1_mask "res1" (word 1) zeros))))

-- `sd_clk_ctrl` of init(), where set_divisor(4) gives `div` the value 1
abbrev pub first_clk_ctrl : Word
first_clk_ctrl = set_clk_ctrl "div" 1 zeros

abbrev reset_channels : ℕ → List Op
reset_channels v =
    write dm_cm_rst (λ h. set_named reg_dm_cm_rst "dtranrst" (word v) (held dm_cm_rst h))

-- Reg_host_mode::set_bus_width(Width_64bit)
abbrev host_64bit : Word → Word
host_64bit w =
    set_named reg_host_mode "buswidth" (word 0) (set_named reg_host_mode "wmode" (word 0) w)

unfoldable pub init : List Op
unfolding mask_interrupts
init =
    write sd_clk_ctrl (λ h. first_clk_ctrl)
    ++ (write soft_rst (λ h. new_soft_rst 0)
        ++ (write soft_rst (λ h. new_soft_rst 1)
            ++ (write sdio_info1_mask (λ h. masked_sdio)
                ++ (write sdio_mode (λ h. set_named reg_sdio_mode "iomod" (word 1) zeros)
                    ++ (reset_channels 0
                        ++ (reset_channels 3
                            ++ (write sdif_mode (λ h. zeros)
                                ++ (write sd_clk_ctrl (λ h. set_clk_ctrl "sclken" 1 first_clk_ctrl)
                                    ++ (mask_interrupts
                                        ++ (write dm_cm_info1_mask (λ h. ones)
                                            ++ (write dm_cm_info2_mask (λ h. ones)
                                                ++ write host_mode
                                                    (λ h. host_64bit (held host_mode h)))))))))))))
