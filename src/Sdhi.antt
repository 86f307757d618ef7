-- ===== src/Sdhi.antt =====
-- server/src/drv_sdhi.cc and server/src/drv_sdhi.h: the SDHI controller, here its clock.
pub mod Clock
pub mod Submit
pub mod Exec
pub mod Interrupt
pub mod Sent
pub mod Ends
pub mod Fields
pub mod Setup
pub mod Stopped
pub mod Ready
mod Tests
use emmc_driver.Base.{
  ℕ, zero, suc, ◌+◌, ◌*◌, ◌/◌, ◌%◌, ◌^◌, Bool, true, false, ◌||◌, Outcome, done, throws, einval,
  ltb, leb, ◌==◌, if◌then◌else◌,
}

-- `div` of Reg_sd_clk_ctrl has 8 bits.
unfoldable pub divisor : ℕ → ℕ
divisor div = if div == 0xff then 1 else if div == 0 then 2 else div * 2 ^ 2

abbrev pub is_shifted : ℕ → Bool
is_shifted d =
    (d == 512)
    || ((d == 256)
        || ((d == 128) || ((d == 64) || ((d == 32) || ((d == 16) || ((d == 8) || (d == 4)))))))

unfoldable pub set_divisor : ℕ → Outcome ℕ
set_divisor d =
    if is_shifted d
    then done ((d / 2 ^ 2) % 2 ^ 8)
    else if d == 2
    then done 0
    else if d == 1
    then done 0xff
    else throws einval

abbrev pub host_clock : ℕ
host_clock = 200000000

-- The loop of set_clock(); `real_clock` doubles at most 8 times below the host clock.
unfoldable pub find_clk_div : ℕ → ℕ → ℕ → ℕ → ℕ
find_clk_div zero freq real_clock clk_div = clk_div
find_clk_div (suc fuel) freq real_clock clk_div =
    let rest = find_clk_div fuel freq (real_clock * 2) (clk_div / 2) in
    if leb (real_clock * 2) freq then rest else clk_div

-- the value that set_clock() gives `div`
unfoldable pub set_clock : ℕ → ℕ
set_clock freq =
    if ltb freq host_clock then find_clk_div 9 freq (host_clock / 512) 0x80 % 2 ^ 8 else 0xff
