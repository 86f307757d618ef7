-- ===== src/Cmd/Data.antt =====
-- Cmd::init_data() of server/src/cmd.h.
use emmc_driver.Base.{ℕ, ◌%◌, ◌^◌, ◌<◌, ◌≡◌, done, arith}
use emmc_driver.Cmd.{Cmd, init_data}

-- CMD8 and other data commands are initialised for every physical address, also one beyond 4 GiB:
-- where the context's old `data_phys` fits 32 bits nothing is thrown, and the address is cut.
pub init_data_truncates :
    (c : Cmd) (cmd_val arg_val blocksize_val phys virt : ℕ)
    → c.data_phys < 2 ^ 32
    → let (c', o) = init_data c cmd_val arg_val blocksize_val phys virt in
      (o ≡ done tt) × (c'.data_phys ≡ phys % 2 ^ 32)
unfolding init_data
init_data_truncates c cmd_val arg_val blocksize_val phys virt h = ground arith
