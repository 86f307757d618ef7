-- ===== src/Cmd.antt =====
-- server/src/cmd.h, class Cmd: the context of one eMMC command. A command stands in a slot of the
-- command queue, and its number there is its address.
pub mod Data
use emmc_driver.Base.{
  ℕ, ◌-◌, ◌*◌, ◌/◌, ◌%◌, ◌^◌, Bool, true, false, List, [], Option, none, Outcome, done, throws,
  enomem, ◌==◌, if◌then◌else◌, ◌&&◌,
}
use emmc_driver.Mmc.{test_bit}

-- Cmd::Status
pub data Status : Type 0 where
  success progress_cmd progress_data data_partial tuning_progress : Status
  uninitialized ready_for_submit error cmd_timeout cmd_error data_error tuning_failed : Status

-- `error()`: the values of these states are below 0.
abbrev pub is_error : Status → Bool
is_error success = false
is_error progress_cmd = false
is_error progress_data = false
is_error data_partial = false
is_error tuning_progress = false
is_error _ = true

abbrev pub is_progress : Status → Bool
is_progress progress_cmd = true
is_progress progress_data = true
is_progress _ = false

abbrev pub is_success : Status → Bool
is_success success = true
is_success _ = false

abbrev pub is_ready : Status → Bool
is_ready ready_for_submit = true
is_ready _ = false

-- Cmd::Flags, one field for each bit
pub record Flags : Type 0 where
  pub read_from_bounce_buffer : Bool
  pub app_cmd : Bool
  pub auto_cmd23 : Bool
  pub inout_read : Bool
  pub inout_cmd12 : Bool
  pub inout : Bool
  pub expected_error : Bool
  pub has_r1_response : Bool
  pub status_after_switch : Bool
  pub has_data : Bool
  pub enqueued : Bool

abbrev pub no_flags : Flags
no_flags = record {
  read_from_bounce_buffer = false;
  app_cmd = false;
  auto_cmd23 = false;
  inout_read = false;
  inout_cmd12 = false;
  inout = false;
  expected_error = false;
  has_r1_response = false;
  status_after_switch = false;
  has_data = false;
  enqueued = false;
}

-- Flags::reset(): all flags but `enqueued`
unfoldable pub reset : Flags → Flags
reset f = record no_flags { enqueued = f.enqueued }

-- What the driver reads of a Block_device::Inout_block. The chain of `next` pointers is a list.
pub record Block : Type 0 where
  pub dma_addr : ℕ
  pub virt_addr : ℕ
  pub num_sectors : ℕ

-- The callback is known by a number; `none` is `nullptr`.
pub record Cmd : Type 0 where
  pub status : Status
  pub status_cmd12 : Status
  pub cmd : ℕ
  pub arg : ℕ
  pub flags : Flags
  pub blockcnt : ℕ
  pub blocksize : ℕ
  pub data_phys : ℕ
  pub data_virt : ℕ
  pub resp0 : ℕ
  pub resp1 : ℕ
  pub resp2 : ℕ
  pub resp3 : ℕ
  pub sector : ℕ
  pub sectors_done : ℕ
  pub blocks : List Block
  pub cb_io : Option ℕ

unfoldable pub cmd_idx : Cmd → ℕ
cmd_idx c = c.cmd % 64

unfoldable pub cmd_type : Cmd → ℕ
cmd_type c = (c.cmd / 64) % 4 * 64

unfoldable pub init : Cmd → ℕ → Cmd
unfolding reset
init c cmd_val = record c {
  status = ready_for_submit;
  cmd = cmd_val;
  arg = 0;
  flags = reset c.flags;
}

unfoldable pub mark_app_cmd : Cmd → Cmd
mark_app_cmd c = record c { flags = record (c.flags) { app_cmd = true } }

unfoldable pub init_arg : Cmd → ℕ → ℕ → Cmd
unfolding reset
init_arg c cmd_val arg_val = record c {
  cmd = cmd_val;
  arg = arg_val;
  flags = reset c.flags;
  status = ready_for_submit;
}

-- The test reads the old `data_phys`, a 32-bit field, so no bit of the mask 0xffffffff00000000
-- is ever set in it. On the throw the fields above the test are written.
unfoldable pub init_data : Cmd → ℕ → ℕ → ℕ → ℕ → ℕ → Cmd × Outcome (Unit {0})
unfolding reset
init_data c cmd_val arg_val blocksize_val data_phys_val data_virt_val =
    if c.data_phys / 2 ^ 32 == 0
    then (
      record started {
        data_phys = data_phys_val % 2 ^ 32;
        data_virt = data_virt_val;
        blocks = [];
        status = ready_for_submit;
      },
      done tt,
    )
    else (started, throws enomem)
  where
    started : Cmd
    started = record c {
      cmd = cmd_val;
      arg = arg_val;
      flags = record (reset c.flags) { has_data = true };
      blockcnt = 1;
      blocksize = blocksize_val;
    }

-- `sector` is a 32-bit field that is given a 64-bit value.
unfoldable pub init_inout : Cmd → ℕ → List Block → Option ℕ → Bool → Cmd
unfolding reset
init_inout c sector_val blocks_val cb_io_val inout_read_val = record c {
  cmd = 0;
  flags = record (reset c.flags) { inout = true; inout_read = inout_read_val };
  sector = sector_val % 2 ^ 32;
  sectors_done = 0;
  blocks = blocks_val;
  cb_io = cb_io_val;
}

unfoldable pub reinit_inout_nodata : Cmd → ℕ → ℕ → Cmd
reinit_inout_nodata c cmd_val arg_val = record c {
  cmd = cmd_val;
  arg = arg_val;
  flags = record (c.flags) { has_data = false };
  status = ready_for_submit;
}

unfoldable pub reinit_inout_data : Cmd → ℕ → ℕ → ℕ → ℕ → Bool → Cmd
reinit_inout_data c cmd_val arg_val blockcnt_val blocksize_val auto_cmd23_val = record c {
  cmd = cmd_val;
  arg = arg_val;
  blockcnt = blockcnt_val;
  blocksize = blocksize_val;
  flags = record (c.flags) { has_data = true; auto_cmd23 = auto_cmd23_val };
  status = ready_for_submit;
}

-- bit 7 of the response, Mmc::Device_status::switch_error()
unfoldable pub switch_error : Cmd → Bool
switch_error c = is_success c.status && (c.flags.has_r1_response && test_bit c.resp0 7)

-- Cmd::destruct() after Cmd_queue::cmd_destruct(): the context is made unusable.
unfoldable pub invalidate : Cmd → Cmd
unfolding reset
invalidate c = record c {
  status = error;
  cmd = 2 ^ 32 - 1;
  arg = 0;
  flags = reset c.flags;
  cb_io = none;
}

-- The context of a slot that was never used. Its fields but `flags` are indeterminate in the
-- source; every use of a slot writes a field before it reads it, but for `data_phys`.
abbrev pub blank : Cmd
blank = record {
  status = uninitialized;
  status_cmd12 = uninitialized;
  cmd = 0;
  arg = 0;
  flags = no_flags;
  blockcnt = 0;
  blocksize = 0;
  data_phys = 0;
  data_virt = 0;
  resp0 = 0;
  resp1 = 0;
  resp2 = 0;
  resp3 = 0;
  sector = 0;
  sectors_done = 0;
  blocks = [];
  cb_io = none;
}
