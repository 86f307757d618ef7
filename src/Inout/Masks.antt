-- ===== src/Inout/Masks.antt =====
-- When the interrupt of the controller is unmasked: handle_irq() of server/src/device-impl.h.
use mathlib.Core.Path.{subst}
use emmc_driver.Base.{
  ℕ, ◌≡◌, refl, sym, ap, ◌∙◌, ◌≢◌, inl, inr, Bool, true, false, Option, none, some, Outcome, done,
  throws, Method, continue, arith, is_done, if◌then◌else◌, get_or-set_ne, get_or-set_self,
  Bool-cases,
}
use emmc_driver.Cmd.{Cmd, is_progress, is_ready}
use emmc_driver.CmdQueue.{CmdQueue, cmd_at, put_cmd, working}
use emmc_driver.Inout.Device.{Submit, submit_ready, cmd_queue_kick}
use emmc_driver.Inout.Irq.{Server, on_dev, unmask_interrupt, kick_unmask, ready_at}
use emmc_driver.Inout.Queue.{Valid, working_lt}

abbrev pub waits_at : CmdQueue → Option ℕ → Bool
waits_at q none = false
waits_at q (some i) = is_progress (cmd_at q i).status

-- The current command is in progress.
abbrev pub waits : CmdQueue → Bool
waits q = waits_at q (working q)

-- No command but the current one is in progress.
abbrev pub Quiet : CmdQueue → Type 0
Quiet q = (j : ℕ) → working q ≢ some j → is_progress (cmd_at q j).status ≡ false

-- The interrupt gets through exactly while a command is in progress, which is the current one.
abbrev pub Armed : Server → Type 0
Armed s = (s.unmasked ≡ waits s.dev.queue) × Quiet s.dev.queue

-- A ready command is in progress once it is submitted, and is not where submitting it throws.
abbrev pub Starts : Submit → Type 0
Starts submit =
    (c : Cmd) → is_ready c.status ≡ true → is_progress (submit c).0.status ≡ is_done (submit c).1

pub working-put_cmd : (q : CmdQueue) (i : ℕ) (c : Cmd) → working (put_cmd q i c) ≡ working q
unfolding working
working-put_cmd q i c = refl

pub put_cmd-Quiet :
    (q : CmdQueue) (i : ℕ) (c : Cmd) → working q ≡ some i → Quiet q → Quiet (put_cmd q i c)
unfolding working
put_cmd-Quiet q i c w quiet j n =
    ap (λ x. is_progress x.status) (get_or-set_ne q.cmds i j c _ (λ e. n (w ∙ ap some e)))
    ∙ quiet j n

pub cmd_at-put_cmd :
    {q : CmdQueue} (i : ℕ) (c : Cmd) → Valid q → working q ≡ some i → cmd_at (put_cmd q i c) i ≡ c
cmd_at-put_cmd {q} i c v w =
    get_or-set_self q.cmds i c _ (omega (arith, v.inv.slots, working_lt v w))

pub put_cmd-waits :
    {q : CmdQueue} (i : ℕ) (c : Cmd)
    → Valid q
    → working q ≡ some i
    → waits (put_cmd q i c) ≡ is_progress c.status
put_cmd-waits {q} i c v w =
    ap (waits_at (put_cmd q i c)) (working-put_cmd q i c ∙ w)
    ∙ ap (λ x. is_progress x.status) (cmd_at-put_cmd i c v w)

abbrev kick_at : Submit → Option ℕ → Method Server (Unit {0})
kick_at submit o s =
    continue (on_dev (submit_ready submit o) s)
      (λ _. if ready_at s.dev.queue o then unmask_interrupt else λ s'. (s', done tt))

-- What submitting the command `c` at `i` leaves.
abbrev submitted : ℕ → Cmd × Outcome (Unit {0}) → Server → Server
submitted i (c, done u) s = record s {
  dev = record (s.dev) { queue = put_cmd s.dev.queue i c };
  unmasked = true;
}
submitted i (c, throws e) s = record s { dev = record (s.dev) { queue = put_cmd s.dev.queue i c } }

kick_at-submitted :
    (i : ℕ) (r : Cmd × Outcome (Unit {0})) (s : Server)
    → (continue {S = Server} {A = Unit {0}} {B = Unit {0}}
        (record s { dev = record (s.dev) { queue = put_cmd s.dev.queue i r.0 } }, r.1)
        (λ _. unmask_interrupt)).0
      ≡ submitted i r s
kick_at-submitted i (c, done u) s = refl
kick_at-submitted i (c, throws e) s = refl

submitted-Armed :
    (i : ℕ) (r : Cmd × Outcome (Unit {0})) (s : Server)
    → is_progress r.0.status ≡ is_done r.1
    → Valid s.dev.queue
    → working s.dev.queue ≡ some i
    → s.unmasked ≡ false
    → Quiet s.dev.queue
    → Armed (submitted i r s)
submitted-Armed i (c, done u) s k v w m quiet =
    (sym (put_cmd-waits i c v w ∙ k), put_cmd-Quiet s.dev.queue i c w quiet)
submitted-Armed i (c, throws e) s k v w m quiet =
    (m ∙ sym (put_cmd-waits i c v w ∙ k), put_cmd-Quiet s.dev.queue i c w quiet)

kick_at-Armed :
    (submit : Submit) (o : Option ℕ) (s : Server)
    → Starts submit
    → Valid s.dev.queue
    → working s.dev.queue ≡ o
    → s.unmasked ≡ false
    → waits s.dev.queue ≡ false
    → Quiet s.dev.queue
    → Armed (kick_at submit o s).0
kick_at-Armed submit none s k v w m idle quiet = (m ∙ sym idle, quiet)
kick_at-Armed submit (some i) s k v w m idle quiet =
    elim (Bool-cases (is_ready (cmd_at s.dev.queue i).status)) [
      | inl yes' ↦ rw yes' (
          subst Armed (sym (kick_at-submitted i (submit (cmd_at s.dev.queue i)) s)) (
            submitted-Armed i (submit (cmd_at s.dev.queue i)) s (k (cmd_at s.dev.queue i) yes') v w
              m quiet))
      | inr no' ↦ rw no' (m ∙ sym idle, quiet)
    ]

-- After a kick, the interrupt gets through exactly where the kick has submitted a command.
pub kick_unmask-Armed :
    (submit : Submit) (s : Server)
    → Starts submit
    → Valid s.dev.queue
    → s.unmasked ≡ false
    → waits s.dev.queue ≡ false
    → Quiet s.dev.queue
    → Armed (kick_unmask submit s).0
unfolding kick_unmask cmd_queue_kick
kick_unmask-Armed submit s k v m idle quiet =
    kick_at-Armed submit (working s.dev.queue) s k v refl m idle quiet
