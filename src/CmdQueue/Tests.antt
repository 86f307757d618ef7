-- ===== src/CmdQueue/Tests.antt =====
-- The theorems on the command queue at queues that the code builds.
use emmc_driver.Base.{◌+◌, ◌<◌, ◌≡◌, ◌≢◌, refl, ◌⊎◌, [], ◌∷◌, ◌++◌, none, some, done, arith, length}
use emmc_driver.CmdQueue.{CmdQueue, init, create, working, is_working, cmd_work_done, destruct}
use emmc_driver.CmdQueue.Inv.{Inv, init-Inv, create-Inv, cmd_work_done-Inv}
use emmc_driver.CmdQueue.Fifo.{finished, active, create_refines, destruct_refines}

-- a queue with two commands, and the same with the first of them done
abbrev two : CmdQueue
two = (create (create init).0).0

two-Inv : Inv two
two-Inv = create-Inv (create-Inv init-Inv)

abbrev one_done : CmdQueue
one_done = (cmd_work_done 0 two).0

one_done-Inv : Inv one_done
one_done-Inv = cmd_work_done-Inv 0 two-Inv

create_refines_example :
    let (q', r) = create two in
    let used = length (finished two) + length (active two) in
    ((used ≡ 31) × (r ≡ done none) × (q' ≡ two))
    ⊎ ((used < 31)
        × (r ≡ done (some two.create_pos))
        × (finished q' ≡ finished two)
        × (active q' ≡ active two ++ two.create_pos ∷ []))
create_refines_example = create_refines two-Inv

one_done-finished : finished one_done ≡ 0 ∷ []
unfolding init create cmd_work_done is_working
one_done-finished = refl

destruct_refines_example :
    let (q', r) = destruct 0 one_done in
    (r ≡ done tt) × (finished q' ≡ []) × (active q' ≡ active one_done)
destruct_refines_example = destruct_refines 0 [] one_done-Inv one_done-finished

two-finished : finished two ≡ []
unfolding init create
two-finished = refl

two-working : working two ≡ some 0
unfolding init create working
two-working = refl

two_not_working : working two ≢ some 1
two_not_working = ground (arith, two-working)
