-- ===== src/Main/Asked.antt =====
-- What op_create() of server/src/main.cc asks libblock-device for.
use emmc_driver.Base.{
  ℕ, ◌≡◌, ◌≢◌, refl, ap, ◌⊎◌, inl, inr, Bool, true, false, List, [], ◌∷◌, Errno, enodev, eagain,
  Outcome, done, throws, ℤ, is_between, if◌then◌else◌, Bool-cases, arith,
}
use emmc_driver.Main.Create.{
  Varg, not_text, text, ClientParams, default_values, Created, Asked, client, refused, raised, Took,
  took, ends, Manager, bytes, has_prefix, string_param, int_param, strncmp_equal, take_name,
  take_num_ds, take_param, is_enodev, try_later, create_client, go_on, op_create_from, op_create,
  is_nil,
}

abbrev pub CountAllowed : ClientParams → Type 0
CountAllowed c = is_between 1 256 c.num_ds ≡ true

abbrev KeepsCount : Took → Type 0
KeepsCount (took c) = CountAllowed c
KeepsCount (ends (refused e)) = Unit
KeepsCount (ends (raised e)) = Unit
KeepsCount (ends _) = ⊥

-- What becomes of the manager's answer: that there is no such device is no final answer while
-- devices are still looked for.
abbrev pub Passed : Bool → Created → Created → Type 0
Passed scanning answer r =
    ((answer ≡ refused enodev) × (scanning ≡ true) × (r ≡ refused eagain))
    ⊎ (((answer ≢ refused enodev) ⊎ (scanning ≡ false)) × (r ≡ answer))

-- A call is refused or throws and nothing is asked for, or the manager is asked once, for a named
-- device and 1 to 256 dataspaces.
abbrev pub Answered : Manager → Bool → Created × Asked → Type 0
Answered m scanning (r, asked) =
    ((asked ≡ []) × ((e : Errno) × ((r ≡ refused e) ⊎ (r ≡ raised e))))
    ⊎ ((c : ClientParams) × (asked ≡ c ∷ [])
        × CountAllowed c
        × (is_nil c.device ≡ false)
        × Passed scanning (m.create_dynamic_client c) r)

is_enodev_iff : (r : Created) → is_enodev r ≡ true → r ≡ refused enodev
is_enodev_iff (client n) e = absurd (ground (arith, e))
is_enodev_iff (refused enodev) e = refl
is_enodev_iff (refused x) e = absurd (ground (arith, e))
is_enodev_iff (raised x) e = absurd (ground (arith, e))

try_later-Passed :
    (scanning : Bool) (answer : Created) → Passed scanning answer (try_later scanning answer)
try_later-Passed true answer = elim (Bool-cases (is_enodev answer)) [
  | inl gone ↦ rw gone (inl (is_enodev_iff answer gone, refl, refl))
  | inr there ↦ rw there (inr (inl (λ p. ground (arith, ap is_enodev p, there)), refl))
]
try_later-Passed false answer = elim (Bool-cases (is_enodev answer)) [
  | inl gone ↦ rw gone (inr (inr refl, refl))
  | inr there ↦ rw there (inr (inr refl, refl))
]

take_name-KeepsCount :
    (o : Outcome (List ℕ)) (c : ClientParams) → CountAllowed c → KeepsCount (take_name o c)
take_name-KeepsCount (done name) c h = h
take_name-KeepsCount (throws e) c h = tt

take_num_ds-KeepsCount :
    (o : Outcome ℤ) (c : ClientParams) → CountAllowed c → KeepsCount (take_num_ds o c)
take_num_ds-KeepsCount (done n) c h = elim (Bool-cases (is_between 1 256 n)) [
  | inl fits ↦ rw fits fits
  | inr other ↦ rw other tt
]
take_num_ds-KeepsCount (throws e) c h = tt

take_param-KeepsCount :
    (m : Manager) (p : Varg) (c : ClientParams) → CountAllowed c → KeepsCount (take_param m p c)
unfolding take_param
take_param-KeepsCount m not_text c h = tt
take_param-KeepsCount m (text s len) c h = elim (Bool-cases (has_prefix (bytes "device=") s len)) [
  | inl named ↦
      rw named
        (take_name-KeepsCount (m.parse_device_name (string_param (bytes "device=") s len)) c h)
  | inr other ↦ elim (Bool-cases (has_prefix (bytes "ds-max=") s len)) [
    | inl counted ↦
        rw (other, counted) (take_num_ds-KeepsCount (int_param (bytes "ds-max=") s len) c h)
    | inr neither ↦
        rw (other, neither)
          (flags (strncmp_equal len s (bytes "readonly"))
            (strncmp_equal len s (bytes "dma-map-per-req")))
  ]
]
  where
    flags :
        (a b : Bool)
        → KeepsCount (
            if a
            then took (record c { readonly = true })
            else if b
            then took (record c { dma_map_all = false })
            else took c)
    flags true b = h
    flags false true = h
    flags false false = h

create_client-Answered :
    (m : Manager) (scanning : Bool) (c : ClientParams)
    → CountAllowed c
    → Answered m scanning (create_client m scanning c)
create_client-Answered m scanning c h = elim (Bool-cases (is_nil c.device)) [
  | inl unnamed ↦ rw unnamed (inl (refl, (Errno.einval, inl refl)))
  | inr named ↦
      rw named (inr (c, refl, h, named, try_later-Passed scanning (m.create_dynamic_client c)))
]

go_on-Answered :
    (m : Manager) (scanning : Bool) (t : Took) (k : ClientParams → Created × Asked)
    → KeepsCount t
    → ((c : ClientParams) → CountAllowed c → Answered m scanning (k c))
    → Answered m scanning (go_on t k)
go_on-Answered m scanning (took c) k h rest = rest c h
go_on-Answered m scanning (ends (refused e)) k h rest = inl (refl, (e, inl refl))
go_on-Answered m scanning (ends (raised e)) k h rest = inl (refl, (e, inr refl))
go_on-Answered m scanning (ends (client n)) k h rest = absurd h

op_create_from-Answered :
    (m : Manager) (scanning : Bool) (ps : List Varg) (c : ClientParams)
    → CountAllowed c
    → Answered m scanning (op_create_from m scanning ps c)
unfolding op_create_from
op_create_from-Answered m scanning [] c h = create_client-Answered m scanning c h
op_create_from-Answered m scanning (p ∷ ps) c h =
    go_on-Answered m scanning (take_param m p c) (op_create_from m scanning ps)
      (take_param-KeepsCount m p c h) (op_create_from-Answered m scanning ps)

-- Whatever the parameters of a client are: `op_create()` returns an error or throws and nothing was
-- asked for, or the manager was asked exactly once, for a device with a name and for 1 to 256
-- dataspaces. Where the manager then answers that there is no such device, while the scan is in
-- progress, `op_create()` answers EAGAIN, and in all other cases what the manager answered.
pub op_create-Answered :
    (m : Manager) (scanning : Bool) (ps : List Varg) → Answered m scanning (op_create m scanning ps)
unfolding op_create
op_create-Answered m scanning ps = op_create_from-Answered m scanning ps default_values refl
