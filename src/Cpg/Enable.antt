-- ===== src/Cpg/Enable.antt =====
-- enable_clock() of server/src/cpg.cc: the one bit that it changes, and when it succeeds.
use mathlib.Core.Path.{subst}
use emmc_driver.Base.{
  ℕ, zero, suc, ◌+◌, ◌≤◌, ◌<◌, ◌≡◌, refl, sym, ◌≢◌, List, [], ◌∷◌, ◌==◌, length, le→not_ltb, ◌⊎◌,
  inl, inr, true, false, not, none, some, Option, Errno, enxio, arith, leb, get_or, Bool-cases,
}
use emmc_driver.Reg.{Word}
use emmc_driver.Reg.Ops.{Hw}
use emmc_driver.Cpg.{
  nr_modules, cpgwpr, smstpcr, mstpsr, clear_bit, write_protected, poll_status, enable_clock,
}
use emmc_driver.Reg.Laminar.{every}

-- Within `n` polls from `k` on, the bit of the status register was seen clear, or it never was.
abbrev pub Polled : (ℕ → ℕ → Word) → ℕ → ℕ → ℕ → ℕ → Option Errno → Type 0
Polled status r bit n k o =
    ((o ≡ none) × ((j : ℕ) × (k ≤ j) × (j < k + n) × (status j r bit ≡ false)))
    ⊎ ((o ≡ some enxio) × ((j : ℕ) → k ≤ j → j < k + n → status j r bit ≡ true))

later-Polled :
    (status : ℕ → ℕ → Word) (r bit n k : ℕ) (o : Option Errno)
    → status k r bit ≡ true
    → Polled status r bit n (k + 1) o
    → Polled status r bit (suc n) k o
later-Polled status r bit n k o busy (inl (e, (j, a, b, c))) =
    inl (e, (j, omega arith, omega arith, c))
later-Polled status r bit n k o busy (inr (e, all)) = inr (
  e,
  λ j a b. elim (Bool-cases (leb (k + 1) j)) [
    | inl above ↦ all j (ground arith) (omega arith)
    | inr here ↦ subst (λ i. status i r bit ≡ true) (ground arith) busy
  ],
)

poll_status-Polled :
    (status : ℕ → ℕ → Word) (r bit n k : ℕ) → Polled status r bit n k (poll_status status r bit n k)
unfolding poll_status
poll_status-Polled status r bit zero k = inr (refl, λ j a b. absurd (omega arith))
poll_status-Polled status r bit (suc n) k = elim (Bool-cases (status k r bit)) [
  | inl busy ↦ rw busy (
      later-Polled status r bit n k (poll_status status r bit n (k + 1)) busy
        (poll_status-Polled status r bit n (k + 1)))
  | inr clear ↦ rw clear (inl (refl, (k, omega arith, omega arith, clear)))
]

others-cpgwpr :
    (rs : List ℕ) (n : ℕ)
    → every (λ r. not (r == cpgwpr)) rs ≡ true
    → n < length rs
    → get_or rs n 0 ≢ cpgwpr
others-cpgwpr [] n e l = absurd (omega arith)
others-cpgwpr (r ∷ rs) zero e l = ground arith
others-cpgwpr (r ∷ rs) (suc n) e l = others-cpgwpr rs n (ground arith) (omega arith)

enabled-eq :
    (status : ℕ → ℕ → Word) (n bit : ℕ) (h : Hw)
    → n < nr_modules
    → bit < 32
    → enable_clock status n bit h ≡ (
      write_protected (get_or smstpcr n 0) (clear_bit bit (h.regs (get_or smstpcr n 0))) h,
      poll_status status (get_or mstpsr n 0) bit 20 0,
    )
unfolding enable_clock
enabled-eq status n bit h a b =
    rw (le→not_ltb n 11 (omega arith), le→not_ltb bit 31 (omega arith)) refl

-- Only the bit is cleared, and the write protection has the complement.
abbrev pub Cleared : ℕ → ℕ → Hw → Hw → Type 0
Cleared r bit h h' =
    (h'.regs r bit ≡ false)
    × ((i : ℕ) → i ≢ bit → h'.regs r i ≡ h.regs r i)
    × ((i : ℕ) → h'.regs cpgwpr i ≡ not (h'.regs r i))
    × ((a : ℕ) → a ≢ r → a ≢ cpgwpr → h'.regs a ≡ h.regs a)

write_protected-Cleared :
    (r bit : ℕ) (h : Hw)
    → r ≢ cpgwpr
    → Cleared r bit h (write_protected r (clear_bit bit (h.regs r)) h)
write_protected-Cleared r bit h n = (
  ground (arith, n),
  λ i d. ground (arith, n, d),
  λ i. ground (arith, n),
  λ a p q. ground (arith, n, p, q),
)

-- For a module and a bit that there are, `enable_clock()` clears the bit of the module's control
-- register, and changes no other bit and no other register but that of the write protection, which
-- holds the complement of the value; it succeeds where one of 20 polls sees the bit of the status
-- register clear, and returns ENXIO where none does.
pub enable_clock_lem :
    (status : ℕ → ℕ → Word) (n bit : ℕ) (h : Hw)
    → n < nr_modules
    → bit < 32
    → let (h', o) = enable_clock status n bit h in
      Cleared (get_or smstpcr n 0) bit h h' × Polled status (get_or mstpsr n 0) bit 20 0 o
enable_clock_lem status n bit h a b =
    subst
      (λ p. Cleared (get_or smstpcr n 0) bit h p.0 × Polled status (get_or mstpsr n 0) bit 20 0 p.1)
      (sym (enabled-eq status n bit h a b))
      (
        write_protected-Cleared (get_or smstpcr n 0) bit h (others-cpgwpr smstpcr n refl a),
        poll_status-Polled status (get_or mstpsr n 0) bit 20 0,
      )
