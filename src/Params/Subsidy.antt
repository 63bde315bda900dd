-- ===== src/Params/Subsidy.antt =====
-- The money supply: the sum of all subsidies is bounded, whatever the height.
use go_chain.Prelude.{
  ℕ, zero, suc, ◌+◌, ◌*◌, ◌/◌, ◌%◌, ◌^◌, ◌≤◌, ◌<◌, ◌≡◌, refl, sym, ap, ◌∙◌, false, leb, ◌==◌, arith,
  Bool-cases, inl, inr, leb→le,
}
use native.Mathlib.Nat.{
  pow-suc, pow-le-pow_right, div-eq_of_lt, mul-add-div, div-div-eq-div-mul, div-add-mod,
  mul-le-mul_left, mul-le-mul_right, mod-lt, mul-suc, suc-mul, add-suc, add-zero, zero-mul,
  mul-zero, div-one, mul-add,
}
use go_chain.Params.{ChainParams, calc_subsidy}

-- The subsidies of the blocks below a height.
unfoldable pub minted : ChainParams → ℕ → ℕ
minted p zero = 0
minted p (suc n) = minted p n + calc_subsidy p n

-- The subsidy of the blocks between two halvings.
abbrev era_subsidy : ChainParams → ℕ → ℕ
era_subsidy p q = p.initial_subsidy / 2 ^ q

module _ (p : ChainParams) (has_halvings : 0 < p.subsidy_halving_interval)
    (fits : p.initial_subsidy < 2 ^ 64) where
  calc_subsidy-eq :
      (height : ℕ) → calc_subsidy p height ≡ era_subsidy p (height / p.subsidy_halving_interval)
  unfolding calc_subsidy
  calc_subsidy-eq height =
      let q = height / p.subsidy_halving_interval in
      let halves : (p.subsidy_halving_interval == 0) ≡ false = ground arith in
      elim (Bool-cases (leb 64 q)) [
        | inr early ↦ rw (halves, early) refl
        | inl late ↦
            let gone : p.initial_subsidy / 2 ^ q ≡ 0 =
              div-eq_of_lt
                (omega (arith, pow-le-pow_right {n = 2} (omega arith) (leb→le 64 q late))) in
            rw (halves, late) (sym gone)
      ]

  era-div :
      (q r : ℕ)
      → r < p.subsidy_halving_interval
      → (p.subsidy_halving_interval * q + r) / p.subsidy_halving_interval ≡ q
  era-div q r h = omega (arith, mul-add-div has_halvings q r, div-eq_of_lt h)

  minted-era :
      (q r : ℕ)
      → r ≤ p.subsidy_halving_interval
      → minted p (p.subsidy_halving_interval * q + r)
        ≡ minted p (p.subsidy_halving_interval * q) + r * era_subsidy p q
  unfolding minted
  minted-era q zero h =
      ap (minted p) (add-zero (p.subsidy_halving_interval * q))
      ∙ omega (arith, zero-mul (era_subsidy p q))
  minted-era q (suc r) h =
      let start = p.subsidy_halving_interval * q in
      let same : calc_subsidy p (start + r) ≡ era_subsidy p q =
        calc_subsidy-eq (start + r) ∙ ap (era_subsidy p) (era-div q r (omega arith)) in
      ap (minted p) (add-suc start r)
      ∙ omega (arith, minted-era q r (omega arith), same, suc-mul r (era_subsidy p q))

  era_subsidy-halves : (q : ℕ) → era_subsidy p (suc q) + era_subsidy p (suc q) ≤ era_subsidy p q
  era_subsidy-halves q =
      let half : era_subsidy p q / 2 ≡ era_subsidy p (suc q) =
        div-div-eq-div-mul p.initial_subsidy (2 ^ q) 2
        ∙ ap (λ d. p.initial_subsidy / d) (sym (pow-suc 2 q)) in
      omega (arith, half)

  -- What was minted, with twice what the coming era will mint, never grows.
  minted-potential :
      (q : ℕ)
      → minted p (p.subsidy_halving_interval * q)
          + (p.subsidy_halving_interval * era_subsidy p q
              + p.subsidy_halving_interval * era_subsidy p q)
        ≤ p.subsidy_halving_interval * p.initial_subsidy
          + p.subsidy_halving_interval * p.initial_subsidy
  unfolding minted
  minted-potential zero =
      let i = p.subsidy_halving_interval in
      let nothing : minted p (i * 0) ≡ 0 = ap (minted p) (mul-zero i) in
      let first : i * era_subsidy p 0 ≡ i * p.initial_subsidy =
        ap (λ s. i * s) (div-one p.initial_subsidy) in
      omega (arith, nothing, first)
  minted-potential (suc q) =
      let i = p.subsidy_halving_interval in
      let s = era_subsidy p q in
      let s' = era_subsidy p (suc q) in
      let era = ap (minted p) (mul-suc i q) ∙ minted-era q i (omega arith) in
      let half = mul-le-mul_left i (era_subsidy-halves q) in
      omega (arith, era, half, mul-add i s' s', minted-potential q)

-- With a halving interval and a 64-bit initial subsidy, the subsidies of all blocks below any height
-- are together at most twice what the blocks before the first halving earn.
pub minted-bound :
    (p : ChainParams) (height : ℕ)
    → 0 < p.subsidy_halving_interval
    → p.initial_subsidy < 2 ^ 64
    → minted p height ≤ 2 * (p.subsidy_halving_interval * p.initial_subsidy)
minted-bound p height has_halvings fits =
    let i = p.subsidy_halving_interval in
    let q = height / i in
    let r = height % i in
    let s = era_subsidy p q in
    let within = mod-lt height has_halvings in
    let era =
      ap (minted p) (sym (div-add-mod height i))
      ∙ minted-era p has_halvings fits q r (omega (arith, within)) in
    let part : r * s ≤ i * s = mul-le-mul_right s (omega (arith, within)) in
    omega (arith, era, part, minted-potential p has_halvings fits q)
