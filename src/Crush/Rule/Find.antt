-- ===== src/Crush/Rule/Find.antt =====
-- `crush_find_rule` gives the first rule that fits.
use mathlib.Core.Bool.{false≢true}
use kmod_ceph.Base.{
  ℕ, zero, suc, ◌+◌, ◌≤◌, ◌<◌, ◌≡◌, ◌∙◌, inl, inr, sym, arith, true, Option, none, some, List, [],
  ◌∷◌, get_elem?, Bool-cases,
}
use kmod_ceph.Crush.Types.{Rule, CrushMap}
use kmod_ceph.Crush.Rule.{mask_matches, find_rule, find_rule_from}

-- Whether place `i` of the table holds a rule that fits.
abbrev pub Fits : Option (Option Rule) → ℕ → ℕ → ℕ → Type 0
Fits none rule_set type size = ⊥
Fits (some none) rule_set type size = ⊥
Fits (some (some rule)) rule_set type size =
    (rule.mask.rule_set ≡ rule_set)
    × (rule.mask.type ≡ type)
    × (rule.mask.min_size ≤ size)
    × (size ≤ rule.mask.max_size)

mask_matches_iff :
    (rule : Rule) (rule_set type size : ℕ)
    → ((mask_matches rule.mask rule_set type size ≡ true)
        → Fits (some (some rule)) rule_set type size)
      × (Fits (some (some rule)) rule_set type size
          → mask_matches rule.mask rule_set type size ≡ true)
mask_matches_iff rule rule_set type size = (λ h. ground arith, λ h. ground arith)

-- Nothing fits, or the place found is the first that does.
abbrev pub IsFirst : List (Option Rule) → ℕ → ℕ → ℕ → ℕ → Option ℕ → Type 0
IsFirst rules from rule_set type size none = (k : ℕ) → ¬ Fits (get_elem? rules k) rule_set type size
IsFirst rules from rule_set type size (some i) =
    (k : ℕ) × (i ≡ from + k)
    × Fits (get_elem? rules k) rule_set type size
    × ((l : ℕ) → l < k → ¬ Fits (get_elem? rules l) rule_set type size)

module _ (rule_set type size : ℕ) where
  none_later :
      (o : Option Rule) (rules : List (Option Rule))
      → ¬ Fits (some o) rule_set type size
      → ((k : ℕ) → ¬ Fits (get_elem? rules k) rule_set type size)
      → (k : ℕ) → ¬ Fits (get_elem? (o ∷ rules) k) rule_set type size
  none_later o rules h f zero = h
  none_later o rules h f (suc k) = f k

  none_before :
      (o : Option Rule) (rules : List (Option Rule)) (k : ℕ)
      → ¬ Fits (some o) rule_set type size
      → ((l : ℕ) → l < k → ¬ Fits (get_elem? rules l) rule_set type size)
      → (l : ℕ) → l < suc k
      → ¬ Fits (get_elem? (o ∷ rules) l) rule_set type size
  none_before o rules k h f zero lt = h
  none_before o rules k h f (suc l) lt = f l (omega arith)

  later :
      (o : Option Rule) (rules : List (Option Rule)) (from : ℕ) (r : Option ℕ)
      → ¬ Fits (some o) rule_set type size
      → IsFirst rules (from + 1) rule_set type size r
      → IsFirst (o ∷ rules) from rule_set type size r
  later o rules from none h f = none_later o rules h f
  later o rules from (some i) h (k, e, fit, first) =
      (suc k, omega arith, fit, none_before o rules k h first)

  find_rule_from-IsFirst :
      (rules : List (Option Rule)) (from : ℕ)
      → IsFirst rules from rule_set type size (find_rule_from rules from rule_set type size)
  unfolding find_rule_from
  find_rule_from-IsFirst [] from = λ k h. h
  find_rule_from-IsFirst (none ∷ rules) from =
      later none rules from _ (λ h. h) (find_rule_from-IsFirst rules (from + 1))
  find_rule_from-IsFirst (some rule ∷ rules) from =
      elim (Bool-cases (mask_matches rule.mask rule_set type size)) [
        | inl hit ↦ rw hit (
          zero,
          omega arith,
          (mask_matches_iff rule rule_set type size).0 hit,
          λ l lt. absurd (omega arith),
        )
        | inr miss ↦ rw miss (
            later (some rule) rules from _
              (λ h. false≢true (sym miss ∙ (mask_matches_iff rule rule_set type size).1 h))
              (find_rule_from-IsFirst rules (from + 1)))
      ]

  -- `crush_find_rule` answers -1 only when no rule of the map fits the ruleset, the type and the
  -- size, and otherwise the number of the first rule that does.
  pub find_rule-IsFirst :
      (map : CrushMap) → IsFirst map.rules 0 rule_set type size (find_rule map rule_set type size)
  unfolding find_rule
  find_rule-IsFirst map = find_rule_from-IsFirst map.rules 0
