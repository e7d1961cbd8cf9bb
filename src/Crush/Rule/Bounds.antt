-- ===== src/Crush/Rule/Bounds.antt =====
-- The size of the result of `crush_do_rule`.
use kmod_ceph.Base.{
  ℕ, zero, suc, ◌+◌, ◌*◌, ◌≤◌, ◌≡◌, ◌∙◌, inl, inr, refl, ap, arith, Bool, true, false, Option, none,
  some, List, [], ◌∷◌, ◌++◌, length, length-append, get_elem?, Bool-cases, if◌then◌else◌, ltb, leb,
  ◌==◌, u32,
}
use kmod_ceph.Base.Int.{ℤ}
use kmod_ceph.Crush.Outcome.{ok}
use kmod_ceph.Crush.Types.{Op, RuleStep, Rule}
use kmod_ceph.Crush.State.{St, pure, ◌>>◌, read, write}
use kmod_ceph.Crush.State.Runs.{bind-eq-ok, pure-eq}
use kmod_ceph.Crush.Rule.{
  Job, RuleState, emit_items, do_choose, choose_each, copy_leaves, do_step, do_steps, run_rule,
  do_rule, first_state,
}

emit_items-le :
    (result_max left i : ℕ) (result : List ℤ) (s : St) (p : List ℤ × St)
    → length result ≤ result_max
    → emit_items result_max left i result s ≡ ok p
    → length p.0 ≤ result_max
unfolding emit_items
emit_items-le result_max zero i result s p h run =
    omega (arith, ap length (pure-eq result s p run).0)
emit_items-le result_max (suc left) i result s p h run =
    elim (Bool-cases (ltb (length result) result_max)) [
      | inl room ↦
          let (q, e, run') =
            bind-eq-ok (read i) (λ v. emit_items result_max left (i + 1) (result ++ v ∷ [])) s p
              (rw room at run) in
          emit_items-le result_max left (i + 1) (result ++ q.0 ∷ []) q.1 p
            (ground (arith, length-append result (q.0 ∷ []))) run'
      | inr full ↦ omega (arith, ap length (pure-eq result s p (rw full at run)).0)
    ]

-- The step leaves the result alone.
abbrev Keeps : RuleState → RuleState × St → Type 0
Keeps s p = p.0.result ≡ s.result

Keeps-pure :
    (s t : RuleState) (st : St) (p : RuleState × St)
    → t.result ≡ s.result
    → pure t st ≡ ok p
    → Keeps s p
Keeps-pure s t st p e run = ap (λ r. r.result) (pure-eq t st p run).0 ∙ e

do_choose-Keeps :
    (j : Job) (s : RuleState) (step : RuleStep) (firstn to_leaf : Bool) (st : St)
    (p : RuleState × St)
    → do_choose j s step firstn to_leaf st ≡ ok p
    → Keeps s p
unfolding do_choose
do_choose-Keeps j s step firstn to_leaf st p run = elim (Bool-cases (s.wsize == 0)) [
  | inl none_yet ↦ Keeps-pure s s st p refl (rw none_yet at run)
  | inr some_items ↦
      let (q, e, run') =
        bind-eq-ok (choose_each j s step firstn to_leaf s.wsize 0 0)
          (λ osize. (do
            (if to_leaf then copy_leaves (j.result_max * 2) s.o osize else pure tt)
            pure (record s { w = s.o; o = s.w; wsize = osize })))
          st p (rw some_items at run) in
      let (u, e', run2) =
        bind-eq-ok (if to_leaf then copy_leaves (j.result_max * 2) s.o q.0 else pure tt)
          (λ z. pure (record s { w = s.o; o = s.w; wsize = q.0 })) q.1 p run' in
      Keeps-pure s (record s { w = s.o; o = s.w; wsize = q.0 }) u.1 p refl run2
]

do_step-le :
    (j : Job) (op : Op) (step : RuleStep) (s : RuleState) (st : St) (p : RuleState × St)
    → length s.result ≤ j.result_max
    → do_step j op step s st ≡ ok p
    → length p.0.result ≤ j.result_max
unfolding do_step
do_step-le j Op.noop step s st p h run = omega (arith, ap length (Keeps-pure s s st p refl run))
do_step-le j Op.take step s st p h run =
    let (q, e, run') =
      bind-eq-ok (write s.w step.arg1) (λ z. pure (record s { wsize = 1 })) st p run in
    omega (arith, ap length (Keeps-pure s (record s { wsize = 1 }) q.1 p refl run'))
do_step-le j Op.choose_firstn step s st p h run =
    omega (arith, ap length (do_choose-Keeps j s step true false st p run))
do_step-le j Op.chooseleaf_firstn step s st p h run =
    omega (arith, ap length (do_choose-Keeps j s step true true st p run))
do_step-le j Op.choose_indep step s st p h run =
    omega (arith, ap length (do_choose-Keeps j s step false false st p run))
do_step-le j Op.chooseleaf_indep step s st p h run =
    omega (arith, ap length (do_choose-Keeps j s step false true st p run))
do_step-le j Op.emit step s st p h run =
    let (q, e, run') =
      bind-eq-ok (emit_items j.result_max s.wsize s.w s.result)
        (λ result. pure (record s { result = result; wsize = 0 })) st p run in
    omega (
      arith,
      ap (λ r. length r.result) (pure-eq (record s { result = q.0; wsize = 0 }) q.1 p run').0,
      emit_items-le j.result_max s.wsize s.w s.result st q h e,
    )
do_step-le j _ step s st p h run = omega (arith, ap length (Keeps-pure s _ st p refl run))

do_steps-le :
    (j : Job) (steps : List RuleStep) (s : RuleState) (st : St) (p : RuleState × St)
    → length s.result ≤ j.result_max
    → do_steps j steps s st ≡ ok p
    → length p.0.result ≤ j.result_max
unfolding do_steps
do_steps-le j [] s st p h run = omega (arith, ap length (Keeps-pure s s st p refl run))
do_steps-le j (step ∷ steps) s st p h run =
    let (q, e, run') = bind-eq-ok (do_step j step.op step s) (λ s'. do_steps j steps s') st p run in
    do_steps-le j steps q.0 q.1 p (do_step-le j step.op step s st q h e) run'

run_rule-le :
    (j : Job) (o : Option (Option Rule)) (st : St) (p : List ℤ × St)
    → run_rule j o st ≡ ok p
    → length p.0 ≤ j.result_max
unfolding run_rule
run_rule-le j none st p run = cc
run_rule-le j (some none) st p run = cc
run_rule-le j (some (some rule)) st p run =
    let (q, e, run') =
      bind-eq-ok (do_steps j rule.steps (first_state j)) (λ s. pure s.result) st p run in
    let kept = do_steps-le j rule.steps (first_state j) st q (omega arith) e in
    omega (arith, kept, ap length (pure-eq q.0.result q.1 p run').0)

-- `crush_do_rule`, when it returns, gives at most result_max items, whatever the steps of the rule
-- are, and none for a rule number outside the map, where it touches nothing.
pub do_rule-le :
    (j : Job) (ruleno : ℕ) (st : St) (p : List ℤ × St)
    → do_rule j ruleno st ≡ ok p
    → (length p.0 ≤ j.result_max) × (j.map.max_rules ≤ u32 ruleno → (p.0 ≡ []) × (p.1 ≡ st))
unfolding do_rule
do_rule-le j ruleno st p run = elim (Bool-cases (leb j.map.max_rules (u32 ruleno))) [
  | inl outside ↦
      let e = pure-eq [] st p (rw outside at run) in (omega (arith, ap length e.0), λ h. (e.0, e.1))
  | inr inside ↦ (
    run_rule-le j (get_elem? j.map.rules ruleno) st p (rw inside at run),
    λ h. absurd (ground arith),
  )
]
