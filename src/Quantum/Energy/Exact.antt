-- ===== src/Quantum/Energy/Exact.antt =====
-- The energy is the exact sum of the fields and the couplings, over unbounded integers.
use quip_validator.Prelude.{
  ℕ, suc, ◌≡◌, ap, ◌∙◌, arith, List, [], ◌∷◌, Option, some, ok, ok_or, >>=-eq-ok, >>-eq-ok,
  ok_or-eq-ok,
}
use quip_validator.Prelude.Int.{ℤ, pos, ◌+ℤ◌, ◌*ℤ◌, int_laws}
use quip_validator.Quantum.Spins.{ensure_valid_spins}
use quip_validator.Quantum.Topology.{TopologyIndex, len, position}
use quip_validator.Quantum.Energy.{
  spin_at, checked_add, validate_shape_lengths, add_fields, add_couplings,
  energy_of_solution_indexed,
}

-- The sums of the Ising model, over unbounded integers.
unfoldable pub field_sum : List ℤ → ℕ → List ℤ → ℤ
field_sum solution p [] = pos 0
field_sum solution p (field ∷ h) = field *ℤ spin_at solution p +ℤ field_sum solution (suc p) h

-- An edge with an end that the index does not know contributes nothing here; the code refuses it.
unfoldable pub pair_term : List ℤ → ℤ → Option ℕ → Option ℕ → ℤ
pair_term solution coupling (some u_pos) (some v_pos) =
    coupling *ℤ spin_at solution u_pos *ℤ spin_at solution v_pos
pair_term solution coupling _ _ = pos 0

unfoldable pub coupling_sum : TopologyIndex → List ℤ → List (ℕ × ℕ) → List ℤ → ℤ
coupling_sum t solution [] j = pos 0
coupling_sum t solution (e ∷ es) [] = pos 0
coupling_sum t solution (e ∷ es) (coupling ∷ js) =
    pair_term solution coupling (position e.0 t) (position e.1 t) +ℤ coupling_sum t solution es js

checked_add-exact : (a b : ℤ) {c : ℤ} → checked_add a b ≡ ok c → c ≡ a +ℤ b
unfolding checked_add
checked_add-exact a b h = ground arith

regroup : (a b c : ℤ) → (a +ℤ b) +ℤ c ≡ a +ℤ (b +ℤ c)
regroup a b c = omega int_laws

+ℤ_zero : (a : ℤ) → a +ℤ pos 0 ≡ a
+ℤ_zero a = omega int_laws

regroup_zero : (a b : ℤ) → (pos 0 +ℤ a) +ℤ b ≡ a +ℤ b
regroup_zero a b = omega int_laws

add_fields-exact :
    (solution : List ℤ) (p : ℕ) (energy : ℤ) (h : List ℤ) {e : ℤ}
    → add_fields solution p energy h ≡ ok e
    → e ≡ energy +ℤ field_sum solution p h
unfolding add_fields field_sum
add_fields-exact solution p energy [] r = rw +ℤ_zero (cc)
add_fields-exact solution p energy (field ∷ h) r =
    let (c, added, rest) = >>=-eq-ok (checked_add energy (field *ℤ spin_at solution p)) _ r in
    add_fields-exact solution (suc p) c h rest
    ∙ (ap (λ (x : ℤ). x +ℤ field_sum solution (suc p) h) (checked_add-exact energy _ added)
        ∙ regroup energy _ _)

add_couplings-exact :
    (t : TopologyIndex) (solution : List ℤ) (energy : ℤ) (es : List (ℕ × ℕ)) (js : List ℤ) {e : ℤ}
    → add_couplings t solution energy es js ≡ ok e
    → e ≡ energy +ℤ coupling_sum t solution es js
unfolding add_couplings coupling_sum pair_term
add_couplings-exact t solution energy [] js r = rw +ℤ_zero (cc)
add_couplings-exact t solution energy (x ∷ es) [] r = rw +ℤ_zero (cc)
add_couplings-exact t solution energy (x ∷ es) (coupling ∷ js) r =
    let (u, eu, r1) = >>=-eq-ok (ok_or (position x.0 t) _) _ r in
    let (v, ev, r2) = >>=-eq-ok (ok_or (position x.1 t) _) _ r1 in
    let (c, added, rest) = >>=-eq-ok (checked_add energy _) _ r2 in
    let pu : position x.0 t ≡ some u = ok_or-eq-ok (position x.0 t) _ eu in
    let pv : position x.1 t ≡ some v = ok_or-eq-ok (position x.1 t) _ ev in
    rw (pu, pv)
      (add_couplings-exact t solution c es js rest
        ∙ (ap (λ (y : ℤ). y +ℤ coupling_sum t solution es js) (checked_add-exact energy _ added)
            ∙ regroup energy _ _))

-- An energy that is returned is exactly the Ising sum over unbounded integers: no wrap-around and
-- no lost term.
pub energy_of_solution_indexed-exact :
    (solution h : List ℤ) (edges : List (ℕ × ℕ)) (j : List ℤ) (t : TopologyIndex) {e : ℤ}
    → energy_of_solution_indexed solution h edges j t ≡ ok e
    → e ≡ field_sum solution 0 h +ℤ coupling_sum t solution edges j
unfolding energy_of_solution_indexed
energy_of_solution_indexed-exact solution h edges j t r =
    let scored =
      >>-eq-ok (ensure_valid_spins solution) _
        (>>-eq-ok (validate_shape_lengths solution h edges j (len t)) _ r) in
    let (c, fields, rest) = >>=-eq-ok (add_fields solution 0 (pos 0) h) _ scored in
    add_couplings-exact t solution c edges j rest
    ∙ (ap (λ (x : ℤ). x +ℤ coupling_sum t solution edges j) (add_fields-exact solution 0 _ h fields)
        ∙ regroup_zero _ _)
