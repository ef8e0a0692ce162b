-- ===== src/Quantum/Energy/Flip.antt =====
-- The global spin flip: the energy does not see it when the fields change sign as well.
use quip_validator.Prelude.{
  ℕ, zero, suc, ◌+◌, ◌*◌, ◌≡◌, refl, ap, arith, true, List, [], ◌∷◌, map, length-map, ◌>>◌, ok_or,
  >>=-cong, ap₂,
}
use quip_validator.Prelude.Int.{ℤ, pos, pos_part, neg_part, sub_ℕ, neg_ℤ, ◌*ℤ◌}
use quip_validator.Quantum.Spins.{is_spin, validate_spins, ensure_valid_spins_iff}
use quip_validator.Quantum.Topology.{TopologyIndex, len, position}
use quip_validator.Quantum.Energy.{
  spin_at, checked_add, validate_shape_lengths, add_fields, add_couplings,
  energy_of_solution_indexed,
}

abbrev pub flip : List ℤ → List ℤ
flip = map neg_ℤ

pub pos_part-neg_ℤ : (a : ℤ) → pos_part (neg_ℤ a) ≡ neg_part a
unfolding neg_ℤ
pos_part-neg_ℤ a = ground arith

pub neg_part-neg_ℤ : (a : ℤ) → neg_part (neg_ℤ a) ≡ pos_part a
unfolding neg_ℤ
neg_part-neg_ℤ a = ground arith

neg_ℤ-sub_ℕ : (a b : ℕ) → neg_ℤ (sub_ℕ a b) ≡ sub_ℕ b a
unfolding neg_ℤ
neg_ℤ-sub_ℕ a b = ground arith

mul-neg_ℤ : (a b : ℤ) → a *ℤ neg_ℤ b ≡ neg_ℤ (a *ℤ b)
unfolding ◌*ℤ◌
mul-neg_ℤ a b =
    rw
      (
        pos_part-neg_ℤ b,
        neg_part-neg_ℤ b,
        neg_ℤ-sub_ℕ (pos_part a * pos_part b + neg_part a * neg_part b),
      )
      refl

neg_ℤ-mul_neg_ℤ : (a b : ℤ) → neg_ℤ a *ℤ neg_ℤ b ≡ a *ℤ b
unfolding ◌*ℤ◌
neg_ℤ-mul_neg_ℤ a b =
    rw (pos_part-neg_ℤ a, neg_part-neg_ℤ a, pos_part-neg_ℤ b, neg_part-neg_ℤ b)
      (ap₂ sub_ℕ (omega arith) (omega arith))

pub spin_at-flip :
    (solution : List ℤ) (p : ℕ) → spin_at (flip solution) p ≡ neg_ℤ (spin_at solution p)
unfolding neg_ℤ
spin_at-flip [] p = refl
spin_at-flip (s ∷ ss) zero = refl
spin_at-flip (s ∷ ss) (suc p) = spin_at-flip ss p

pub validate_spins-flip : (ss : List ℤ) → validate_spins ss ≡ true → validate_spins (flip ss) ≡ true
unfolding validate_spins is_spin neg_ℤ
validate_spins-flip [] h = refl
validate_spins-flip (s ∷ ss) h = ground (arith, validate_spins-flip ss)

add_fields-flip :
    (solution : List ℤ) (p : ℕ) (energy : ℤ) (h : List ℤ)
    → add_fields (flip solution) p energy (flip h) ≡ add_fields solution p energy h
unfolding add_fields
add_fields-flip solution p energy [] = refl
add_fields-flip solution p energy (field ∷ h) =
    rw (spin_at-flip solution p, neg_ℤ-mul_neg_ℤ field (spin_at solution p))
      (>>=-cong (checked_add energy (field *ℤ spin_at solution p))
        (λ e. add_fields-flip solution (suc p) e h))

pair-flip :
    (solution : List ℤ) (c : ℤ) (u v : ℕ)
    → c *ℤ spin_at (flip solution) u *ℤ spin_at (flip solution) v
      ≡ c *ℤ spin_at solution u *ℤ spin_at solution v
pair-flip solution c u v =
    rw (spin_at-flip solution u, spin_at-flip solution v, mul-neg_ℤ c (spin_at solution u))
      (neg_ℤ-mul_neg_ℤ (c *ℤ spin_at solution u) (spin_at solution v))

add_couplings-flip :
    (t : TopologyIndex) (solution : List ℤ) (energy : ℤ) (es : List (ℕ × ℕ)) (js : List ℤ)
    → add_couplings t (flip solution) energy es js ≡ add_couplings t solution energy es js
unfolding add_couplings
add_couplings-flip t solution energy [] js = refl
add_couplings-flip t solution energy (x ∷ es) [] = refl
add_couplings-flip t solution energy (x ∷ es) (c ∷ js) = >>=-cong (ok_or (position x.0 t) _) (λ u.
    >>=-cong (ok_or (position x.1 t) _) (λ v.
      rw (pair-flip solution c u v)
        (>>=-cong (checked_add energy _) (λ e. add_couplings-flip t solution e es js))))

-- For a solution of valid spins: flipping every spin and every field leaves the result as it is.
pub energy_of_solution_indexed-flip :
    (solution h : List ℤ) (edges : List (ℕ × ℕ)) (j : List ℤ) (t : TopologyIndex)
    → validate_spins solution ≡ true
    → energy_of_solution_indexed (flip solution) (flip h) edges j t
      ≡ energy_of_solution_indexed solution h edges j t
unfolding energy_of_solution_indexed validate_shape_lengths
energy_of_solution_indexed-flip solution h edges j t valid =
    rw
      (
        length-map neg_ℤ solution,
        length-map neg_ℤ h,
        (ensure_valid_spins_iff solution).1 valid,
        (ensure_valid_spins_iff (flip solution)).1 (validate_spins-flip solution valid),
        add_fields-flip solution 0 (pos 0) h,
      )
      (ap (◌>>◌ (validate_shape_lengths solution h edges j (len t)))
        (>>=-cong (add_fields solution 0 (pos 0) h) (λ e. add_couplings-flip t solution e edges j)))
