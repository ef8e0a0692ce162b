-- ===== src/Pow/Whitelist.antt =====
-- The default topology is always mineable, and at most one other is (pallets/quantum-pow/src/lib.rs).
pub mod Runs
use quip_validator.Prelude.{
  ℕ, ◌==◌, ◌≡◌, refl, sym, arith, true, false, not, ◌||◌, List, [], ◌∷◌, contains, without,
  contains-without, Option, none, some, is_some, Bool-cases, inl, inr, ◌⊎◌, ==→eq,
}
use mathlib.Core.Path.{subst}
use quip_validator.Pow.Topology.{TopologyMeta}
use quip_validator.Pow.Registry.{State, Event, seed_default, is_default, has_other, deposit_event}

-- Without a default nothing is registered or mineable; otherwise the default is mineable, and two
-- mineable topologies that are not the default are the same one.
abbrev pub Listed : Option ℕ → (ℕ → Option TopologyMeta) → List ℕ → Type 0
Listed none topologies mineable =
    ((h : ℕ) → is_some (topologies h) ≡ false) × ((h : ℕ) → contains h mineable ≡ false)
Listed (some d) topologies mineable =
    (contains d mineable ≡ true)
    × ((a b : ℕ)
        → contains a mineable ≡ true
        → contains b mineable ≡ true
        → (a == d) ≡ false
        → (b == d) ≡ false
        → a ≡ b)

-- And what is mineable is registered.
abbrev pub WellListed : State → Type 0
WellListed s =
    Listed s.default_topology s.registered_topologies s.mineable_topologies
    × ((h : ℕ)
        → contains h s.mineable_topologies ≡ true
        → is_some (s.registered_topologies h) ≡ true)

-- A mineable topology can become the default one.
pub repoint :
    (hash : ℕ) (default : Option ℕ) (s : State)
    → Listed default s.registered_topologies s.mineable_topologies
    → contains hash s.mineable_topologies ≡ true
    → Listed (some hash) s.registered_topologies s.mineable_topologies
repoint hash none s (unregistered, unlisted) listed = absurd (ground (arith, unlisted hash, listed))
repoint hash (some d) s (main, unique) listed = (
  listed,
  λ a b in_a in_b not_a not_b.
      same a b in_a in_b not_a not_b (unique a b in_a in_b) (unique a hash in_a listed)
        (unique b hash in_b listed),
)
  where
    same :
        (a b : ℕ)
        → contains a s.mineable_topologies ≡ true
        → contains b s.mineable_topologies ≡ true
        → (a == hash) ≡ false
        → (b == hash) ≡ false
        → ((a == d) ≡ false → (b == d) ≡ false → a ≡ b)
        → ((a == d) ≡ false → (hash == d) ≡ false → a ≡ hash)
        → ((b == d) ≡ false → (hash == d) ≡ false → b ≡ hash)
        → a ≡ b
    same a b in_a in_b not_a not_b both first second =
        grind (arith, not_a, not_b, both, first, second)

-- Fewer topologies, the default one among them.
pub fewer :
    (default : Option ℕ) (hash : ℕ) (s : State)
    → is_default hash default ≡ false
    → Listed default s.registered_topologies s.mineable_topologies
    → Listed default s.registered_topologies (without hash s.mineable_topologies)
fewer none hash s other (unregistered, unlisted) = (
  unregistered,
  λ h. let gone = contains-without h hash s.mineable_topologies in ground (arith, gone, unlisted h),
)
fewer (some d) hash s other (main, unique) = (
  let kept = contains-without d hash s.mineable_topologies in ground (arith, kept, main, other),
  (λ a b in_a in_b not_a not_b. unique a b (still a in_a) (still b in_b) not_a not_b),
)
  where
    still :
        (a : ℕ)
        → contains a (without hash s.mineable_topologies) ≡ true
        → contains a s.mineable_topologies ≡ true
    still a h = let kept = contains-without a hash s.mineable_topologies in ground (arith, kept, h)

has_other_gives :
    (d : ℕ) (keys : List ℕ) (k : ℕ)
    → has_other (some d) keys ≡ false
    → contains k keys ≡ true
    → (k == d) ≡ true
unfolding has_other
has_other_gives d [] k h in_k = absurd (cc)
has_other_gives d (x ∷ xs) k h in_k = elim (Bool-cases (x == k)) [
  | inl e ↦ let same = ==→eq x k e in ground (arith, h, same)
  | inr e ↦ has_other_gives d xs k (ground (arith, h)) (ground (arith, in_k, e))
]

-- One more topology, when it is the default one or there is no other.
pub one_more :
    (default : Option ℕ) (hash : ℕ) (s : State)
    → is_some (s.registered_topologies hash) ≡ true
    → (is_default hash default || not (has_other default s.mineable_topologies)) ≡ true
    → Listed default s.registered_topologies s.mineable_topologies
    → Listed default s.registered_topologies (hash ∷ s.mineable_topologies)
one_more none hash s registered free (unregistered, unlisted) =
    absurd (ground (arith, registered, unregistered hash))
one_more (some d) hash s registered free (main, unique) = (
  ground (arith, main),
  (λ a b in_a in_b not_a not_b. only a b in_a in_b not_a not_b (Bool-cases (hash == d))),
)
  where
    only :
        (a b : ℕ)
        → contains a (hash ∷ s.mineable_topologies) ≡ true
        → contains b (hash ∷ s.mineable_topologies) ≡ true
        → (a == d) ≡ false
        → (b == d) ≡ false
        → ((hash == d) ≡ true) ⊎ ((hash == d) ≡ false)
        → a ≡ b
    only a b in_a in_b not_a not_b (inl e) =
        unique a b (ground (arith, in_a, not_a, e)) (ground (arith, in_b, not_b, e)) not_a not_b
    only a b in_a in_b not_a not_b (inr e) =
        let none : has_other (some d) s.mineable_topologies ≡ false = ground (arith, free, e) in
        let one = has_other_gives d s.mineable_topologies a none in
        let two = has_other_gives d s.mineable_topologies b none in
        grind (arith, in_a, in_b, not_a, not_b, one, two)

-- The first registered topology, or one beside a default.
pub seeded :
    (hash : ℕ) (e : Event) (default : Option ℕ) (s : State)
    → s.default_topology ≡ default
    → is_some (s.registered_topologies hash) ≡ true
    → ((h : ℕ) → default ≡ none → contains h s.mineable_topologies ≡ false)
    → (default ≡ none ⊎ Listed default s.registered_topologies s.mineable_topologies)
    → ((k : ℕ)
        → contains k s.mineable_topologies ≡ true
        → is_some (s.registered_topologies k) ≡ true)
    → WellListed (deposit_event e (seed_default hash default s))
unfolding seed_default
seeded hash e none s is here unlisted listed known = (
  (
    let new = unlisted hash refl in ground (arith, new),
    (λ a b in_a in_b not_a not_b.
        absurd (ground (arith, in_a, not_a, unlisted a refl, unlisted hash refl))),
  ),
  (λ k in_k. grind (arith, in_k, known k, here, unlisted hash refl)),
)
seeded hash e (some d) s is here unlisted (inl none_is) known = absurd (cc)
seeded hash e (some d) s is here unlisted (inr listed) known =
    (subst (λ x. Listed x s.registered_topologies s.mineable_topologies) (sym is) listed, known)
