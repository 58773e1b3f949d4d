-- ===== src/Visualizer/Simulation/Wave.antt =====
-- visualizer/src/simulation/gossipEngine.js: what one wave does to `seen` and `nextFrontier`.
use p2p_app.Prelude.{
  ℕ, zero, suc, ◌+◌, ◌≤◌, String, ◌≡◌, refl, Bool, true, false, not, ◌&&◌, ◌||◌, List, [], ◌∷◌,
  contains, contains-append, Distinct, Distinct-snoc, length, length-append, length-take-le, take,
  eqb, if-cases, arith,
}
use p2p_app.Visualizer.Simulation.{
  Progress, Round, neighbours, sample_k, transmission, transmit, transmit_all, targets_of, wave,
}

-- What a sort with a random comparator keeps of the lists that it is given.
pub record Shuffles (shuffle : List String → List String) : Type 0 where
  pub same_members : (xs : List String) (a : String) → contains (shuffle xs) a ≡ contains xs a
  pub same_length : (xs : List String) → length (shuffle xs) ≡ length xs

pub contains-take :
    (n : ℕ) (xs : List String) (a : String) → contains (take n xs) a ≡ true → contains xs a ≡ true
unfolding contains
contains-take zero xs a h = cc
contains-take (suc n) [] a h = cc
contains-take (suc n) (x ∷ xs) a h = ground (arith, contains-take n xs a)

pub take_all : (n : ℕ) (xs : List String) → length xs ≤ n → take n xs ≡ xs
take_all zero [] h = refl
take_all zero (x ∷ xs) h = absurd (omega arith)
take_all (suc n) [] h = refl
take_all (suc n) (x ∷ xs) h = ground (arith, take_all n xs)

-- A sample has members of the list only, no more than asked for, and all of them if there are no
-- more than that.
module _ (shuffle : List String → List String) (law : Shuffles shuffle) (arr : List String)
    (k : ℕ) where
  pub mem-sample_k :
      (a : String) → contains (sample_k shuffle arr k) a ≡ true → contains arr a ≡ true
  unfolding sample_k
  mem-sample_k a h = ground (arith, contains-take k (shuffle arr) a, law.same_members arr a)

  pub sample_k_all :
      length arr ≤ k → (a : String) → contains (sample_k shuffle arr k) a ≡ contains arr a
  unfolding sample_k
  sample_k_all h a =
      ground (arith, take_all k (shuffle arr), law.same_length arr, law.same_members arr a)

-- Some node of the frontier has picked `b`.
unfoldable pub is_picked : Round → List String → String → Bool
is_picked r [] b = false
is_picked r (node ∷ frontier) b = contains (targets_of r node) b || is_picked r frontier b

-- `before` has become `after` when the nodes picked are those of which `picked` is true.
pub record Steps (picked : String → Bool) (before after : Progress) : Type 0 where
  pub seen : (b : String) → contains after.seen b ≡ (contains before.seen b || picked b)
  pub next :
      (b : String)
      → contains after.next b
        ≡ (contains before.next b || (picked b && not (contains before.seen b)))
  pub grown : length after.seen + length before.next ≡ length before.seen + length after.next
  pub paid : length after.seen + length before.events ≤ length before.seen + length after.events
  pub distinct : Distinct before.seen → Distinct after.seen

Steps-refl : (p : Progress) → Steps (λ b. false) p p
Steps-refl p = record {
  seen = λ b. ground arith;
  next = λ b. ground arith;
  grown = omega arith;
  paid = omega arith;
  distinct = λ d. d;
}

Steps-cong :
    {f g : String → Bool} {p q : Progress} → ((b : String) → f b ≡ g b) → Steps f p q → Steps g p q
Steps-cong {f} {g} same_nodes s = record {
  seen = λ b. ground (arith, s.seen b, same_nodes b);
  next = λ b. ground (arith, s.next b, same_nodes b);
  grown = s.grown;
  paid = s.paid;
  distinct = s.distinct;
}

Steps-trans :
    {f g : String → Bool} {p q s : Progress}
    → Steps f p q
    → Steps g q s
    → Steps (λ b. f b || g b) p s
Steps-trans {f} {g} {p} {q} {s} one two = record {
  seen = λ b. ground (arith, one.seen b, two.seen b);
  next = λ b. ground (arith, one.seen b, one.next b, two.next b);
  grown = omega (arith, one.grown, two.grown);
  paid = omega (arith, one.paid, two.paid);
  distinct = λ d. two.distinct (one.distinct d);
}

module _ (r : Round) where
  pub length-targets_of : (node : String) → length (targets_of r node) ≤ r.fanout
  unfolding targets_of sample_k
  length-targets_of node = length-take-le r.fanout (r.shuffle node (neighbours r.adj node))

  transmit-Steps :
      (hop : ℕ) (node : String) (p : Progress) (t : String)
      → Steps (λ b. eqb t b) p (transmit r hop node p t)
  unfolding transmit contains
  transmit-Steps hop node p t =
      let tx = transmission r hop node (length p.events) t in
      if-cases (Steps (λ b. eqb t b) p) (contains p.seen t) _ _
        (λ old. record {
          seen = λ b. ground arith;
          next = λ b. ground arith;
          grown = omega arith;
          paid = omega (arith, length-append p.events (tx ∷ []));
          distinct = λ d. d;
        })
        (λ new. record {
          seen = λ b. ground (arith, contains-append p.seen (t ∷ []) b);
          next = λ b. ground (arith, contains-append p.next (t ∷ []) b);
          grown = omega (arith, length-append p.seen (t ∷ []), length-append p.next (t ∷ []));
          paid = omega (arith, length-append p.events (tx ∷ []), length-append p.seen (t ∷ []));
          distinct = Distinct-snoc p.seen t new;
        })

  transmit_all-Steps :
      (hop : ℕ) (node : String) (p : Progress) (targets : List String)
      → Steps (contains targets) p (transmit_all r hop node p targets)
  unfolding transmit_all contains
  transmit_all-Steps hop node p [] = Steps-refl p
  transmit_all-Steps hop node p (t ∷ targets) =
      Steps-cong (λ b. ground arith)
        (Steps-trans (transmit-Steps hop node p t)
          (transmit_all-Steps hop node (transmit r hop node p t) targets))

  pub wave-Steps :
      (hop : ℕ) (p : Progress) (frontier : List String)
      → Steps (is_picked r frontier) p (wave r hop p frontier)
  unfolding wave is_picked
  wave-Steps hop p [] = Steps-refl p
  wave-Steps hop p (node ∷ frontier) =
      Steps-trans (transmit_all-Steps hop node p (targets_of r node))
        (wave-Steps hop (transmit_all r hop node p (targets_of r node)) frontier)
