-- ===== src/Security/KeyPairs/Init.antt =====
-- security/keyManager.js: which keys a start has, and what a restart finds.
use p2p_app.Prelude.{
  ℕ, zero, suc, ◌≤◌, ◌≡◌, refl, sym, ap, ◌∙◌, true, false, ◌⊎◌, [], ◌∷◌, append-nil, none, some,
  inl, inr, Option-cases, length, take, drop, if-cases, arith,
}
use p2p_app.Security.Sodium.{Buffer, Sodium}
use p2p_app.Security.KeyPairs.{
  KeyPairs, Disk, Access, Started, alloc, copy_into, new_manager, load, generate, init,
}

length-alloc : (n : ℕ) → length (alloc n) ≡ n
unfolding alloc
length-alloc zero = refl
length-alloc (suc n) = omega (arith, length-alloc n)

take_exact : (xs : Buffer) → take (length xs) xs ≡ xs
take_exact [] = refl
take_exact (x ∷ xs) = ground (arith, take_exact xs)

drop_all : (n : ℕ) (xs : Buffer) → length xs ≤ n → drop n xs ≡ []
drop_all zero [] h = refl
drop_all zero (x ∷ xs) h = absurd (omega arith)
drop_all (suc n) [] h = refl
drop_all (suc n) (x ∷ xs) h = drop_all n xs (omega arith)

-- A key of the right size is copied whole.
copy_into_exact :
    (saved target : Buffer) → length saved ≡ length target → copy_into saved target ≡ saved
unfolding copy_into
copy_into_exact saved target e =
    rw (← e, take_exact, drop_all (length saved) target (omega (arith, e))) (append-nil saved)

-- A copy leaves the size of the target as it was.
length-copy_into : (saved target : Buffer) → length (copy_into saved target) ≡ length target
unfolding copy_into
length-copy_into [] [] = refl
length-copy_into [] (y ∷ target) = refl
length-copy_into (x ∷ saved) [] = refl
length-copy_into (x ∷ saved) (y ∷ target) = omega (arith, length-copy_into saved target)

-- The public keys belong to the secret ones, which have the right sizes.
pub record IsPaired (l : Sodium) (k : KeyPairs) : Type 0 where
  pub sign_pair : k.sign_public_key ≡ l.sign_ed25519_sk_to_pk k.sign_secret_key
  pub box_pair : k.box_public_key ≡ l.scalarmult_base k.box_secret_key
  pub sign_size : length k.sign_secret_key ≡ l.sign_secret_key_bytes
  pub box_size : length k.box_secret_key ≡ l.box_secret_key_bytes

module _ (l : Sodium) where
  load-IsPaired :
      (saved_sign saved_box : Buffer) → IsPaired l (load l (new_manager l) saved_sign saved_box)
  unfolding load new_manager
  load-IsPaired saved_sign saved_box = record {
    sign_pair = refl;
    box_pair = refl;
    sign_size = omega (
      arith,
      length-copy_into saved_sign (alloc l.sign_secret_key_bytes),
      length-alloc l.sign_secret_key_bytes,
    );
    box_size = omega (
      arith,
      length-copy_into saved_box (alloc l.box_secret_key_bytes),
      length-alloc l.box_secret_key_bytes,
    );
  }

  -- Keys that were saved whole are loaded as they were.
  load_saved :
      (k : KeyPairs) → IsPaired l k → load l (new_manager l) k.sign_secret_key k.box_secret_key ≡ k
  unfolding load new_manager
  load_saved k p = ground (
    arith,
    copy_into_exact k.sign_secret_key (alloc l.sign_secret_key_bytes),
    copy_into_exact k.box_secret_key (alloc l.box_secret_key_bytes),
    length-alloc l.sign_secret_key_bytes,
    length-alloc l.box_secret_key_bytes,
  )

  -- A start that does not throw has loaded both files, or has new keys and has saved them.
  data Ready (fresh : KeyPairs) (r : Started) : Type 0 where
    loaded :
        (a b : Buffer)
        → r.disk.sign_file ≡ some a
        → r.disk.box_file ≡ some b
        → r.keys ≡ load l (new_manager l) a b
        → Ready fresh r
    generated :
        r.disk.sign_file ≡ some fresh.sign_secret_key
        → r.disk.box_file ≡ some fresh.box_secret_key
        → r.keys ≡ fresh
        → Ready fresh r

  abbrev IsFine : KeyPairs → Started → Type 0
  IsFine fresh r = r.throws ≡ false → Ready fresh r

  generate-IsFine :
      (fresh : KeyPairs) (access : Access) (disk : Disk)
      → IsFine fresh (generate l fresh access disk)
  unfolding generate
  generate-IsFine fresh access disk =
      if-cases (IsFine fresh) access.write_sign _ _
        (λ one.
          if-cases (IsFine fresh) access.write_box _ _ (λ two _. generated refl refl refl)
            (λ two bad. absurd (cc bad)))
        (λ one bad. absurd (cc bad))

  init-IsFine :
      (fresh : KeyPairs) (access : Access) (disk : Disk)
      → IsFine fresh (init l (new_manager l) fresh access disk)
  unfolding init
  init-IsFine fresh access disk =
      if-cases (IsFine fresh) access.mkdir _ _
        (λ made. elim (Option-cases disk.sign_file) [
          | inl e ↦ rw e (generate-IsFine fresh access disk)
          | inr (a, e) ↦ elim (Option-cases disk.box_file) [
            | inl f ↦ rw (e, f) (generate-IsFine fresh access disk)
            | inr (b, f) ↦ rw (e, f) (λ _. loaded a b e f refl)
          ]
        ])
        (λ made bad. absurd (cc bad))

  -- A start that does not throw has pairs of keys of the right sizes, whatever the files held, when
  -- libsodium generates such pairs.
  pub init-IsPaired :
      (fresh : KeyPairs) (access : Access) (disk : Disk)
      → IsPaired l fresh
      → (init l (new_manager l) fresh access disk).throws ≡ false
      → IsPaired l (init l (new_manager l) fresh access disk).keys
  init-IsPaired fresh access disk paired fine = elim (init-IsFine fresh access disk fine) [
    | loaded a b e f g ↦ rw g (load-IsPaired a b)
    | generated e f g ↦ rw g paired
  ]

  init_readable :
      (k other : KeyPairs) (again : Access) (disk : Disk) (a b : Buffer)
      → again.mkdir ≡ true
      → disk.sign_file ≡ some a
      → disk.box_file ≡ some b
      → init l k other again disk ≡ record { keys = load l k a b; disk = disk; throws = false }
  unfolding init
  init_readable k other again disk a b made e f = ground arith

  -- After a start that does not throw, a restart with the same files has the same keys, whatever keys
  -- libsodium would generate then: the node keeps its identity.
  pub init-init :
      (fresh other : KeyPairs) (access again : Access) (disk : Disk)
      → IsPaired l fresh
      → again.mkdir ≡ true
      → (init l (new_manager l) fresh access disk).throws ≡ false
      → let first = init l (new_manager l) fresh access disk in
        init l (new_manager l) other again first.disk
        ≡ record { keys = first.keys; disk = first.disk; throws = false }
  init-init fresh other access again disk paired made fine =
      let first = init l (new_manager l) fresh access disk in
      let same_disk : KeyPairs → Started =
        λ k. record { keys = k; disk = first.disk; throws = false } in
      elim (init-IsFine fresh access disk fine) [
        | loaded a b e f g ↦
            init_readable _ other again first.disk a b made e f ∙ ap same_disk (sym g)
        | generated e f g ↦
            init_readable _ other again first.disk _ _ made e f
            ∙ ap same_disk (load_saved fresh paired ∙ sym g)
      ]

  -- When one of the two files cannot be read, both key pairs are replaced, and a key that could be
  -- read is overwritten.
  pub init_one_unreadable :
      (fresh : KeyPairs) (disk : Disk) (access : Access)
      → access ≡ record { mkdir = true; write_sign = true; write_box = true }
      → (disk.sign_file ≡ none) ⊎ (disk.box_file ≡ none)
      → let r = init l (new_manager l) fresh access disk in
        (r.keys ≡ fresh)
        × (r.disk.sign_file ≡ some fresh.sign_secret_key)
        × (r.disk.box_file ≡ some fresh.box_secret_key)
        × (r.throws ≡ false)
  unfolding init generate
  init_one_unreadable fresh disk access all missing = ground arith
