-- ===== src/Por/Digits.antt =====
-- `big.Int` as the signature functions use it: `SetBytes` reads bytes with the highest one first, and
-- `Bytes` gives them back without zeros in front.
use open_acn.Base.{
  ℕ, zero, suc, ◌+◌, ◌*◌, ◌/◌, ◌%◌, ◌^◌, ◌≤◌, ◌<◌, ◌≡◌, refl, sym, ap, ◌∙◌, inl, inr, [], ◌∷◌, ◌++◌,
  append-nil, arith, Bool-cases, if◌then◌else◌, ◌==◌, length, replicate, All,
}
use open_acn.Wire.Word.{Bytes}

unfoldable pub set_bytes_from : ℕ → Bytes → ℕ
set_bytes_from n [] = n
set_bytes_from n (b ∷ bs) = set_bytes_from (n * 256 + b) bs

unfoldable pub set_bytes : Bytes → ℕ
unfolding set_bytes_from
set_bytes bs = set_bytes_from 0 bs

-- The digits of `n` in front of `acc`; as much fuel as the number is enough.
unfoldable pub digits : ℕ → ℕ → Bytes → Bytes
digits zero n acc = acc
digits (suc fuel) n acc =
    let rest = digits fuel (n / 256) (n % 256 ∷ acc) in if n == 0 then acc else rest

unfoldable pub int_bytes : ℕ → Bytes
unfolding digits
int_bytes n = digits n n []

-- The value of digits with the lowest one first.
low_first : Bytes → ℕ
low_first [] = 0
low_first (b ∷ bs) = b + 256 * low_first bs

rev_onto : Bytes → Bytes → Bytes
rev_onto [] acc = acc
rev_onto (b ∷ bs) acc = rev_onto bs (b ∷ acc)

set_bytes_from-low_first :
    (xs bs : Bytes) → set_bytes_from (low_first xs) bs ≡ low_first (rev_onto bs xs)
unfolding set_bytes_from low_first rev_onto
set_bytes_from-low_first xs [] = refl
set_bytes_from-low_first xs (b ∷ bs) =
    ap (λ n. set_bytes_from n bs) (shifted (low_first xs)) ∙ set_bytes_from-low_first (b ∷ xs) bs
  where
    shifted : (n : ℕ) → n * 256 + b ≡ b + 256 * n
    shifted n = omega arith

rev_onto-rev_onto : (bs xs ys : Bytes) → rev_onto (rev_onto bs xs) ys ≡ rev_onto xs (bs ++ ys)
unfolding rev_onto
rev_onto-rev_onto [] xs ys = refl
rev_onto-rev_onto (b ∷ bs) xs ys = rev_onto-rev_onto bs (b ∷ xs) ys

replicate-cons : (n : ℕ) (acc : Bytes) → replicate n 0 ++ (0 ∷ acc) ≡ 0 ∷ (replicate n 0 ++ acc)
replicate-cons zero acc = refl
replicate-cons (suc n) acc = ap (λ l. 0 ∷ l) (replicate-cons n acc)

zeros : (xs acc : Bytes) → low_first xs ≡ 0 → replicate (length xs) 0 ++ acc ≡ rev_onto xs acc
unfolding low_first rev_onto
zeros [] acc h = refl
zeros (b ∷ bs) acc h =
    let b_zero : b ≡ 0 = omega arith in
    let rest : low_first bs ≡ 0 = omega arith in
    rw b_zero (sym (replicate-cons (length bs) acc) ∙ zeros bs (0 ∷ acc) rest)

-- The digits are those that were read, without some zeros in front.
digits-low_first :
    (fuel : ℕ) (xs acc : Bytes)
    → low_first xs ≤ fuel
    → All (λ b. b < 256) xs
    → (k : ℕ) × (replicate k 0 ++ digits fuel (low_first xs) acc ≡ rev_onto xs acc)
unfolding digits low_first rev_onto
digits-low_first zero xs acc h all = (length xs, zeros xs acc (omega arith))
digits-low_first (suc fuel) [] acc h all = (0, refl)
digits-low_first (suc fuel) (b ∷ bs) acc h all = elim (Bool-cases (b + 256 * low_first bs == 0)) [
  | inl e ↦ rw e (suc (length bs), zeros (b ∷ bs) acc (ground arith))
  | inr e ↦
      let small : b < 256 = all.0 in
      let q : (b + 256 * low_first bs) / 256 ≡ low_first bs = omega arith in
      let r : (b + 256 * low_first bs) % 256 ≡ b = omega arith in
      rw (e, q, r) (digits-low_first fuel bs (b ∷ acc) (ground arith) all.1)
]

All-rev_onto :
    (xs acc : Bytes)
    → All (λ b. b < 256) xs
    → All (λ b. b < 256) acc
    → All (λ b. b < 256) (rev_onto xs acc)
unfolding rev_onto
All-rev_onto [] acc h k = k
All-rev_onto (b ∷ bs) acc h k = All-rev_onto bs (b ∷ acc) h.1 (h.0, k)

-- What `Bytes` gives of the number that `SetBytes` read is what was read, but for zeros in front.
pub int_bytes-set_bytes :
    (bs : Bytes)
    → All (λ b. b < 256) bs
    → (k : ℕ) × (replicate k 0 ++ int_bytes (set_bytes bs) ≡ bs)
unfolding int_bytes set_bytes low_first rev_onto
int_bytes-set_bytes bs h =
    let low : set_bytes_from 0 bs ≡ low_first (rev_onto bs []) = set_bytes_from-low_first [] bs in
    let (k, e) =
      digits-low_first (low_first (rev_onto bs [])) (rev_onto bs []) [] le_refl
        (All-rev_onto bs [] h tt) in
    (k, rw low (e ∙ rev_onto-rev_onto bs [] [] ∙ append-nil bs))
  where
    le_refl : low_first (rev_onto bs []) ≤ low_first (rev_onto bs [])
    le_refl = omega arith

set_bytes_from-digits :
    (fuel n : ℕ) (acc : Bytes)
    → n ≤ fuel
    → set_bytes_from 0 (digits fuel n acc) ≡ set_bytes_from n acc
unfolding digits set_bytes_from
set_bytes_from-digits zero n acc h = let e : n ≡ 0 = omega arith in rw e
set_bytes_from-digits (suc fuel) n acc h = elim (Bool-cases (n == 0)) [
  | inl e ↦ let z : n ≡ 0 = ground arith in rw e (ap (λ m. set_bytes_from m acc) (sym z))
  | inr e ↦
      let back : n / 256 * 256 + n % 256 ≡ n = omega arith in
      rw e (
        set_bytes_from-digits fuel (n / 256) (n % 256 ∷ acc) (ground arith)
        ∙ ap (λ m. set_bytes_from m acc) back)
]

-- `SetBytes` reads what `Bytes` gave, also behind zeros.
pub set_bytes-int_bytes : (k n : ℕ) → set_bytes (replicate k 0 ++ int_bytes n) ≡ n
unfolding set_bytes int_bytes set_bytes_from
set_bytes-int_bytes zero n = set_bytes_from-digits n n [] (le_refl n)
  where
    le_refl : (a : ℕ) → a ≤ a
    le_refl a = omega arith
set_bytes-int_bytes (suc k) n = set_bytes-int_bytes k n

length-digits :
    (k fuel n : ℕ) (acc : Bytes) → n < 256 ^ k → length (digits fuel n acc) ≤ k + length acc
unfolding digits
length-digits k zero n acc h = omega arith
length-digits zero (suc fuel) n acc h = let e : n ≡ 0 = omega arith in rw e (omega arith)
length-digits (suc k) (suc fuel) n acc h = elim (Bool-cases (n == 0)) [
  | inl e ↦ rw e (omega arith)
  | inr e ↦ rw e (omega (arith, length-digits k fuel (n / 256) (n % 256 ∷ acc) (below n h)))
]
  where
    below : (m : ℕ) → m < 256 ^ suc k → m / 256 < 256 ^ k
    below m p = omega arith

pub length-int_bytes : (k n : ℕ) → n < 256 ^ k → length (int_bytes n) ≤ k
unfolding int_bytes
length-int_bytes k n h = omega (arith, length-digits k n n [] h)
