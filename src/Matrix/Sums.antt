-- ===== src/Matrix/Sums.antt =====
-- The sums that the updates of the matrix threads (lab3/2, lab3/3) add up to.
use ncku_operating_system.Base.{
  ℕ, zero, suc, ◌+◌, ◌*◌, ◌%◌, ◌≡◌, Bool, ◌&&◌, List, [], ◌∷◌, ◌++◌, arith, ◌==◌, ltb, leb,
  if◌then◌else◌, u32_mod, ap, ◌∙◌,
}
use ncku_operating_system.Matrix.{Matrix, Update, k_loop, j_loop, i_loop, res_loop}

-- Row `r`, column `c` stands in the loops.
abbrev pub inside : (r c i rows cols : ℕ) → Bool
inside r c i rows cols = leb i r && (ltb r (i + rows) && ltb c cols)

pub wrap : (a b : ℕ) → (a % u32_mod + b) % u32_mod ≡ (a + b) % u32_mod
wrap a b = omega arith

module _ (x y : Matrix) where
  abbrev pub product : Update → ℕ
  product u = x u.i u.k * y u.k u.j

  -- What updates add to the element in row `r` and column `c`.
  abbrev pub added : List Update → (r c : ℕ) → ℕ
  added [] r c = 0
  added (u ∷ us) r c = (if (r == u.i) && (c == u.j) then product u else 0) + added us r c

  -- The part of the scalar product of row `r` and column `c` from `k` on, `n` products.
  unfoldable pub dot : (r c k n : ℕ) → ℕ
  dot r c k zero = 0
  dot r c k (suc n) = x r k * y k c + dot r c (suc k) n

  pub added-append :
      (us vs : List Update) (r c : ℕ) → added (us ++ vs) r c ≡ added us r c + added vs r c
  added-append [] vs r c = omega arith
  added-append (u ∷ us) vs r c = omega (arith, added-append us vs r c)

  pub added-k_loop :
      (r c i j k n : ℕ)
      → added (k_loop i j k n) r c ≡ (if (r == i) && (c == j) then dot r c k n else 0)
  unfolding k_loop dot
  added-k_loop r c i j k zero = ground arith
  added-k_loop r c i j k (suc n) = ground (arith, added-k_loop r c i j (suc k) n)

  pub dot-split : (r c k n m : ℕ) → dot r c k (n + m) ≡ dot r c k n + dot r c (k + n) m
  unfolding dot
  dot-split r c k zero m =
      let whole : 0 + m ≡ m = omega arith in
      let here : k ≡ k + 0 = omega arith in
      omega (arith, ap (λ n. dot r c k n) whole, ap (λ l. dot r c l m) here)
  dot-split r c k (suc n) m =
      let same : suc k + n ≡ k + suc n = omega arith in
      let rounds : suc n + m ≡ suc (n + m) = omega arith in
      omega
        (arith, dot-split r c (suc k) n m, ap (λ l. dot r c l m) same, ap (λ a. dot r c k a) rounds)

  pub res_loop-dot :
      (i j k n res : ℕ) → res_loop x y i j k n (res % u32_mod) ≡ (res + dot i j k n) % u32_mod
  unfolding res_loop dot
  res_loop-dot i j k zero res = ap (λ a. a % u32_mod) (omega arith)
  res_loop-dot i j k (suc n) res =
      ap (λ a. res_loop x y i j (suc k) n a) (wrap res (x i k * y k j))
      ∙ res_loop-dot i j (suc k) n (res + x i k * y k j)
      ∙ ap (λ a. a % u32_mod) (omega arith)

  added-j_loop :
      (r c i j n k m : ℕ)
      → added (j_loop i j n k m) r c
        ≡ (if (r == i) && (leb j c && ltb c (j + n)) then dot r c k m else 0)
  unfolding j_loop
  added-j_loop r c i j zero k m = ground arith
  added-j_loop r c i j (suc n) k m =
      added-append (k_loop i j k m) (j_loop i (suc j) n k m) r c
      ∙ ground (arith, added-k_loop r c i j k m, added-j_loop r c i (suc j) n k m)

  pub added-i_loop :
      (r c i rows cols k m : ℕ)
      → added (i_loop i rows cols k m) r c ≡ (if inside r c i rows cols then dot r c k m else 0)
  unfolding i_loop
  added-i_loop r c i zero cols k m = ground arith
  added-i_loop r c i (suc rows) cols k m =
      added-append (j_loop i 0 cols k m) (i_loop (suc i) rows cols k m) r c
      ∙ ground (arith, added-j_loop r c i 0 cols k m, added-i_loop r c (suc i) rows cols k m)
