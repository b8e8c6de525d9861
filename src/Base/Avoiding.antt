-- ===== src/Base/Avoiding.antt =====
-- Lists of bytes without a certain byte.
use dread.Base.{ℕ, zero, suc, ◌≢◌, List, [], ◌∷◌, ◌++◌, set, replicate}

-- No byte is this one.
unfoldable pub Avoids : ℕ → List ℕ → Type 0
Avoids h [] = Unit {0}
Avoids h (x ∷ xs) = (x ≢ h) × Avoids h xs

pub Avoids-append : (h : ℕ) (xs ys : List ℕ) → Avoids h xs → Avoids h ys → Avoids h (xs ++ ys)
unfolding Avoids
Avoids-append h [] ys a b = b
Avoids-append h (x ∷ xs) ys a b = (a.0, Avoids-append h xs ys a.1 b)

pub Avoids-front : (h : ℕ) (xs ys : List ℕ) → Avoids h (xs ++ ys) → Avoids h xs
unfolding Avoids
Avoids-front h [] ys a = tt
Avoids-front h (x ∷ xs) ys a = (a.0, Avoids-front h xs ys a.1)

pub Avoids-set : (h : ℕ) (xs : List ℕ) (i b : ℕ) → Avoids h xs → b ≢ h → Avoids h (set xs i b)
unfolding Avoids
Avoids-set h [] i b a n = tt
Avoids-set h (x ∷ xs) zero b a n = (n, a.1)
Avoids-set h (x ∷ xs) (suc i) b a n = (a.0, Avoids-set h xs i b a.1 n)

pub Avoids-replicate : (h n b : ℕ) → b ≢ h → Avoids h (replicate n b)
unfolding Avoids
Avoids-replicate h zero b e = tt
Avoids-replicate h (suc n) b e = (e, Avoids-replicate h n b e)
