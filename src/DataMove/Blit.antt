-- ===== src/DataMove/Blit.antt =====
-- Stores and copies of adjacent ranges join into one.
use many_rvdata.Base.{ℕ, ◌+◌, ◌-◌, ◌≤◌, ◌<◌, ◌≡◌, ◌⊎◌, arith, fun_ext}
use many_rvdata.DataMove.{Mem, Reg, store, blit, Apart}

-- The register of the second store holds what follows in that of the first.
pub store-append :
    (m : Mem) (d a b : ℕ) (r r' : Reg)
    → ((i : ℕ) → r' i ≡ r (a + i))
    → store (store m d a r) (d + a) b r' ≡ store m d (a + b) r
unfolding store
store-append m d a b r r' h = fun_ext λ x. ground (arith, h (x - (d + a)))

-- The same with the address and the count given by equations.
pub store-at :
    (m : Mem) (d a b x c : ℕ) (r r' : Reg)
    → x ≡ d + a
    → c ≡ a + b
    → ((i : ℕ) → r' i ≡ r (a + i))
    → store (store m d a r) x b r' ≡ store m d c r
store-at m d a b x c r r' ex ec h = rw (ex, ec) (store-append m d a b r r' h)

pub store-cong :
    (m : Mem) (d n : ℕ) (r r' : Reg) → ((i : ℕ) → r' i ≡ r i) → store m d n r' ≡ store m d n r
unfolding store
store-cong m d n r r' h = fun_ext λ x. ground (arith, h (x - d))

pub store-zero : (m : Mem) (d : ℕ) (r : Reg) → store m d 0 r ≡ m
unfolding store
store-zero m d r = fun_ext λ x. ground arith

-- Two copies of adjacent ranges are one, where source and target have no byte in common.
pub blit-append :
    (m : Mem) (d s a b n : ℕ)
    → Apart d s n
    → a + b ≤ n
    → blit (blit m d s a) (d + a) (s + a) b ≡ blit m d s (a + b)
unfolding store
blit-append m d s a b n apart le = fun_ext λ x. ground arith

-- The same with the two addresses given by equations.
pub blit-at :
    (m : Mem) (d s n a b x y : ℕ)
    → Apart d s n
    → a + b ≤ n
    → x ≡ d + a
    → y ≡ s + a
    → blit (blit m d s a) x y b ≡ blit m d s (a + b)
blit-at m d s n a b x y apart le ex ey = rw (ex, ey) (blit-append m d s a b n apart le)

pub blit-to :
    (m : Mem) (d s n a b x y c : ℕ)
    → Apart d s n
    → c ≤ n
    → x ≡ d + a
    → y ≡ s + a
    → c ≡ a + b
    → blit (blit m d s a) x y b ≡ blit m d s c
blit-to m d s n a b x y c apart le ex ey ec =
    rw (ex, ey, ec) (blit-append m d s a b n apart (omega arith))

-- `m'` is `m` with the `n` bytes at `s` copied to `d`, and nothing else changed.
abbrev pub Copies : (m m' : Mem) (d s n : ℕ) → Type 0
Copies m m' d s n =
    ((i : ℕ) → i < n → m' (d + i) ≡ m (s + i)) × ((a : ℕ) → (a < d) ⊎ (d + n ≤ a) → m' a ≡ m a)

pub blit-Copies : (m : Mem) (d s n : ℕ) → Copies m (blit m d s n) d s n
unfolding store
blit-Copies m d s n = (λ i lt. ground arith, λ a out. ground arith)

pub Copies-of_eq : (m m' : Mem) (d s n : ℕ) → m' ≡ blit m d s n → Copies m m' d s n
Copies-of_eq m m' d s n e = rw e (blit-Copies m d s n)
