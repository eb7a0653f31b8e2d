-- ===== src/App/Memory.antt =====
-- The user objects of inc/ac/app.h on the heap: reads and writes through pointers.
use aurora_comms.App.{App, User, load, store, malloc_user, free_user, read_user}
use aurora_comms.Base.{
  ℕ, zero, suc, ◌≡◌, ◌≢◌, refl, ap, List, [], ◌∷◌, ◌++◌, Option, none, some, get_elem?, set, length,
  ok, ok_inj, arith, fault, use_after_free, Returns,
}

get_elem?-set :
    {A : Type 0} (xs : List A) (i : ℕ) (x y : A)
    → get_elem? xs i ≡ some x
    → get_elem? (set xs i y) i ≡ some y
get_elem?-set [] i x y h = absurd (ground arith)
get_elem?-set (z ∷ xs) zero x y h = refl
get_elem?-set (z ∷ xs) (suc i) x y h = get_elem?-set xs i x y h

get_elem?-set_apart :
    {A : Type 0} (xs : List A) (i j : ℕ) (y : A) → i ≢ j → get_elem? (set xs i y) j ≡ get_elem? xs j
get_elem?-set_apart [] i j y h = refl
get_elem?-set_apart (z ∷ xs) zero zero y h = absurd (h refl)
get_elem?-set_apart (z ∷ xs) zero (suc j) y h = refl
get_elem?-set_apart (z ∷ xs) (suc i) zero y h = refl
get_elem?-set_apart (z ∷ xs) (suc i) (suc j) y h = get_elem?-set_apart xs i j y (λ e. h (ap suc e))

get_elem?-snoc : {A : Type 0} (xs : List A) (x : A) → get_elem? (xs ++ x ∷ []) (length xs) ≡ some x
get_elem?-snoc [] x = refl
get_elem?-snoc (y ∷ xs) x = get_elem?-snoc xs x

read_user-known : (r : Option (Option User)) (u : User) → read_user r ≡ ok u → r ≡ some (some u)
unfolding read_user
read_user-known none u h = absurd (ground arith)
read_user-known (some none) u h = absurd (ground arith)
read_user-known (some (some v)) u h = ap (λ w. some (some w)) (ok_inj h)

abbrev pub with_user : App → ℕ → Option User → App
with_user app p u = record app { heap = set app.heap p u }

module _ (app : App) (p : ℕ) (u : User) (known : load app p ≡ ok u) where
  slot_of : get_elem? app.heap p ≡ some (some u)
  unfolding load
  slot_of = read_user-known (get_elem? app.heap p) u known

  -- What is written through a pointer is read through it, and through no other pointer.
  pub load-store :
      (v : User)
      → let r = with_user app p (some v) in
        (store app p v ≡ ok r) × (load r p ≡ ok v) × ((q : ℕ) → p ≢ q → load r q ≡ load app q)
  unfolding store load read_user
  load-store v = (
    rw (known, store),
    ap read_user (get_elem?-set app.heap p (some u) (some v) slot_of),
    λ q apart. ap read_user (get_elem?-set_apart app.heap p q (some v) apart),
  )

  -- A read through the pointer to a freed user is a read of freed memory.
  pub load-free_user :
      Returns
        (free_user app p)
        λ r. (load r p ≡ fault use_after_free) × ((q : ℕ) → p ≢ q → load r q ≡ load app q)
  unfolding free_user load read_user
  load-free_user = (
    with_user app p none,
    rw (known, free_user),
    (
      ap read_user (get_elem?-set app.heap p (some u) none slot_of),
      λ q apart. ap read_user (get_elem?-set_apart app.heap p q none apart),
    ),
  )

-- The pointer that a new object gets reads it.
pub load-malloc_user : (app : App) (u : User) → let (r, p) = malloc_user app u in load r p ≡ ok u
unfolding malloc_user load read_user
load-malloc_user app u = ap read_user (get_elem?-snoc app.heap (some u))
