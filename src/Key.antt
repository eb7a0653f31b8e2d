-- ===== src/Key.antt =====
-- The macro parameters HASH and EQ of the hash map in inc/ac/meta.h, with what it asks of them:
-- EQ decides whether two keys have the same contents.
use aurora_comms.Base.{ℕ, ◌≡◌, refl, ap, ◌↔◌, Bool, true}

pub record Key {ℓ} (K : Type ℓ) : Type ℓ where
  pub hash : K → ℕ
  pub equal : K → K → Bool
  pub equal_iff : (a b : K) → (equal a b ≡ true) ↔ (a ≡ b)

-- Equal keys may be put for one another on either side of a test.
module _ {ℓ} {K : Type ℓ} ⦃key : Key K⦄ where
  pub equal_refl : (k : K) → key.equal k k ≡ true
  equal_refl k = (key.equal_iff k k).1 refl

  pub equal_left : (a b c : K) → key.equal a b ≡ true → key.equal a c ≡ key.equal b c
  equal_left a b c h = ap (λ x. key.equal x c) ((key.equal_iff a b).0 h)

  pub equal_right : (a b c : K) → key.equal a b ≡ true → key.equal c a ≡ key.equal c b
  equal_right a b c h = ap (key.equal c) ((key.equal_iff a b).0 h)
