-- ===== src/Float.antt =====
-- What the program uses of Go's float64: a few constants, the four operations, `<`, `==` and
-- math.Nextafter towards +Inf. The type is a parameter; Float/Grid.antt has a concrete one.
pub mod Laws
pub mod Between
pub mod Grid
use geometry.Prelude.{ℕ, ◌≡◌, Bool, true, ◌||◌}

pub record Float {ℓ} (F : Type ℓ) : Type ℓ where
  -- the float64 of an untyped integer constant
  pub const : ℕ → F
  pub add : F → F → F
  pub sub : F → F → F
  pub mul : F → F → F
  pub div : F → F → F
  pub less : F → F → Bool
  pub same : F → F → Bool
  pub nan : F
  pub inf : F
  pub neg_inf : F
  -- math.Nextafter(x, math.Inf(1))
  pub next_up : F → F

infixl 65 ◌⊕◌ ◌⊖◌
infixl 70 ◌⊗◌ ◌⊘◌
module _ {ℓ} {F : Type ℓ} ⦃fl : Float F⦄ where
  abbrev pub ◌⊕◌ : F → F → F
  ◌⊕◌ = fl.add

  abbrev pub ◌⊖◌ : F → F → F
  ◌⊖◌ = fl.sub

  abbrev pub ◌⊗◌ : F → F → F
  ◌⊗◌ = fl.mul

  abbrev pub ◌⊘◌ : F → F → F
  ◌⊘◌ = fl.div

  abbrev pub const : ℕ → F
  const = fl.const

  -- a < b
  abbrev pub less : F → F → Bool
  less = fl.less

  -- a == b
  abbrev pub same : F → F → Bool
  same = fl.same

  -- a <= b
  abbrev pub at_most : F → F → Bool
  at_most a b = less a b || same a b

  -- Every value but NaN is == itself.
  abbrev pub IsNumber : F → Type 0
  IsNumber a = same a a ≡ true
