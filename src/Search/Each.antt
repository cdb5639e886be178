-- ===== src/Search/Each.antt =====
-- How the specification of a search goes over lists of indices.
use mathlib.Core.Path.{fun_ext}
use geometry.Prelude.{ℕ, ◌≡◌, refl, ap, sym, ◌∙◌, Bool, true, false, List, [], ◌∷◌, ◌++◌}
use geometry.Prelude.Run.{Run, ok, panic, out_of_fuel, ◌>>=◌}
use geometry.Segment.{Segment}
use geometry.Search.{Iter, go_on, each}

module _ {κ} {S : Type κ} where
  pub go_on_assoc :
      (call : Run (S × Bool)) (f g : S → Run (S × Bool))
      → go_on (go_on call f) g ≡ go_on call (λ s. go_on (f s) g)
  go_on_assoc (ok (s, true)) f g = refl
  go_on_assoc (ok (s, false)) f g = refl
  go_on_assoc panic f g = refl
  go_on_assoc out_of_fuel f g = refl

  bind-go_on {ℓ} :
      {A : Type ℓ} (r : Run A) (f : A → Run (S × Bool)) (g : S → Run (S × Bool))
      → go_on (r >>= f) g ≡ (r >>= λ a. go_on (f a) g)
  bind-go_on (ok a) f g = refl
  bind-go_on panic f g = refl
  bind-go_on out_of_fuel f g = refl

  -- a call that does nothing more when it goes on
  pub go_on-ok : (call : Run (S × Bool)) → go_on call (λ s. ok (s, true)) ≡ call
  go_on-ok (ok (s, true)) = refl
  go_on-ok (ok (s, false)) = refl
  go_on-ok panic = refl
  go_on-ok out_of_fuel = refl

  pub each-append {ℓ} :
      {F : Type ℓ} (at : ℕ → Run (Segment F)) (iter : Iter F S) (xs ys : List ℕ) (s : S)
      → each at iter (xs ++ ys) s ≡ go_on (each at iter xs s) (each at iter ys)
  unfolding each
  each-append at iter [] ys s = refl
  each-append {F} at iter (x ∷ xs) ys s =
      let rest = λ (t : S). each-append at iter xs ys t in
      let step = λ (g : Segment F).
        ap (go_on (iter s g x)) (fun_ext rest)
        ∙ sym (go_on_assoc (iter s g x) (each at iter xs) (each at iter ys)) in
      ap (λ f. at x >>= f) (fun_ext step) ∙ sym (bind-go_on (at x) _ (each at iter ys))
