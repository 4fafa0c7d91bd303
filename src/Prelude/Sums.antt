-- ===== src/Prelude/Sums.antt =====
-- The laws of exact sums that follow from those of `ExactSums`.
use mathlib.Core.Path.{◌≡◌, sym, ap, ◌∙◌}
use feldspar.Prelude.Float.{FloatOps, ExactSums}

module _ {F : Type 0} ⦃o : FloatOps F⦄ (x : ExactSums F o) where
  pub zero_add : (a : F) → o.add o.zero a ≡ a
  zero_add a = x.add_comm o.zero a ∙ x.add_zero a

  pub add_swap : (a b c : F) → o.add (o.add a b) c ≡ o.add (o.add a c) b
  add_swap a b c = x.add_assoc a b c ∙ ap (o.add a) (x.add_comm b c) ∙ sym (x.add_assoc a c b)

  pub add_cancel : (a b c : F) → o.add a c ≡ o.add b c → a ≡ b
  add_cancel a b c h = sym (undo a) ∙ ap (λ t. o.add t (o.neg c)) h ∙ undo b
    where
      undo : (d : F) → o.add (o.add d c) (o.neg c) ≡ d
      undo d = x.add_assoc d c (o.neg c) ∙ ap (o.add d) (x.add_neg c) ∙ x.add_zero d

  pub neg_zero : o.neg o.zero ≡ o.zero
  neg_zero = sym (zero_add (o.neg o.zero)) ∙ x.add_neg o.zero

  pub neg_add_self : (a : F) → o.add (o.neg a) a ≡ o.zero
  neg_add_self a = x.add_comm (o.neg a) a ∙ x.add_neg a

  pub neg_neg : (a : F) → o.neg (o.neg a) ≡ a
  neg_neg a = add_cancel (o.neg (o.neg a)) a (o.neg a) (neg_add_self (o.neg a) ∙ sym (x.add_neg a))

  pub neg_add : (a b : F) → o.neg (o.add a b) ≡ o.add (o.neg a) (o.neg b)
  neg_add a b =
      add_cancel (o.neg (o.add a b)) (o.add (o.neg a) (o.neg b)) (o.add a b)
        (neg_add_self (o.add a b) ∙ sym both)
    where
      both : o.add (o.add (o.neg a) (o.neg b)) (o.add a b) ≡ o.zero
      both =
          sym (x.add_assoc (o.add (o.neg a) (o.neg b)) a b)
          ∙ ap (λ t. o.add t b)
              (add_swap (o.neg a) (o.neg b) a ∙ ap (λ t. o.add t (o.neg b)) (neg_add_self a))
          ∙ ap (λ t. o.add t b) (zero_add (o.neg b))
          ∙ neg_add_self b
