-- ===== src/Base/Text/Laws.antt =====
-- What the searches, slices and trims of texts find, keep and drop.
use Prim.Native.Nat.{ℕ, zero, suc, ◌≤◌}
use mathlib.Core.Path.{◌≡◌, refl, ap, sym, ◌∙◌}
use mathlib.Core.Logic.{inl, inr}
use mathlib.Core.Bool.{true, false}
use mathlib.Core.Option.{none, some}
use mathlib.Core.List.{List, [], ◌∷◌, ◌++◌}
use native.Mathlib.Omega.{arith}
use lamp_light.Base.Tests.{nat_eq, nat_eq_iff, Bool-cases, and-eq-true}
use lamp_light.Base.Lists.{length, take, any, length-append}
use lamp_light.Base.Text.{
  Text, ◌==◌, eq_iff, eq_refl, starts_with, ends_with, has, index_of, is_space, trim, trim_start,
  trim_end, drop_last,
}

pub take_all {ℓ} : {A : Type ℓ} (n : ℕ) (s : List A) → length s ≤ n → take n s ≡ s
take_all zero [] h = refl
take_all zero (a ∷ s) h = absurd (omega arith)
take_all (suc n) [] h = refl
take_all (suc n) (a ∷ s) h = ap (◌∷◌ a) (take_all n s (omega arith))

pub take-append {ℓ} : {A : Type ℓ} (s t : List A) → take (length s) (s ++ t) ≡ s
take-append [] t = refl
take-append (a ∷ s) t = ap (◌∷◌ a) (take-append s t)

-- `(s + p).slice(0, -p.length)` is `s`.
pub drop_last-append : (s p : Text) → drop_last (length p) (s ++ p) ≡ s
drop_last-append s p =
    ap (λ n. take n (s ++ p)) (omega (arith, length-append s p)) ∙ take-append s p

pub starts_with-append : (p s : Text) → starts_with p (p ++ s) ≡ true
unfolding starts_with
starts_with-append [] s = refl
starts_with-append (a ∷ p) s = ground (arith, starts_with-append p s)

-- A text that starts with `p` is `p` and a rest.
pub starts_with-split : (p s : Text) → starts_with p s ≡ true → (t : Text) × (s ≡ p ++ t)
unfolding starts_with
starts_with-split [] s h = (s, refl)
starts_with-split (a ∷ p) [] h = cc
starts_with-split (a ∷ p) (b ∷ s) h =
    let (same, more) = and-eq-true (nat_eq a b) (starts_with p s) h in
    let (t, e) = starts_with-split p s more in (t, cc ((nat_eq_iff a b).0 same, e))

ends_with_self : (p : Text) → ends_with p p ≡ true
unfolding ends_with
ends_with_self [] = refl
ends_with_self (a ∷ p) = ground (arith, eq_refl (a ∷ p))

pub ends_with-append : (p s : Text) → ends_with p (s ++ p) ≡ true
unfolding ends_with
ends_with-append p [] = ends_with_self p
ends_with-append p (a ∷ s) = ground (arith, ends_with-append p s)

-- A text that ends with `p` is something and then `p`.
pub ends_with-split : (p s : Text) → ends_with p s ≡ true → (t : Text) × (s ≡ t ++ p)
unfolding ends_with
ends_with-split p [] h = ([], sym ((eq_iff p []).0 h))
ends_with-split p (a ∷ s) h = elim (Bool-cases (p == (a ∷ s))) [
  | inl whole ↦ ([], sym ((eq_iff p (a ∷ s)).0 whole))
  | inr part ↦
      let later : ends_with p s ≡ true = ground arith in
      let (t, e) = ends_with-split p s later in (a ∷ t, ap (◌∷◌ a) e)
]

pub index_of-none : (c : ℕ) (s : Text) → index_of c s ≡ none → has c s ≡ false
unfolding index_of
index_of-none c [] h = refl
index_of-none c (a ∷ s) h = ground (arith, index_of-none c s)

pub index_of_absent : (c : ℕ) (s : Text) → has c s ≡ false → index_of c s ≡ none
unfolding index_of
index_of_absent c [] h = refl
index_of_absent c (a ∷ s) h = ground (arith, index_of_absent c s)

-- What stands before the first `c` holds no `c`.
pub take-index_of : (c i : ℕ) (s : Text) → index_of c s ≡ some i → has c (take i s) ≡ false
unfolding index_of
take-index_of c i [] h = cc
take-index_of c zero (a ∷ s) h = refl
take-index_of c (suc i) (a ∷ s) h = ground (arith, take-index_of c i s)

pub index_of-append :
    (c : ℕ) (s t : Text) → has c s ≡ false → index_of c (s ++ c ∷ t) ≡ some (length s)
unfolding index_of
index_of-append c [] t h = ground arith
index_of-append c (a ∷ s) t h = ground (arith, index_of-append c s t)

-- Nothing in the text is white space, so `trim` leaves it alone.
trim_end_clean : (s : Text) → any is_space s ≡ false → trim_end s ≡ s
unfolding trim_end
trim_end_clean [] h = refl
trim_end_clean (a ∷ []) h = ground arith
trim_end_clean (a ∷ b ∷ s) h = rw (trim_end_clean (b ∷ s) (ground arith), trim_end) refl

pub trim_clean : (s : Text) → any is_space s ≡ false → trim s ≡ s
unfolding trim trim_start
trim_clean [] h = refl
trim_clean (a ∷ s) h =
    let e : trim_start (a ∷ s) ≡ a ∷ s = ground arith in ap trim_end e ∙ trim_end_clean (a ∷ s) h
