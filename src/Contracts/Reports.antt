-- ===== src/Contracts/Reports.antt =====
-- When a loop that reports violations reports none.
use mathlib.Core.Path.{subst}
use ajit_segment_bots.Contracts.Rules.{Violation, report_each, report_if, report_wires}
use ajit_segment_bots.Prelude.{
  String, Bool, ◌++◌, Bool-cases, List, [], arith, contains, eq_iff, false, inl, inr, refl, str_eq,
  str_eq_refl, true, ◌↔◌, ◌∷◌, ◌≡◌,
}

pub append-eq-nil_iff {ℓ} :
    {A : Type ℓ} (xs ys : List A) → (xs ++ ys ≡ []) ↔ ((xs ≡ []) × (ys ≡ []))
append-eq-nil_iff [] ys = ((λ h. (refl, h)), λ h. h.1)
append-eq-nil_iff (x ∷ xs) ys =
    ((λ h. absurd (ground (arith, h))), λ h. absurd (ground (arith, h.0)))

pub report_if-nil_iff : (b : Bool) (v : Violation) → (report_if b v ≡ []) ↔ (b ≡ false)
report_if-nil_iff b v = ground arith

-- Every member of a list of texts passes.
abbrev pub Each : (String → Type 0) → List String → Type 0
Each P xs = (x : String) → contains xs x ≡ true → P x

pub Each-cons :
    (P : String → Type 0) (x : String) (xs : List String) → P x → Each P xs → Each P (x ∷ xs)
unfolding contains
Each-cons P x xs h hs y c = elim (Bool-cases (str_eq x y)) [
  | inl e ↦ subst P ((eq_iff x y).0 e) h
  | inr e ↦ hs y (ground (arith, e, c))
]

pub Each-head : (P : String → Type 0) (x : String) (xs : List String) → Each P (x ∷ xs) → P x
unfolding contains
Each-head P x xs h = h x (ground (arith, str_eq_refl x))

pub Each-tail : (P : String → Type 0) (x : String) (xs : List String) → Each P (x ∷ xs) → Each P xs
unfolding contains
Each-tail P x xs h y c = h y (ground (arith, c))

pub report_each-nil :
    (fails : String → Bool) (v : String → Violation) (xs : List String)
    → report_each fails v xs ≡ []
    → Each (λ x. fails x ≡ false) xs
unfolding report_each contains
report_each-nil fails v [] h = λ y c. absurd (cc c)
report_each-nil fails v (x ∷ xs) h =
    Each-cons (λ y. fails y ≡ false) x xs (ground arith) (report_each-nil fails v xs (ground arith))

pub nil-report_each :
    (fails : String → Bool) (v : String → Violation) (xs : List String)
    → Each (λ x. fails x ≡ false) xs
    → report_each fails v xs ≡ []
unfolding report_each
nil-report_each fails v [] h = refl
nil-report_each fails v (x ∷ xs) h = ground (
  arith,
  Each-head (λ y. fails y ≡ false) x xs h,
  nil-report_each fails v xs (Each-tail (λ y. fails y ≡ false) x xs h),
)

module _ (known supplied : List String) (undeclared loose : String → Violation) where
  pub report_wires-nil :
      (xs : List String)
      → report_wires known supplied undeclared loose xs ≡ []
      → Each (λ t. (contains known t ≡ true) × (contains supplied t ≡ true)) xs
  unfolding report_wires contains
  report_wires-nil [] h = λ y c. absurd (cc c)
  report_wires-nil (x ∷ xs) h =
      Each-cons (λ t. (contains known t ≡ true) × (contains supplied t ≡ true)) x xs
        (ground arith, ground arith) (report_wires-nil xs (ground arith))

  pub nil-report_wires :
      (xs : List String)
      → Each (λ t. (contains known t ≡ true) × (contains supplied t ≡ true)) xs
      → report_wires known supplied undeclared loose xs ≡ []
  unfolding report_wires
  nil-report_wires [] h = refl
  nil-report_wires (x ∷ xs) h =
      let hx = Each-head (λ t. (contains known t ≡ true) × (contains supplied t ≡ true)) x xs h in
      ground (
        arith,
        hx,
        nil-report_wires xs
            (Each-tail (λ t. (contains known t ≡ true) × (contains supplied t ≡ true)) x xs h),
      )
