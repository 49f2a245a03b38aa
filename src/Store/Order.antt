-- ===== src/Store/Order.antt =====
-- Keys and times of rows: the order in which they were inserted is the order of the window.
use mathlib.Core.Path.{subst}
use ajit_segment_bots.Prelude.{
  ◌++◌, ◌<◌, All, Bool, Bool-cases, List, [], ap, arith, inl, inr, keep_if, refl, sym, ℕ, ◌∙◌, ◌∷◌,
  ◌≡◌, ◌≤◌,
}
use ajit_segment_bots.Store.{JournalEntry, next_key, insert_entry, order_entries, precedes}
use mathlib.Core.List.{reverse-cons, reverse}

All-map {ℓ} :
    {A : Type ℓ} {P Q : A → Type 0} (xs : List A) → ((x : A) → P x → Q x) → All P xs → All Q xs
All-map [] f h = tt
All-map (x ∷ xs) f h = (f x h.0, All-map xs f h.1)

-- Each new key is greater than those before.
pub next_key_greater : (ks : List ℕ) → All (λ k. k < next_key ks) ks
unfolding next_key
next_key_greater [] = tt
next_key_greater (k ∷ ks) =
    (ground arith, All-map ks (λ j h. ground (arith, h)) (next_key_greater ks))

-- `e` comes after `f`, by key and by time.
abbrev pub IsAfter : JournalEntry → JournalEntry → Type 0
IsAfter e f = (f.entry_id < e.entry_id) × (f.recorded_at_ns ≤ e.recorded_at_ns)

-- Rows in the order of their keys, and of a clock that did not go back.
unfoldable pub IsChronological : List JournalEntry → Type 0
IsChronological [] = Unit {0}
IsChronological (e ∷ es) = All (IsAfter e) es × IsChronological es

All-keep_if {ℓ} :
    {A : Type ℓ} (P : A → Type 0) (p : A → Bool) (xs : List A) → All P xs → All P (keep_if p xs)
unfolding keep_if
All-keep_if P p [] h = tt
All-keep_if P p (x ∷ xs) h = elim (Bool-cases (p x)) [
  | inl e ↦ rw e (h.0, All-keep_if P p xs h.1)
  | inr e ↦ rw e (All-keep_if P p xs h.1)
]

pub keep_if-IsChronological :
    (p : JournalEntry → Bool) (es : List JournalEntry)
    → IsChronological es
    → IsChronological (keep_if p es)
unfolding IsChronological keep_if
keep_if-IsChronological p [] h = tt
keep_if-IsChronological p (e ∷ es) h = elim (Bool-cases (p e)) [
  | inl k ↦ rw k (All-keep_if (IsAfter e) p es h.0, keep_if-IsChronological p es h.1)
  | inr k ↦ rw k (keep_if-IsChronological p es h.1)
]

All-append {ℓ} :
    {A : Type ℓ} (P : A → Type 0) (xs ys : List A) → All P xs → All P ys → All P (xs ++ ys)
All-append P [] ys h k = k
All-append P (x ∷ xs) ys h k = (h.0, All-append P xs ys h.1 k)

All-reverse {ℓ} : {A : Type ℓ} (P : A → Type 0) (xs : List A) → All P xs → All P (reverse xs)
All-reverse P [] h = tt
All-reverse P (x ∷ xs) h =
    subst (All P) (sym (reverse-cons x xs))
      (All-append P (reverse xs) (x ∷ []) (All-reverse P xs h.1) (h.0, tt))

insert_last :
    (e : JournalEntry) (fs : List JournalEntry)
    → All (IsAfter e) fs
    → insert_entry e fs ≡ fs ++ e ∷ []
unfolding insert_entry precedes
insert_last e [] h = refl
insert_last e (f ∷ fs) h = ground (arith, h.0, insert_last e fs h.1)

pub order-chronological :
    (es : List JournalEntry) → IsChronological es → order_entries es ≡ reverse es
unfolding order_entries IsChronological
order-chronological [] h = refl
order-chronological (e ∷ es) h =
    ap (insert_entry e) (order-chronological es h.1)
    ∙ insert_last e (reverse es) (All-reverse (IsAfter e) es h.0)
    ∙ sym (reverse-cons e es)
