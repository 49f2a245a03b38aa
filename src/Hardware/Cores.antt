-- ===== src/Hardware/Cores.antt =====
-- Which cores a text names, and how many.
use ajit_segment_bots.Prelude.{
  ◌&&◌, ◌+◌, Bool, Bool-cases, List, Option, Text, [], arith, codes, false, if◌then◌else◌, inl, inr,
  length, lines, map, none, refl, some, text_eq, true, ◌||◌, ℕ, ◌∷◌, ◌≡◌, ◌≤◌,
}
use ajit_segment_bots.Hardware.{
  Core, core_eq, has_core, add_core, core_of, cores_among, named_value, nonzero,
  parse_physical_core_count, physical_cores_of,
}

-- A line gives the core, and the last physical id before it the package.
abbrev pub is_package : Option Text → Text → Bool
is_package none t = false
is_package (some p) t = text_eq p t

unfoldable pub names_core : List (Text × Text) → Option Text → Core → Bool
names_core [] pkg c = false
names_core ((name, value) ∷ rest) pkg c =
    (if text_eq name (codes "physical id")
      then false
      else text_eq name (codes "core id") && (is_package pkg c.0 && text_eq value c.1))
    || names_core rest (if text_eq name (codes "physical id") then some value else pkg) c

-- How many lines name a core at all.
unfoldable pub count_core_lines : List (Text × Text) → ℕ
count_core_lines [] = 0
count_core_lines ((name, value) ∷ rest) =
    let n = count_core_lines rest in if text_eq name (codes "core id") then n + 1 else n

abbrev pub IsDistinct : List Core → Type 0
IsDistinct [] = Unit
IsDistinct (c ∷ cs) = (has_core cs c ≡ false) × IsDistinct cs

text_eq→eq : (s t : Text) → text_eq s t ≡ true → s ≡ t
unfolding text_eq
text_eq→eq [] [] h = refl
text_eq→eq [] (b ∷ t) h = absurd (cc h)
text_eq→eq (a ∷ s) [] h = absurd (cc h)
text_eq→eq (a ∷ s) (b ∷ t) h = ground (arith, h, text_eq→eq s t)

text_eq_refl : (s : Text) → text_eq s s ≡ true
unfolding text_eq
text_eq_refl [] = refl
text_eq_refl (a ∷ s) = ground (arith, text_eq_refl s)

core_eq→eq : (c d : Core) → core_eq c d ≡ true → c ≡ d
unfolding core_eq
core_eq→eq (a, b) (a', b') h = ground (arith, text_eq→eq a a', text_eq→eq b b', h)

has_core-add_core :
    (cs : List Core) (c d : Core) → has_core (add_core cs c) d ≡ (has_core cs d || core_eq c d)
unfolding add_core has_core
has_core-add_core cs c d = ground (arith, core_eq→eq c d)

has_core-core_of :
    (pkg : Option Text) (value : Text) (cs : List Core) (d : Core)
    → has_core (core_of pkg value cs) d
      ≡ (has_core cs d || (is_package pkg d.0 && text_eq value d.1))
unfolding core_eq
has_core-core_of none value cs d = ground arith
has_core-core_of (some p) value cs d = has_core-add_core cs (p, value) d

add_core-IsDistinct : (cs : List Core) (c : Core) → IsDistinct cs → IsDistinct (add_core cs c)
unfolding add_core
add_core-IsDistinct cs c h = elim (Bool-cases (has_core cs c)) [
  | inl e ↦ rw e h
  | inr e ↦ rw e (e, h)
]

core_of-IsDistinct :
    (pkg : Option Text) (value : Text) (cs : List Core)
    → IsDistinct cs
    → IsDistinct (core_of pkg value cs)
core_of-IsDistinct none value cs h = h
core_of-IsDistinct (some p) value cs h = add_core-IsDistinct cs (p, value) h

length-core_of :
    (pkg : Option Text) (value : Text) (cs : List Core)
    → length (core_of pkg value cs) ≤ length cs + 1
unfolding add_core
length-core_of none value cs = omega arith
length-core_of (some p) value cs = ground arith

cores_among-IsDistinct :
    (ls : List (Text × Text)) (pkg : Option Text) (cs : List Core)
    → IsDistinct cs
    → IsDistinct (cores_among ls pkg cs)
unfolding cores_among
cores_among-IsDistinct [] pkg cs h = h
cores_among-IsDistinct ((name, value) ∷ ls) pkg cs h =
    cores_among-IsDistinct ls (if text_eq name (codes "physical id") then some value else pkg)
      (if text_eq name (codes "physical id")
        then cs
        else if text_eq name (codes "core id")
        then core_of pkg value cs
        else cs)
      (elim (Bool-cases (text_eq name (codes "physical id"))) [
        | inl e ↦ rw e h
        | inr e ↦ rw e (elim (Bool-cases (text_eq name (codes "core id"))) [
          | inl k ↦ rw k (core_of-IsDistinct pkg value cs h)
          | inr k ↦ rw k h
        ])
      ])

has_core-cores_among :
    (ls : List (Text × Text)) (pkg : Option Text) (cs : List Core) (d : Core)
    → has_core (cores_among ls pkg cs) d ≡ (has_core cs d || names_core ls pkg d)
unfolding cores_among names_core
has_core-cores_among [] pkg cs d = ground arith
has_core-cores_among ((name, value) ∷ ls) pkg cs d = ground (
  arith,
  has_core-cores_among ls (if text_eq name (codes "physical id") then some value else pkg)
      (if text_eq name (codes "physical id")
        then cs
        else if text_eq name (codes "core id")
        then core_of pkg value cs
        else cs)
      d,
  has_core-core_of pkg value cs d,
)

length-cores_among :
    (ls : List (Text × Text)) (pkg : Option Text) (cs : List Core)
    → length (cores_among ls pkg cs) ≤ length cs + count_core_lines ls
unfolding cores_among count_core_lines
length-cores_among [] pkg cs = omega arith
length-cores_among ((name, value) ∷ ls) pkg cs = ground (
  arith,
  length-cores_among ls (if text_eq name (codes "physical id") then some value else pkg) (
      if text_eq name (codes "physical id")
      then cs
      else if text_eq name (codes "core id")
      then core_of pkg value cs
      else cs),
  length-core_of pkg value cs,
)

-- The count is the number of distinct pairs of a package and a core, or none for no pair; the pairs
-- are exactly those that a core line names after a line that names the package, so that siblings
-- that share a core count once, and there are no more of them than lines that name a core.
pub parse_physical_core_count_lem :
    (cpuinfo_text : Text)
    → (parse_physical_core_count cpuinfo_text ≡ nonzero (length (physical_cores_of cpuinfo_text)))
      × IsDistinct (physical_cores_of cpuinfo_text)
      × ((c : Core)
          → has_core (physical_cores_of cpuinfo_text) c
            ≡ names_core (map named_value (lines cpuinfo_text)) none c)
      × (length (physical_cores_of cpuinfo_text)
          ≤ count_core_lines (map named_value (lines cpuinfo_text)))
unfolding parse_physical_core_count physical_cores_of has_core
parse_physical_core_count_lem cpuinfo_text =
    let ls = map named_value (lines cpuinfo_text) in
    (
      refl,
      cores_among-IsDistinct ls none [] tt,
      λ c. has_core-cores_among ls none [] c,
      omega (arith, length-cores_among ls none []),
    )
