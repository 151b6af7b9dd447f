-- ===== src/Vfs/Grammar.antt =====
-- The grammar of the paths of kern/fs/vfs/vfslookup.c, and where the first colon or slash of one is.
use mehrad.Base.{ℕ, zero, suc, ◌≢◌, sym, List, [], ◌∷◌, ◌++◌, ℕ_discrete, subst}
use mehrad.Text.Strings.{IsText}

-- Neither a colon nor a slash among the characters.
abbrev pub IsName : List ℕ → Type 0
IsName [] = Unit {0}
IsName (c ∷ t) = (c ≢ 0) × (c ≢ b':') × (c ≢ b'/') × IsName t

abbrev pub slashes : ℕ → List ℕ → List ℕ
slashes zero t = t
slashes (suc n) t = b'/' ∷ slashes n t

abbrev pub NoSlash : List ℕ → Type 0
NoSlash [] = Unit {0}
NoSlash (c ∷ t) = c ≢ b'/'

-- Where a path starts: in the current directory, at a root, or on the device of a name.
pub data Origin : Type 0 where
  here boot local : Origin
  on : List ℕ → Origin

-- A path, where it starts, and the path from there.
pub data Parse : List ℕ → Origin → List ℕ → Type 0 where
  bare : (name : List ℕ) → IsName name → Parse name here name
  relative :
      (c : ℕ) (name t : List ℕ)
      → IsName (c ∷ name)
      → Parse (c ∷ (name ++ b'/' ∷ t)) here (c ∷ (name ++ b'/' ∷ t))
  device :
      (c : ℕ) (name : List ℕ) (n : ℕ) (t : List ℕ)
      → IsName (c ∷ name)
      → NoSlash t
      → Parse (c ∷ (name ++ b':' ∷ slashes n t)) (on (c ∷ name)) t
  absolute : (n : ℕ) (t : List ℕ) → NoSlash t → Parse (b'/' ∷ slashes n t) boot t
  rooted : (n : ℕ) (t : List ℕ) → NoSlash t → Parse (b':' ∷ slashes n t) local t

-- The characters up to the first colon or slash, if there is one.
pub data Split : List ℕ → Type 0 where
  all : (name : List ℕ) → IsName name → Split name
  colon : (name t : List ℕ) → IsName name → IsText t → Split (name ++ b':' ∷ t)
  slash : (name t : List ℕ) → IsName name → IsText t → Split (name ++ b'/' ∷ t)

longer : (c : ℕ) {t : List ℕ} → c ≢ 0 → c ≢ b':' → c ≢ b'/' → Split t → Split (c ∷ t)
longer c nz nc ns (all name h) = all (c ∷ name) (nz, nc, ns, h)
longer c nz nc ns (colon name t h u) = colon (c ∷ name) t (nz, nc, ns, h) u
longer c nz nc ns (slash name t h u) = slash (c ∷ name) t (nz, nc, ns, h) u

pub split : (t : List ℕ) → IsText t → Split t
split [] h = all [] tt
split (c ∷ t) (nz, h) = elim (ℕ_discrete c b':') [
  | yes e ↦ subst (λ x. Split (x ∷ t)) (sym e) (colon [] t tt h)
  | no nc ↦ elim (ℕ_discrete c b'/') [
    | yes e ↦ subst (λ x. Split (x ∷ t)) (sym e) (slash [] t tt h)
    | no ns ↦ longer c nz nc ns (split t h)
  ]
]

-- The slashes at the front of a text.
pub data Slashed : List ℕ → Type 0 where
  slashed : (n : ℕ) (t : List ℕ) → NoSlash t → IsText t → Slashed (slashes n t)

one_more : {t : List ℕ} → Slashed t → Slashed (b'/' ∷ t)
one_more (slashed n t h u) = slashed (suc n) t h u

pub front : (t : List ℕ) → IsText t → Slashed t
front [] h = slashed 0 [] tt tt
front (c ∷ t) (nz, h) = elim (ℕ_discrete c b'/') [
  | yes e ↦ subst (λ x. Slashed (x ∷ t)) (sym e) (one_more (front t h))
  | no ns ↦ slashed 0 (c ∷ t) ns (nz, h)
]
