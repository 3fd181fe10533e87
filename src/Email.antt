-- ===== src/Email.antt =====
-- The address test of the sign-up handlers, /^[^\s@]+@[^\s@]+\.[^\s@]+$/, in
-- src/student-auth/student-auth.service.ts: a scanner, and the texts that the expression describes.
use Prim.Native.Char.{code}
use chain_verse_backend.Base.{
  ℕ, String, ◌≡◌, ◌≢◌, ◌↔◌, refl, ap, inl, inr, Bool, true, false, not, ◌&&◌, ◌||◌, List, [], ◌∷◌,
  ◌++◌, arith, ◌==◌, leb, is_empty, if◌then◌else◌, Bool-cases,
}

abbrev pub codes : String → List ℕ
codes String.[] = []
codes (String.◌∷◌ c s) = code c ∷ codes s

-- `\s`
unfoldable pub is_space : ℕ → Bool
is_space c =
    (leb 9 c && leb c 13)
    || c == 32
    || c == 160
    || c == 0x1680
    || (leb 0x2000 c && leb c 0x200a)
    || c == 0x2028
    || c == 0x2029
    || c == 0x202f
    || c == 0x205f
    || c == 0x3000
    || c == 0xfeff

-- `[^\s@]`
unfoldable pub is_plain : ℕ → Bool
unfolding is_space
is_plain c = not (is_space c) && not (c == 64)

abbrev all_plain : List ℕ → Bool
all_plain [] = true
all_plain (c ∷ cs) = is_plain c && all_plain cs

-- After a first character of the domain: a dot with plain characters behind it is still to come.
unfoldable pub tail_matches : List ℕ → Bool
tail_matches [] = false
tail_matches (c ∷ cs) =
    is_plain c && ((c == 46 && (not (is_empty cs) && all_plain cs)) || tail_matches cs)

unfoldable pub domain_matches : List ℕ → Bool
unfolding tail_matches
domain_matches [] = false
domain_matches (c ∷ cs) = is_plain c && tail_matches cs

-- After a first character of the local part.
unfoldable pub local_matches : List ℕ → Bool
unfolding domain_matches
local_matches [] = false
local_matches (c ∷ cs) = if c == 64 then domain_matches cs else is_plain c && local_matches cs

unfoldable pub address_matches : List ℕ → Bool
unfolding local_matches
address_matches [] = false
address_matches (c ∷ cs) = is_plain c && local_matches cs

unfoldable pub is_email : String → Bool
unfolding address_matches
is_email s = address_matches (codes s)

abbrev Plain : List ℕ → Type 0
Plain l = (l ≢ []) × (all_plain l ≡ true)

-- What the expression describes: three runs of plain characters, with `@` and a dot between them.
abbrev pub IsAddress : List ℕ → Type 0
IsAddress l =
    (user domain top : List ℕ) × Plain user
    × Plain domain
    × Plain top
    × (l ≡ user ++ 64 ∷ (domain ++ 46 ∷ top))

tail_sound :
    (l : List ℕ)
    → tail_matches l ≡ true
    → (d t : List ℕ) × (all_plain d ≡ true) × Plain t × (l ≡ d ++ 46 ∷ t)
unfolding tail_matches
tail_sound [] h = cc
tail_sound (c ∷ cs) h = elim (Bool-cases (tail_matches cs)) [
  | inl later ↦
      let (d, t, pd, pt, e) = tail_sound cs later in
      (c ∷ d, t, ground arith, pt, ap (λ (x : List ℕ). c ∷ x) e)
  | inr now ↦ ([], cs, refl, (ground arith, ground arith), ground arith)
]

tail_complete : (d t : List ℕ) → all_plain d ≡ true → Plain t → tail_matches (d ++ 46 ∷ t) ≡ true
unfolding tail_matches is_plain
tail_complete [] [] p q = absurd (q.0 refl)
tail_complete [] (c ∷ t) p q = ground arith
tail_complete (c ∷ d) t p q = ground (arith, tail_complete d t)

domain_sound :
    (l : List ℕ) → domain_matches l ≡ true → (d t : List ℕ) × Plain d × Plain t × (l ≡ d ++ 46 ∷ t)
unfolding domain_matches
domain_sound [] h = cc
domain_sound (c ∷ cs) h =
    let (d, t, pd, pt, e) = tail_sound cs (ground arith) in
    (c ∷ d, t, ((λ q. cc), ground arith), pt, ap (λ (x : List ℕ). c ∷ x) e)

plain-ne_at : (c : ℕ) → is_plain c ≡ true → (c == 64) ≡ false
unfolding is_plain
plain-ne_at c h = ground arith

local_sound :
    (l : List ℕ)
    → local_matches l ≡ true
    → (u d t : List ℕ) × (all_plain u ≡ true) × Plain d × Plain t × (l ≡ u ++ 64 ∷ (d ++ 46 ∷ t))
unfolding local_matches
local_sound [] h = cc
local_sound (c ∷ cs) h = elim (Bool-cases (c == 64)) [
  | inl at ↦
      let (d, t, pd, pt, e) = domain_sound cs (ground arith) in
      ([], d, t, refl, pd, pt, ground arith)
  | inr other ↦
      let (u, d, t, pu, pd, pt, e) = local_sound cs (ground arith) in
      (c ∷ u, d, t, ground arith, pd, pt, ap (λ (x : List ℕ). c ∷ x) e)
]

local_complete :
    (u d t : List ℕ)
    → all_plain u ≡ true
    → Plain d
    → Plain t
    → local_matches (u ++ 64 ∷ (d ++ 46 ∷ t)) ≡ true
unfolding local_matches
local_complete [] [] t p q r = absurd (q.0 refl)
local_complete [] (c ∷ d) t p q r = ground (arith, tail_complete d t)
local_complete (c ∷ u) d t p q r = ground (arith, plain-ne_at c, local_complete u d t)

-- The test passes exactly the texts made of three runs of plain characters, none of them
-- empty, with `@` between the first two and a dot between the last two.
pub is_email_iff : (s : String) → (is_email s ≡ true) ↔ IsAddress (codes s)
unfolding is_email
is_email_iff s = (sound (codes s), complete (codes s))
  where
    sound : (l : List ℕ) → address_matches l ≡ true → IsAddress l
    sound [] h = cc
    sound (c ∷ cs) h =
        let (u, d, t, pu, pd, pt, e) = local_sound cs (ground arith) in
        (c ∷ u, d, t, ((λ q. cc), ground arith), pd, pt, ap (λ (x : List ℕ). c ∷ x) e)

    complete : (l : List ℕ) → IsAddress l → address_matches l ≡ true
    complete l ([], d, t, pu, pd, pt, e) = absurd (pu.0 refl)
    complete l (c ∷ u, d, t, pu, pd, pt, e) = rw e (ground (arith, local_complete u d t))
