-- ===== src/Base/Text.antt =====
-- strings.Fields, TrimSpace, Split, Cut and HasPrefix, on the bytes of UTF-8 and with the white space of
-- Unicode, where the separator is one byte.
use mathlib.Core.List.{append-nil}
use uptime_cairn.Base.{
  length, zero, suc, ◌≤◌, ◌<◌, Bool-cases, inl, inr, All, ◌≡◌, ◌≢◌, refl, arith, ◌++◌, ℕ, Bool,
  false, ◌||◌, ◌&&◌, List, [], ◌∷◌, Option, none, some, if◌then◌else◌, leb, ◌==◌,
}
use uptime_cairn.Base.Bytes.{Bytes}

-- Space, and tab to carriage return.
unfoldable pub is_space : ℕ → Bool
is_space c = c == 32 || leb 9 c && leb c 13

-- U+0085 and U+00A0; U+1680, U+2000 to U+200A, U+2028, U+2029, U+202F, U+205F and U+3000.
unfoldable is_space_two : ℕ → ℕ → Bool
is_space_two c d = c == 194 && (d == 133 || d == 160)

unfoldable is_space_three : ℕ → ℕ → ℕ → Bool
is_space_three c d e =
    c == 225 && d == 154 && e == 128
    || c == 226 && d == 128 && (leb 128 e && leb e 138 || e == 168 || e == 169 || e == 175)
    || c == 226 && d == 129 && e == 159
    || c == 227 && d == 128 && e == 128

-- How many bytes of white space stand at the start, or at the start of the reversed text.
unfoldable space_ahead : Bytes → ℕ
unfolding is_space is_space_two is_space_three
space_ahead [] = 0
space_ahead (c ∷ []) = if is_space c then 1 else 0
space_ahead (c ∷ d ∷ []) = if is_space c then 1 else if is_space_two c d then 2 else 0
space_ahead (c ∷ d ∷ e ∷ rest) =
    if is_space c then 1 else if is_space_two c d then 2 else if is_space_three c d e then 3 else 0

unfoldable space_behind : Bytes → ℕ
unfolding is_space is_space_two is_space_three
space_behind [] = 0
space_behind (e ∷ []) = if is_space e then 1 else 0
space_behind (e ∷ d ∷ []) = if is_space e then 1 else if is_space_two d e then 2 else 0
space_behind (e ∷ d ∷ c ∷ rest) =
    if is_space e then 1 else if is_space_two d e then 2 else if is_space_three c d e then 3 else 0

-- The text after its white space, with `skip` bytes of that still to come.
unfoldable trim_left : (Bytes → ℕ) → ℕ → Bytes → Bytes
trim_left width skip [] = []
trim_left width (suc skip) (c ∷ rest) = trim_left width skip rest
trim_left width zero (c ∷ rest) = elim (width (c ∷ rest)) [
  | zero ↦ c ∷ rest
  | suc skip ↦ trim_left width skip rest
]

reverse_onto : Bytes → Bytes → Bytes
reverse_onto [] acc = acc
reverse_onto (c ∷ rest) acc = reverse_onto rest (c ∷ acc)

unfoldable pub trim_space : Bytes → Bytes
unfolding trim_left reverse_onto space_ahead space_behind
trim_space s =
    reverse_onto (trim_left space_behind 0 (reverse_onto (trim_left space_ahead 0 s) [])) []

-- The pieces between separators: always at least one.
push_head : ℕ → List Bytes → List Bytes
push_head c [] = (c ∷ []) ∷ []
push_head c (piece ∷ pieces) = (c ∷ piece) ∷ pieces

unfoldable pub split : Bytes → ℕ → List Bytes
unfolding push_head
split [] sep = [] ∷ []
split (c ∷ rest) sep =
    let pieces = split rest sep in if c == sep then [] ∷ pieces else push_head c pieces

non_empty : List Bytes → List Bytes
non_empty [] = []
non_empty ([] ∷ pieces) = non_empty pieces
non_empty ((c ∷ piece) ∷ pieces) = (c ∷ piece) ∷ non_empty pieces

spaces_to : ℕ → ℕ → Bytes → Bytes
unfolding space_ahead
spaces_to sep skip [] = []
spaces_to sep (suc skip) (c ∷ rest) = spaces_to sep skip rest
spaces_to sep zero (c ∷ rest) = elim (space_ahead (c ∷ rest)) [
  | zero ↦ c ∷ spaces_to sep 0 rest
  | suc skip ↦ sep ∷ spaces_to sep skip rest
]

-- The pieces between runs of white space.
unfoldable pub fields : Bytes → List Bytes
unfolding split non_empty spaces_to
fields s = non_empty (split (spaces_to 32 0 s) 32)

unfoldable pub keep_before : ℕ → Option (Bytes × Bytes) → Option (Bytes × Bytes)
keep_before c none = none
keep_before c (some (before, after)) = some (c ∷ before, after)

-- What stands before and after the first separator, where there is one.
unfoldable pub cut : Bytes → ℕ → Option (Bytes × Bytes)
unfolding keep_before
cut [] sep = none
cut (c ∷ rest) sep =
    let more = keep_before c (cut rest sep) in if c == sep then some ([], rest) else more

unfoldable pub has_prefix : Bytes → ℕ → Bool
has_prefix [] c = false
has_prefix (b ∷ rest) c = b == c

-- ASCII, and no white space.
abbrev pub NotSpace : ℕ → Type 0
NotSpace c = (is_space c ≡ false) × (c < 128)

space_ahead_none : (s : Bytes) → All NotSpace s → space_ahead s ≡ 0
unfolding space_ahead is_space_two is_space_three
space_ahead_none [] h = refl
space_ahead_none (c ∷ []) (h, _) = rw h.0 refl
space_ahead_none (c ∷ d ∷ []) (h, _) = rw h.0 (ground arith)
space_ahead_none (c ∷ d ∷ e ∷ rest) (h, _) = rw h.0 (ground arith)

space_behind_none : (s : Bytes) → All NotSpace s → space_behind s ≡ 0
unfolding space_behind is_space_two is_space_three
space_behind_none [] h = refl
space_behind_none (e ∷ []) (h, _) = rw h.0 refl
space_behind_none (e ∷ d ∷ []) (h, (before, _)) = rw h.0 (ground arith)
space_behind_none (e ∷ d ∷ c ∷ rest) (h, (before, (before', _))) = rw h.0 (ground arith)

trim_left_none : (width : Bytes → ℕ) (s : Bytes) → width s ≡ 0 → trim_left width 0 s ≡ s
unfolding trim_left
trim_left_none width [] h = refl
trim_left_none width (c ∷ rest) h = rw (h, trim_left) refl

reverse_onto-All :
    (s acc : Bytes) → All NotSpace s → All NotSpace acc → All NotSpace (reverse_onto s acc)
unfolding reverse_onto
reverse_onto-All [] acc h h' = h'
reverse_onto-All (c ∷ rest) acc (h, others) h' = reverse_onto-All rest (c ∷ acc) others (h, h')

reverse_onto-reverse_onto :
    (s acc acc' : Bytes) → reverse_onto (reverse_onto s acc) acc' ≡ reverse_onto acc (s ++ acc')
unfolding reverse_onto
reverse_onto-reverse_onto [] acc acc' = refl
reverse_onto-reverse_onto (c ∷ rest) acc acc' = reverse_onto-reverse_onto rest (c ∷ acc) acc'

pub trim_space_none : (s : Bytes) → All NotSpace s → trim_space s ≡ s
unfolding trim_space reverse_onto
trim_space_none s h =
    rw
      (
        trim_left_none space_ahead s (space_ahead_none s h),
        trim_left_none space_behind (reverse_onto s [])
            (space_behind_none (reverse_onto s []) (reverse_onto-All s [] h tt)),
        reverse_onto-reverse_onto s [] [],
      )
      (append-nil s)

pub cut-none : (s : Bytes) (sep : ℕ) → All (λ c. c ≢ sep) s → cut s sep ≡ none
unfolding cut keep_before
cut-none [] sep h = refl
cut-none (c ∷ rest) sep (h, others) = ground (arith, cut-none rest sep others)

pub cut-append :
    (s : Bytes) (sep : ℕ) (rest : Bytes)
    → All (λ c. c ≢ sep) s
    → cut (s ++ sep ∷ rest) sep ≡ some (s, rest)
unfolding cut keep_before
cut-append [] sep rest h = ground arith
cut-append (c ∷ s) sep rest (h, others) = ground (arith, cut-append s sep rest others)

some_cut :
    (c : ℕ) (l : Option (Bytes × Bytes)) {before after : Bytes}
    → keep_before c l ≡ some (before, after)
    → (before' : Bytes) × (l ≡ some (before', after))
unfolding keep_before
some_cut c none h = absurd (cc)
some_cut c (some (b, a)) h = (b, cc)

pub cut-length :
    (s : Bytes) (sep : ℕ) {before after : Bytes}
    → cut s sep ≡ some (before, after)
    → length after ≤ length s
unfolding cut
cut-length [] sep h = absurd (cc)
cut-length (c ∷ rest) sep h = elim (Bool-cases (c == sep)) [
  | inl e ↦ let h' : some ([], rest) ≡ some (_, _) = simp e at h in ground arith
  | inr e ↦
      let (b, h') = some_cut c (cut rest sep) (simp e at h) in
      ground (arith, cut-length rest sep h')
]
