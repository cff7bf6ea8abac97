-- ===== src/Auth/Delegation.antt =====
-- A key cannot give what its creator does not hold (Set.Covers, internal/auth/scope.go).
use uptime_cairn.Base.{
  ℕ, ◌≡◌, refl, sym, ◌≢◌, ap, ◌∙◌, ◌==◌, ◌⊎◌, length, Bool, true, false, ◌&&◌, ◌||◌, List, [], ◌∷◌,
  ◌++◌, Option, none, some, arith, Bool-cases, Option-cases, inl, inr,
}
use uptime_cairn.Base.Bytes.{Bytes, codes, eqb, eqb-eq}
use uptime_cairn.Base.Text.{cut, keep_before}
use uptime_cairn.Auth.{Scope, write_implies, implies, grants, covers, colon}

or_cases : (a b : Bool) → (a || b) ≡ true → (a ≡ true) ⊎ (b ≡ true)
or_cases true b h = inl refl
or_cases false b h = inr h

and_cases : (a b : Bool) → (a && b) ≡ true → (a ≡ true) × (b ≡ true)
and_cases true b h = (refl, h)
and_cases false b h = absurd cc

or_left_true : (a b : Bool) → a ≡ true → (a || b) ≡ true
or_left_true true b h = refl
or_left_true false b h = absurd cc

or_right_true : (a b : Bool) → b ≡ true → (a || b) ≡ true
or_right_true true b h = refl
or_right_true false b h = h

parts : Bytes → Bytes → Option (Bytes × Bytes)
parts before after = some (before, after)

first_of : Option (Bytes × Bytes) → Bytes
first_of none = []
first_of (some (before, after)) = before

second_of : Option (Bytes × Bytes) → Bytes
second_of none = []
second_of (some (before, after)) = after

first-parts : (b a b' a' : Bytes) → parts b a ≡ parts b' a' → b ≡ b'
unfolding parts first_of
first-parts b a b' a' h = ap first_of h

second-parts : (b a b' a' : Bytes) → parts b a ≡ parts b' a' → a ≡ a'
unfolding parts second_of
second-parts b a b' a' h = ap second_of h

none_is_not-parts : (b a : Bytes) → none ≢ parts b a
unfolding parts
none_is_not-parts b a h = absurd cc

-- What stands before the first separator can be cut off again in front of anything.
recut :
    (s : Bytes) (sep : ℕ) (before after other : Bytes)
    → cut s sep ≡ parts before after
    → cut (before ++ sep ∷ other) sep ≡ parts before other
unfolding cut keep_before parts
recut [] sep before after other h = absurd (none_is_not-parts before after h)
recut (c ∷ rest) sep before after other h = elim (Bool-cases (c == sep)) [
  | inl e ↦
      let h' : parts [] rest ≡ parts before after = simp e at h in
      let empty : [] ≡ before = first-parts [] rest before after h' in
      let self : (sep == sep) ≡ true = ground arith in rw (sym empty, self) refl
  | inr e ↦ elim (Option-cases (cut rest sep)) [
    | inl none_left ↦
        let h' : none ≡ parts before after = simp (e, none_left) at h in
        absurd (none_is_not-parts before after h')
    | inr ((b, a), f) ↦
        let h' : parts (c ∷ b) a ≡ parts before after = simp (e, f) at h in
        let longer : c ∷ b ≡ before = first-parts (c ∷ b) a before after h' in
        rw (sym longer, e, recut rest sep b a other f) refl
  ]
]

-- Where `write` implies a scope, it is the `read` of the same resource.
write_cases :
    (s want : Scope)
    → write_implies (cut s colon) want ≡ true
    → (resource : Bytes) × (cut s colon ≡ some (resource, codes "write"))
      × (want ≡ resource ++ colon ∷ codes "read")
unfolding write_implies
write_cases s want h = elim (Option-cases (cut s colon)) [
  | inl e ↦ absurd (let h' : false ≡ true = simp e at h in cc)
  | inr ((resource, action), e) ↦
      let h' : (eqb action (codes "write") && eqb want (resource ++ colon ∷ codes "read")) ≡ true =
        simp e at h in
      let (is_write, is_read) = and_cases _ _ h' in
      let same = eqb-eq action (codes "write") is_write in
      (
        resource,
        e ∙ ap (λ a. some (resource, a)) same,
        eqb-eq want (resource ++ colon ∷ codes "read") is_read,
      )
]

read_is_not_write : (r r' : Bytes) → parts r (codes "read") ≢ parts r' (codes "write")
read_is_not_write r r' h =
    let e : codes "read" ≡ codes "write" = second-parts r (codes "read") r' (codes "write") h in
    omega (arith, ap length e)

implies_trans : (a b c : Scope) → implies a b ≡ true → implies b c ≡ true → implies a c ≡ true
unfolding implies parts
implies_trans a b c h k = elim (or_cases (eqb a b) (write_implies (cut a colon) b) h) [
  | inl same ↦ ap (λ x. implies x c) (eqb-eq a b same) ∙ k
  | inr write ↦ elim (or_cases (eqb b c) (write_implies (cut b colon) c) k) [
    | inl same ↦ ap (λ x. implies a x) (sym (eqb-eq b c same)) ∙ h
    | inr write' ↦
        let (r, held, is) = write_cases a b write in
        let (r', held', is') = write_cases b c write' in
        let found =
          ap (λ x. cut x colon) is ∙ recut a colon r (codes "write") (codes "read") held in
        absurd (read_is_not_write r r' (sym found ∙ held'))
  ]
]

grants_of_held :
    (set : List Scope) (held want : Scope)
    → grants set held ≡ true
    → implies held want ≡ true
    → grants set want ≡ true
unfolding grants
grants_of_held [] held want h k = absurd cc
grants_of_held (s ∷ set) held want h k = elim (or_cases (implies s held) (grants set held) h) [
  | inl first ↦ or_left_true (implies s want) (grants set want) (implies_trans s held want first k)
  | inr later ↦
      or_right_true (implies s want) (grants set want) (grants_of_held set held want later k)
]

-- A key that its creator's scopes cover grants nothing that the creator's scopes do not grant.
pub covers-grants :
    (creator key : List Scope) (want : Scope)
    → covers creator key ≡ true
    → grants key want ≡ true
    → grants creator want ≡ true
unfolding covers grants
covers-grants creator [] want c g = absurd cc
covers-grants creator (held ∷ key) want c g =
    let (holds, rest) = and_cases (grants creator held) (covers creator key) c in
    elim (or_cases (implies held want) (grants key want) g) [
      | inl first ↦ grants_of_held creator held want holds first
      | inr later ↦ covers-grants creator key want rest later
    ]
