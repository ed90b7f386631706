-- ===== src/Factory/Choice.antt =====
-- Which base a multi factory takes (factory/multi/multi.go).
use runv.Prelude.{
  ℕ, ◌≡◌, refl, sym, ◌∙◌, ap, true, false, Option, none, some, List, [], ◌∷◌, arith, if_cases,
  Bool-cases, inl, inr, ◌⊎◌,
}
use runv.Factory.Bases.{Config, less, place, new_multi, fits, choose}

abbrev pub Has : Config → List Config → Type 0
Has c [] = true ≡ false
Has c (d ∷ ds) = (c ≡ d) ⊎ Has c ds

-- None of the list is greater.
abbrev IsTop : Config → List Config → Type 0
IsTop c ds = (d : Config) → Has d ds → less c d ≡ false

abbrev IsSorted : List Config → Type 0
IsSorted [] = true ≡ true
IsSorted (c ∷ cs) = IsTop c cs × IsSorted cs

less_trans : (c d e : Config) → less c d ≡ false → less d e ≡ false → less c e ≡ false
unfolding less
less_trans c d e h g = ground arith

less_asym : (c d : Config) → less c d ≡ true → less d c ≡ false
unfolding less
less_asym c d h = ground arith

less_irrefl : (c : Config) → less c c ≡ false
unfolding less
less_irrefl c = ground arith

place-Has : (c d : Config) (ds : List Config) → Has d (place c ds) → (d ≡ c) ⊎ Has d ds
unfolding place
place-Has c d [] h = h
place-Has c d (e ∷ ds) h = elim (Bool-cases (less c e)) [
  | inl y ↦ later (place-Has c d ds) (rw (y, place) at h)
  | inr n ↦ rw (n, place) at h
]
  where
    later :
        (Has d (place c ds) → (d ≡ c) ⊎ Has d ds)
        → (d ≡ e) ⊎ Has d (place c ds)
        → (d ≡ c) ⊎ Has d (e ∷ ds)
    later k (inl q) = inr (inl q)
    later k (inr q) = elim (k q) [ inl r ↦ inl r | inr r ↦ inr (inr r) ]

Has-place : (c d : Config) (ds : List Config) → (d ≡ c) ⊎ Has d ds → Has d (place c ds)
unfolding place
Has-place c d [] h = h
Has-place c d (e ∷ ds) h =
    if_cases (Has d) (less c e) (e ∷ place c ds) (c ∷ e ∷ ds) (λ y. later (Has-place c d ds) h)
      (λ n. h)
  where
    later :
        ((d ≡ c) ⊎ Has d ds → Has d (place c ds))
        → (d ≡ c) ⊎ Has d (e ∷ ds)
        → Has d (e ∷ place c ds)
    later k (inl q) = inr (k (inl q))
    later k (inr (inl q)) = inl q
    later k (inr (inr q)) = inr (k (inr q))

place-IsSorted : (c : Config) (ds : List Config) → IsSorted ds → IsSorted (place c ds)
unfolding place
place-IsSorted c [] s = (λ d h. cc, refl)
place-IsSorted c (e ∷ ds) (top, s) =
    if_cases IsSorted (less c e) (e ∷ place c ds) (c ∷ e ∷ ds)
      (λ y. (
        λ d h. elim (place-Has c d ds h) [ inl q ↦ rw q (less_asym c e y) | inr q ↦ top d q ],
        place-IsSorted c ds s,
      ))
      (λ n. (λ d h. elim h [ inl q ↦ rw q n | inr q ↦ less_trans c e d n (top d q) ], (top, s)))

new_multi-IsSorted : (cs : List Config) → IsSorted (new_multi cs)
unfolding new_multi
new_multi-IsSorted [] = refl
new_multi-IsSorted (c ∷ cs) = place-IsSorted c (new_multi cs) (new_multi-IsSorted cs)

new_multi-Has : (d : Config) (cs : List Config) → Has d (new_multi cs) → Has d cs
unfolding new_multi
new_multi-Has d [] h = h
new_multi-Has d (c ∷ cs) h = elim (place-Has c d (new_multi cs) h) [
  | inl q ↦ inl q
  | inr q ↦ inr (new_multi-Has d cs q)
]

Has-new_multi : (d : Config) (cs : List Config) → Has d cs → Has d (new_multi cs)
unfolding new_multi
Has-new_multi d [] h = h
Has-new_multi d (c ∷ cs) (inl q) = Has-place c d (new_multi cs) (inl q)
Has-new_multi d (c ∷ cs) (inr q) = Has-place c d (new_multi cs) (inr (Has-new_multi d cs q))

-- What a choice among bases is: the greatest of those that fit, or none if none fits.
abbrev pub IsBest : Option Config → List Config → ℕ → ℕ → Type 0
IsBest none cs cpu mem = (d : Config) → Has d cs → fits d cpu mem ≡ false
IsBest (some c) cs cpu mem =
    Has c cs
    × (fits c cpu mem ≡ true)
    × ((d : Config) → Has d cs → fits d cpu mem ≡ true → less c d ≡ false)

choose-IsBest :
    (cs : List Config) (cpu mem : ℕ) → IsSorted cs → IsBest (choose cs cpu mem) cs cpu mem
unfolding choose
choose-IsBest [] cpu mem s = λ d h. cc
choose-IsBest (c ∷ cs) cpu mem (top, s) =
    if_cases (λ o. IsBest o (c ∷ cs) cpu mem) (fits c cpu mem) (some c) (choose cs cpu mem)
      (λ y. (inl refl, y, λ d h f. elim h [ inl q ↦ rw q (less_irrefl c) | inr q ↦ top d q ]))
      (λ n. behind (choose cs cpu mem) n (choose-IsBest cs cpu mem s))
  where
    behind :
        (o : Option Config)
        → fits c cpu mem ≡ false
        → IsBest o cs cpu mem
        → IsBest o (c ∷ cs) cpu mem
    behind none n b = λ d h. elim h [ inl q ↦ rw q n | inr q ↦ b d q ]
    behind (some e) n (there, f, best) = (
      inr there,
      f,
      λ d h g. elim h [ inl q ↦ cc (sym g ∙ ap (λ x. fits x cpu mem) q ∙ n) | inr q ↦ best d q g ],
    )

-- Of the bases that it was made of, a multi factory takes for a request one that is not larger than
-- the request, and among these one with the most processors and then the most memory; and if it
-- takes none, then every base is larger than the request.
pub choose-new_multi :
    (cs : List Config) (cpu mem : ℕ) → IsBest (choose (new_multi cs) cpu mem) cs cpu mem
choose-new_multi cs cpu mem =
    among (choose (new_multi cs) cpu mem)
      (choose-IsBest (new_multi cs) cpu mem (new_multi-IsSorted cs))
  where
    among : (o : Option Config) → IsBest o (new_multi cs) cpu mem → IsBest o cs cpu mem
    among none b = λ d h. b d (Has-new_multi d cs h)
    among (some c) (there, f, best) =
        (new_multi-Has c cs there, f, λ d h g. best d (Has-new_multi d cs h) g)
