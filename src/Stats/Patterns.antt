-- ===== src/Stats/Patterns.antt =====
-- Star patterns (src/common/database/Database.h). A QString is here the list of its code units.
use mathlib.Core.List.{append-nil, append_assoc}
use kactivitymanagerd.Prelude.{
  ℕ, Bool, true, false, ==_iff, List, [], ◌∷◌, ◌++◌, ◌≡◌, refl, sym, ap, ◌∙◌, ◌==◌, nat_eq, map,
  if◌then◌else◌, Bool-cases, inl, inr,
}

abbrev pub backslash : ℕ
backslash = 92

abbrev pub star : ℕ
star = 42

abbrev pub percent : ℕ
percent = 37

abbrev pub underscore : ℕ
underscore = 95

-- QString::replace of one code unit by the same with a backslash in front
unfoldable pub escape_unit : ℕ → List ℕ → List ℕ
escape_unit c [] = []
escape_unit c (x ∷ xs) =
    let rest = escape_unit c xs in if x == c then backslash ∷ x ∷ rest else x ∷ rest

-- Common::escapeSqliteLikePattern
abbrev pub escape_sqlite_like_pattern : List ℕ → List ℕ
escape_sqlite_like_pattern pattern = escape_unit underscore (escape_unit percent pattern)

-- the loop of parseStarPattern: `current` is what stands from currentStart to currentPosition, and
-- the last argument what is left from currentPosition on
unfoldable pub parse_from : (List ℕ → List ℕ) → List ℕ → Bool → List ℕ → List ℕ → List ℕ → List ℕ
parse_from escape joker is_escaped result [] [] = result
parse_from escape joker is_escaped result (x ∷ current) [] = result ++ escape (x ∷ current)
parse_from escape joker true result current (c ∷ rest) =
    parse_from escape joker false result (current ++ c ∷ []) rest
parse_from escape joker false result current (c ∷ rest) =
    let escaped = parse_from escape joker true result (current ++ c ∷ []) rest in
    let replaced = parse_from escape joker false (result ++ (escape current ++ joker)) [] rest in
    let skipped = parse_from escape joker false result (current ++ c ∷ []) rest in
    if c == backslash then escaped else if c == star then replaced else skipped

-- Common::parseStarPattern
unfoldable pub parse_star_pattern : (List ℕ → List ℕ) → List ℕ → List ℕ → List ℕ
parse_star_pattern escape joker pattern = parse_from escape joker false [] [] pattern

-- Common::starPatternToLike
unfoldable pub star_pattern_to_like : List ℕ → List ℕ
star_pattern_to_like = parse_star_pattern escape_sqlite_like_pattern (percent ∷ [])

-- the pieces of a pattern between the stars that are not escaped; a backslash that is not escaped
-- escapes the code unit after it
unfoldable pub pieces : Bool → List ℕ → List ℕ → List (List ℕ)
pieces is_escaped current [] = current ∷ []
pieces true current (c ∷ rest) = pieces false (current ++ c ∷ []) rest
pieces false current (c ∷ rest) =
    let escaped = pieces true (current ++ c ∷ []) rest in
    let split = current ∷ pieces false [] rest in
    let skipped = pieces false (current ++ c ∷ []) rest in
    if c == backslash then escaped else if c == star then split else skipped

-- the lists one after the other, with `joker` between them
unfoldable pub join : List ℕ → List (List ℕ) → List ℕ
join joker [] = []
join joker (x ∷ []) = x
join joker (x ∷ y ∷ ys) = x ++ (joker ++ join joker (y ∷ ys))

join-map-pieces :
    (escape : List ℕ → List ℕ) (joker x : List ℕ) (b : Bool) (current rest : List ℕ)
    → join joker (x ∷ map escape (pieces b current rest))
      ≡ x ++ (joker ++ join joker (map escape (pieces b current rest)))
unfolding pieces join
join-map-pieces escape joker x b current [] = refl
join-map-pieces escape joker x true current (c ∷ rest) =
    join-map-pieces escape joker x false (current ++ c ∷ []) rest
join-map-pieces escape joker x false current (c ∷ rest) = elim (Bool-cases (c == backslash)) [
  | inl e ↦ rw e (join-map-pieces escape joker x true (current ++ c ∷ []) rest)
  | inr e ↦ elim (Bool-cases (c == star)) [
    | inl f ↦ rw (e, f) refl
    | inr f ↦ rw (e, f) (join-map-pieces escape joker x false (current ++ c ∷ []) rest)
  ]
]

regroup : (a b c d : List ℕ) → (a ++ (b ++ c)) ++ d ≡ a ++ (b ++ (c ++ d))
regroup a b c d = append_assoc a (b ++ c) d ∙ ap (λ x. a ++ x) (append_assoc b c d)

parse_from-pieces :
    (escape : List ℕ → List ℕ) (joker : List ℕ) (b : Bool) (result current rest : List ℕ)
    → escape [] ≡ []
    → parse_from escape joker b result current rest
      ≡ result ++ join joker (map escape (pieces b current rest))
unfolding parse_from pieces join
parse_from-pieces escape joker b result [] [] h = rw h (sym (append-nil result))
parse_from-pieces escape joker b result (x ∷ current) [] h = refl
parse_from-pieces escape joker true result current (c ∷ rest) h =
    parse_from-pieces escape joker false result (current ++ c ∷ []) rest h
parse_from-pieces escape joker false result current (c ∷ rest) h =
    elim (Bool-cases (c == backslash)) [
      | inl e ↦ rw e (parse_from-pieces escape joker true result (current ++ c ∷ []) rest h)
      | inr e ↦ elim (Bool-cases (c == star)) [
        | inl f ↦
            rw (e, f, join-map-pieces escape joker (escape current) false [] rest)
              (parse_from-pieces escape joker false (result ++ (escape current ++ joker)) [] rest h
                ∙ regroup result (escape current) joker
                    (join joker (map escape (pieces false [] rest))))
        | inr f ↦ rw (e, f) (parse_from-pieces escape joker false result (current ++ c ∷ []) rest h)
      ]
    ]

map_same : (xs : List (List ℕ)) → map (λ x. x) xs ≡ xs
map_same [] = refl
map_same (x ∷ xs) = ap (λ ys. x ∷ ys) (map_same xs)

join-plain :
    (x rest : List ℕ)
    → join (star ∷ []) (x ∷ pieces false [] rest)
      ≡ x ++ (star ∷ join (star ∷ []) (pieces false [] rest))
join-plain x rest =
    ap (λ ys. join (star ∷ []) (x ∷ ys)) (sym (map_same (pieces false [] rest)))
    ∙ join-map-pieces (λ y. y) (star ∷ []) x false [] rest
    ∙ ap (λ ys. x ++ (star ∷ join (star ∷ []) ys)) (map_same (pieces false [] rest))

join-pieces :
    (b : Bool) (current rest : List ℕ) → join (star ∷ []) (pieces b current rest) ≡ current ++ rest
unfolding pieces join
join-pieces b current [] = sym (append-nil current)
join-pieces true current (c ∷ rest) =
    join-pieces false (current ++ c ∷ []) rest ∙ append_assoc current (c ∷ []) rest
join-pieces false current (c ∷ rest) = elim (Bool-cases (c == backslash)) [
  | inl e ↦ rw e (join-pieces true (current ++ c ∷ []) rest ∙ append_assoc current (c ∷ []) rest)
  | inr e ↦ elim (Bool-cases (c == star)) [
    | inl f ↦
        rw (e, f)
          (join-plain current rest
            ∙ ap (λ x. current ++ (star ∷ x)) (join-pieces false [] rest)
            ∙ ap (λ x. current ++ (x ∷ rest)) (sym ((==_iff c star).0 f)))
    | inr f ↦
        rw (e, f) (join-pieces false (current ++ c ∷ []) rest ∙ append_assoc current (c ∷ []) rest)
  ]
]

-- A pattern is its pieces with stars between them, where the stars between are those that are not
-- escaped: a backslash that is not escaped itself escapes the code unit after it. For an `escape` that
-- leaves the empty text empty, parseStarPattern gives these pieces, each escaped, with the joker
-- between them.
pub parse_star_pattern-pieces :
    (escape : List ℕ → List ℕ) (joker pattern : List ℕ)
    → escape [] ≡ []
    → (join (star ∷ []) (pieces false [] pattern) ≡ pattern)
      × (parse_star_pattern escape joker pattern
          ≡ join joker (map escape (pieces false [] pattern)))
unfolding parse_star_pattern
parse_star_pattern-pieces escape joker pattern h =
    (join-pieces false [] pattern, parse_from-pieces escape joker false [] [] pattern h)
