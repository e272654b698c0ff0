-- ===== src/Service/Keys.antt =====
-- The keys of features: parts with slashes between them.
use Prim.Native.Char.{Char, code}
use Prim.Native.String.{String}
use kactivitymanagerd.Prelude.{
  Bool, false, ◌||◌, List, [], ◌∷◌, ◌≡◌, refl, arith, ◌==◌, ==_iff, string_eq, nat_eq,
  if◌then◌else◌, Bool-cases, inl, inr,
}

-- QString::split at '/': the first part, and the others
unfoldable pub split : String → String × List String
split String.[] = ("", [])
split (String.◌∷◌ c s) =
    let r = split s in if code c == 47 then ("", r.0 ∷ r.1) else (String.◌∷◌ c r.0, r.1)

unfoldable pub has_slash : String → Bool
has_slash String.[] = false
has_slash (String.◌∷◌ c s) = code c == 47 || has_slash s

pub split-plain : (s : String) → has_slash s ≡ false → split s ≡ (s, [])
unfolding split has_slash
split-plain String.[] h = refl
split-plain (String.◌∷◌ c s) h = ground (arith, split-plain s)

-- a part, a slash and the rest of a key
unfoldable pub with_slash : String → String → String
with_slash String.[] t = String.◌∷◌ "/" t
with_slash (String.◌∷◌ c s) t = String.◌∷◌ c (with_slash s t)

pub split-with_slash :
    (s t : String) → has_slash s ≡ false → split (with_slash s t) ≡ (s, (split t).0 ∷ (split t).1)
unfolding split has_slash with_slash
split-with_slash String.[] t h = refl
split-with_slash (String.◌∷◌ c s) t h = ground (arith, split-with_slash s t)

not_blank : (c : Char) (s : String) → (String.◌∷◌ c s == "") ≡ false
not_blank c s = elim (Bool-cases (String.◌∷◌ c s == "")) [
  | inl e ↦ absurd (cc ((==_iff (String.◌∷◌ c s) "").0 e))
  | inr e ↦ e
]

pub with_slash-ne : (s t : String) → (with_slash s t == "") ≡ false
unfolding with_slash
with_slash-ne String.[] t = not_blank "/" t
with_slash-ne (String.◌∷◌ c s) t = not_blank c (with_slash s t)
