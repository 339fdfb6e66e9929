-- ===== src/App/Projects/Names.antt =====
-- `sanitize_project_name` of rust/src/projects.rs.
use Prim.Native.Char.{code}
use megaserver.Common.{
  ℕ, ◌≤◌, String, ◌≡◌, ◌≢◌, ◌↔◌, ◌⊎◌, inl, inr, refl, List, [], ◌∷◌, All, Bool-cases, eq_iff, Bool,
  true, false, ◌&&◌, ◌||◌, ◌==◌, all, leb, nat_eq, if◌then◌else◌, arith,
}
use megaserver.Common.Texts.{codes, is_whitespace, is_blank}
use megaserver.Result.{Result, ok, guard, ◌>>◌}
use megaserver.Exec.{AppError, empty_project_name, bad_project_name}

-- `raw.trim()`
unfoldable pub trim_start : String → String
trim_start String.[] = ""
trim_start (String.◌∷◌ c s) =
    let rest = trim_start s in if is_whitespace (code c) then rest else String.◌∷◌ c s

unfoldable pub trim_end : String → String
trim_end String.[] = ""
trim_end (String.◌∷◌ c s) =
    let rest = trim_end s in if is_blank (String.◌∷◌ c s) then "" else String.◌∷◌ c rest

unfoldable pub trim : String → String
unfolding trim_start trim_end
trim s = trim_end (trim_start s)

abbrev pub is_project_char : ℕ → Bool
is_project_char c =
    (leb b'a' c && leb c b'z')
    || (leb b'A' c && leb c b'Z')
    || (leb b'0' c && leb c b'9')
    || nat_eq c b'-'
    || nat_eq c b'_'
    || nat_eq c b'.'

abbrev pub filled : String → Bool
filled s = elim (s == "") [ true ↦ false | false ↦ true ]

unfoldable pub sanitize_project_name : String → Result AppError String
sanitize_project_name raw =
    guard (filled (trim raw)) empty_project_name
    >> (guard (all is_project_char (codes (trim raw))) (bad_project_name (trim raw))
        >> ok (trim raw))

-- A lower or upper case ASCII letter, a digit, `-`, `_` or `.`.
abbrev pub IsNameChar : ℕ → Type 0
IsNameChar c =
    ((97 ≤ c) × (c ≤ 122))
    ⊎ (((65 ≤ c) × (c ≤ 90)) ⊎ (((48 ≤ c) × (c ≤ 57)) ⊎ ((c ≡ 45) ⊎ ((c ≡ 95) ⊎ (c ≡ 46)))))

IsNameChar-is_project_char : (c : ℕ) → is_project_char c ≡ true → IsNameChar c
IsNameChar-is_project_char c h = elim (Bool-cases (leb 97 c && leb c 122)) [
  | inl e ↦ inl (ground arith, ground arith)
  | inr lower ↦ elim (Bool-cases (leb 65 c && leb c 90)) [
    | inl e ↦ inr (inl (ground arith, ground arith))
    | inr upper ↦ elim (Bool-cases (leb 48 c && leb c 57)) [
      | inl e ↦ inr (inr (inl (ground arith, ground arith)))
      | inr digit ↦ elim (Bool-cases (nat_eq c 45)) [
        | inl e ↦ inr (inr (inr (inl (ground arith))))
        | inr dash ↦ elim (Bool-cases (nat_eq c 95)) [
          | inl e ↦ inr (inr (inr (inr (inl (ground arith)))))
          | inr underscore ↦ inr (inr (inr (inr (inr (ground arith)))))
        ]
      ]
    ]
  ]
]

is_project_char-IsNameChar : (c : ℕ) → IsNameChar c → is_project_char c ≡ true
is_project_char-IsNameChar c h = ground arith

All-all : (cs : List ℕ) → all is_project_char cs ≡ true → All IsNameChar cs
All-all [] h = tt
All-all (c ∷ cs) h = (
  IsNameChar-is_project_char c (first_true (is_project_char c) (all is_project_char cs) h),
  All-all cs (last_true (is_project_char c) (all is_project_char cs) h),
)
  where
    first_true : (a b : Bool) → (a && b) ≡ true → a ≡ true
    first_true a b e = ground arith

    last_true : (a b : Bool) → (a && b) ≡ true → b ≡ true
    last_true a b e = ground arith

all-All : (cs : List ℕ) → All IsNameChar cs → all is_project_char cs ≡ true
all-All [] h = refl
all-All (c ∷ cs) h = rw (is_project_char-IsNameChar c h.0, all-All cs h.1) refl

guards-eq-ok_iff :
    (raw out : String)
    → (sanitize_project_name raw ≡ ok out) ↔ (
        (out ≡ trim raw)
        × (filled (trim raw) ≡ true)
        × (all is_project_char (codes (trim raw)) ≡ true))
unfolding sanitize_project_name
guards-eq-ok_iff raw out = ground arith

-- A name is accepted exactly if, without the space around it, it is not empty and each of its characters is a lower or
-- upper case ASCII letter, a digit, `-`, `_` or `.`; it is then that text.
pub sanitize_project_name-eq-ok_iff :
    (raw out : String)
    → (sanitize_project_name raw ≡ ok out)
      ↔ ((out ≡ trim raw) × (trim raw ≢ "") × All IsNameChar (codes (trim raw)))
sanitize_project_name-eq-ok_iff raw out = (
  (λ h.
      let facts = (guards-eq-ok_iff raw out).0 h in
      (facts.0, filled_text (trim raw) facts.1, All-all (codes (trim raw)) facts.2)),
  (λ h.
      (guards-eq-ok_iff raw out).1
        (h.0, text_filled (trim raw) h.1, all-All (codes (trim raw)) h.2)),
)
  where
    filled_text : (s : String) → filled s ≡ true → s ≢ ""
    filled_text s e same = ground (arith, eq_iff s "")

    text_filled : (s : String) → s ≢ "" → filled s ≡ true
    text_filled s k = elim (Bool-cases (s == "")) [
      | inl e ↦ absurd (k ((eq_iff s "").0 e))
      | inr e ↦ rw (filled, e) refl
    ]
