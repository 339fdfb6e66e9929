-- ===== src/Proxy/Dropping.antt =====
-- The header lists of rust/src/proxy.rs: names between commas.
use mathlib.Core.List.{append_assoc, append-nil, reverse-cons}
use Prim.Native.String
use megaserver.Common.{
  ℕ, ◌≡◌, refl, sym, ap, ◌∙◌, String, Bool, true, not, List, [], ◌∷◌, ◌++◌, reverse, any, all,
  select, ◌||◌, nat_eq, nat_eq_iff, arith, Bool-cases, inl, inr,
}
use megaserver.Common.Texts.{codes, codes-append, split, split_from, eq_ignore_case}
use megaserver.Proxy.{HeaderMap, header_is_dropped, kept_headers}

abbrev pub has_no_comma : String → Bool
has_no_comma name = all (λ c. not (nat_eq c b',')) (codes name)

abbrev pub comma_list : String → List String → String
comma_list first [] = first
comma_list first (second ∷ rest) = String.◌++◌ first (String.◌++◌ "," (comma_list second rest))

-- A name that differs from one of the list in the case of its letters at most.
abbrev pub is_named : List String → String → Bool
is_named names name = any (λ n. eq_ignore_case (codes n) (codes name)) names

abbrev names_codes : List String → List (List ℕ)
names_codes [] = []
names_codes (n ∷ ns) = codes n ∷ names_codes ns

module _ (sep : ℕ) where
  moved : (c : ℕ) (cs piece : List ℕ) → reverse (c ∷ piece) ++ cs ≡ reverse piece ++ c ∷ cs
  moved c cs piece =
      ap (λ xs. xs ++ cs) (reverse-cons c piece) ∙ append_assoc (reverse piece) (c ∷ []) cs

  split_from-last :
      (cs piece : List ℕ)
      → all (λ c. not (nat_eq c sep)) cs ≡ true
      → split_from sep piece cs ≡ (reverse piece ++ cs) ∷ []
  split_from-last [] piece h = ap (λ l. l ∷ []) (sym (append-nil (reverse piece)))
  split_from-last (c ∷ cs) piece h = elim (Bool-cases (nat_eq c sep)) [
    | inl e ↦ absurd (ground (arith, e))
    | inr e ↦
        rw e
          (split_from-last cs (c ∷ piece) (ground (arith, e)) ∙ ap (λ l. l ∷ []) (moved c cs piece))
  ]

  split_from-next :
      (cs piece rest : List ℕ)
      → all (λ c. not (nat_eq c sep)) cs ≡ true
      → split_from sep piece (cs ++ sep ∷ rest) ≡ (reverse piece ++ cs) ∷ split sep rest
  split_from-next [] piece rest h =
      rw ((nat_eq_iff sep sep).1 refl)
        (ap (λ l. l ∷ split sep rest) (sym (append-nil (reverse piece))))
  split_from-next (c ∷ cs) piece rest h = elim (Bool-cases (nat_eq c sep)) [
    | inl e ↦ absurd (ground (arith, e))
    | inr e ↦ rw e (
        split_from-next cs (c ∷ piece) rest (ground (arith, e))
        ∙ ap (λ l. l ∷ split sep rest) (moved c cs piece))
  ]

split-comma_list :
    (first : String) (rest : List String)
    → has_no_comma first ≡ true
    → all has_no_comma rest ≡ true
    → split b',' (codes (comma_list first rest)) ≡ names_codes (first ∷ rest)
split-comma_list first [] h k = split_from-last b',' (codes first) [] h
split-comma_list first (second ∷ rest) h k =
    ap (split b',') (
      codes-append first (String.◌++◌ "," (comma_list second rest))
      ∙ ap (λ l. codes first ++ l) (codes-append "," (comma_list second rest)))
    ∙ split_from-next b',' (codes first) [] (codes (comma_list second rest)) h
    ∙ ap (λ l. codes first ∷ l) (split-comma_list second rest (ground arith) (ground arith))

any-names_codes :
    (p : List ℕ → Bool) (names : List String)
    → any p (names_codes names) ≡ any (λ n. p (codes n)) names
any-names_codes p [] = refl
any-names_codes p (n ∷ ns) = ap (λ b. p (codes n) || b) (any-names_codes p ns)

-- A list of names without commas.
abbrev pub IsDropList : String → List String → String → Type 0
IsDropList first rest drop_headers =
    (drop_headers ≡ comma_list first rest) × (all has_no_comma (first ∷ rest) ≡ true)

header_is_dropped-comma_list :
    (first : String) (rest : List String) (drop_headers name : String)
    → IsDropList first rest drop_headers
    → header_is_dropped name drop_headers ≡ is_named (first ∷ rest) name
unfolding header_is_dropped
header_is_dropped-comma_list first rest drop_headers name (e, h) =
    ap (λ d. any (λ c. eq_ignore_case c (codes name)) (split b',' (codes d))) e
    ∙ ap (any (λ c. eq_ignore_case c (codes name)))
        (split-comma_list first rest (ground arith) (ground arith))
    ∙ any-names_codes (λ c. eq_ignore_case c (codes name)) (first ∷ rest)

abbrev pub without : List String → HeaderMap → HeaderMap
without names headers = select (λ h. not (is_named names h.0)) headers

pub kept_headers-without :
    (first : String) (rest : List String) (drop_headers : String) (headers : HeaderMap)
    → IsDropList first rest drop_headers
    → kept_headers drop_headers headers ≡ without (first ∷ rest) headers
unfolding kept_headers
kept_headers-without first rest drop_headers [] h = refl
kept_headers-without first rest drop_headers ((name, value) ∷ headers) h =
    let named = header_is_dropped-comma_list first rest drop_headers name h in
    let later = kept_headers-without first rest drop_headers headers h in
    elim (Bool-cases (is_named (first ∷ rest) name)) [
      | inl e ↦ rw (named, e, later) refl
      | inr e ↦ rw (named, e, later) refl
    ]
