-- ===== src/Dns/Answers.antt =====
-- What `lookup_name` of rust/src/dns.rs answers.
use megaserver.Common.{
  ℕ, String, ◌≡◌, ◌≢◌, ◌⊎◌, refl, true, ◌||◌, Bool-cases, eq_iff, none, some, List, [], ◌∷◌, ◌++◌,
  All, map, Option-cases, inl, inr, arith, nat_eq, if◌then◌else◌, ◌==◌,
}
use megaserver.Common.Texts.{eq_ignore_case, to_ascii_lowercase}
use megaserver.Common.Utf8.{bytes}
use megaserver.Ipv4.{Ipv4, parse}
use megaserver.Model.{SandboxRecord}
use megaserver.Dns.Lookup.{Lookup, found, bad_ip, missing, answer_of, lookup_rows, matches, ip_of}

-- The name is the row's service or host name, up to the case of ASCII letters.
abbrev pub HasName : List ℕ → SandboxRecord → Type 0
HasName name r =
    (eq_ignore_case name (bytes r.service_name) ≡ true)
    ⊎ (eq_ignore_case name (bytes r.hostname) ≡ true)

-- The row is stopped, has no address, or has another name.
abbrev pub IsSilent : List ℕ → SandboxRecord → Type 0
IsSilent name r = (r.status ≡ "stopped") ⊎ ((r.ip_address ≡ none) ⊎ (HasName name r → ⊥))

-- The row is not stopped, and has the name and an address, which is the answer if it can be read.
abbrev pub Answers : List ℕ → SandboxRecord → Lookup → Type 0
Answers name r answer =
    (r.status ≢ "stopped")
    × HasName name r
    × ((text : String) × (r.ip_address ≡ some text)
        × (((parse text ≡ none) × (answer ≡ bad_ip))
            ⊎ ((ip : Ipv4) × (parse text ≡ some ip) × (answer ≡ found ip))))

-- A lookup is the answer of the first row that has one.
pub data IsLookup (name : List ℕ) : List SandboxRecord → Lookup → Type 0 where
  nowhere : {rows : List SandboxRecord} → All (IsSilent name) rows → IsLookup name rows missing
  first :
      (before after : List SandboxRecord) (r : SandboxRecord) (answer : Lookup)
      → All (IsSilent name) before
      → Answers name r answer
      → IsLookup name (before ++ r ∷ after) answer

skip :
    (name : List ℕ) (r : SandboxRecord) (rows : List SandboxRecord) (answer : Lookup)
    → IsSilent name r
    → IsLookup name rows answer
    → IsLookup name (r ∷ rows) answer
skip name r _ _ silent (IsLookup.nowhere all) = IsLookup.nowhere (silent, all)
skip name r _ _ silent (IsLookup.first b a r' x all here) =
    IsLookup.first (r ∷ b) a r' x (silent, all) here

ip_of-read :
    (text : String)
    → ((parse text ≡ none) × (ip_of text ≡ bad_ip))
      ⊎ ((ip : Ipv4) × (parse text ≡ some ip) × (ip_of text ≡ found ip))
ip_of-read text = elim (Option-cases (parse text)) [
  | inl e ↦ inl (e, rw (ip_of, e) refl)
  | inr (ip, e) ↦ inr (ip, e, rw (ip_of, e) refl)
]

-- One round of the loop: the row is passed over, or answers.
answer_of-cases :
    (name : List ℕ) (r : SandboxRecord)
    → ((answer_of name r ≡ none) × IsSilent name r)
      ⊎ ((answer : Lookup) × (answer_of name r ≡ some answer) × Answers name r answer)
unfolding answer_of
answer_of-cases name r = elim (Bool-cases (r.status == "stopped")) [
  | inl stopped ↦ inl (rw stopped refl, inl (ground (arith, eq_iff r.status "stopped")))
  | inr live ↦ elim (Option-cases r.ip_address) [
    | inl e ↦ inl (rw (live, e) refl, inr (inl e))
    | inr (text, e) ↦ elim (Bool-cases (matches name r)) [
      | inl named ↦ inr (
        ip_of text,
        rw (live, e, named) refl,
        (
          (λ same. ground (arith, eq_iff r.status "stopped")),
          named_of named,
          (text, e, ip_of-read text),
        ),
      )
      | inr other ↦ inl (rw (live, e, other) refl, inr (inr (λ h. ground arith)))
    ]
  ]
]
  where
    named_of : matches name r ≡ true → HasName name r
    named_of e = elim (Bool-cases (eq_ignore_case name (bytes r.service_name))) [
      | inl h ↦ inl h
      | inr h ↦ inr (ground arith)
    ]

-- The loop over the sandbox rows gives the answer of the first row that is not stopped, has an address, and has the
-- name as its service or its host name, up to ASCII case: the address, or that it cannot be read; without such a row it
-- finds nothing.
pub lookup_rows-IsLookup :
    (rows : List SandboxRecord) (name : List ℕ) → IsLookup name rows (lookup_rows rows name)
unfolding lookup_rows
lookup_rows-IsLookup [] name = IsLookup.nowhere tt
lookup_rows-IsLookup (r ∷ rows) name = elim (answer_of-cases name r) [
  | inl (e, silent) ↦
      rw (e, lookup_rows)
        (skip name r rows (lookup_rows rows name) silent (lookup_rows-IsLookup rows name))
  | inr (answer, e, here) ↦ rw (e, lookup_rows) (IsLookup.first [] rows r answer tt here)
]

lowercase-same :
    (c d : ℕ)
    → nat_eq (to_ascii_lowercase (to_ascii_lowercase c)) d ≡ nat_eq (to_ascii_lowercase c) d
lowercase-same c d = ground arith

eq_ignore_case-lowercase :
    (xs ys : List ℕ) → eq_ignore_case (map to_ascii_lowercase xs) ys ≡ eq_ignore_case xs ys
eq_ignore_case-lowercase [] ys = refl
eq_ignore_case-lowercase (x ∷ xs) [] = refl
eq_ignore_case-lowercase (x ∷ xs) (y ∷ ys) =
    rw (lowercase-same, eq_ignore_case-lowercase xs ys) refl

answer_of-to_ascii_lowercase :
    (name : List ℕ) (r : SandboxRecord)
    → answer_of (map to_ascii_lowercase name) r ≡ answer_of name r
unfolding answer_of
answer_of-to_ascii_lowercase name r =
    let service = eq_ignore_case-lowercase name (bytes r.service_name) in
    let hostname = eq_ignore_case-lowercase name (bytes r.hostname) in
    let same : matches (map to_ascii_lowercase name) r ≡ matches name r =
      λ i. service i || hostname i in
    λ i. if r.status == "stopped" then none else elim r.ip_address [
      | none ↦ none
      | some text ↦ if same i then some (ip_of text) else none
    ]

-- Names are looked up without regard to ASCII case: a name in lower case has the same answer.
pub lookup_rows-to_ascii_lowercase :
    (rows : List SandboxRecord) (name : List ℕ)
    → lookup_rows rows (map to_ascii_lowercase name) ≡ lookup_rows rows name
unfolding lookup_rows
lookup_rows-to_ascii_lowercase [] name = refl
lookup_rows-to_ascii_lowercase (r ∷ rows) name =
    let rest = lookup_rows-to_ascii_lowercase rows name in
    let here = answer_of-to_ascii_lowercase name r in
    λ i. elim (here i) [ none ↦ rest i | some answer ↦ answer ]
