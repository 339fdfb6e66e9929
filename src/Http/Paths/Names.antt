-- ===== src/Http/Paths/Names.antt =====
-- What the path helpers of rust/src/host_abi.rs find in the paths of the services.
use Prim.Native.Char.{code}
use Prim.Native.String
use text.Mathlib.TextEquality.{Char-path}
use megaserver.Common.{
  ℕ, ◌≡◌, ◌≢◌, ◌∙◌, sym, refl, ap, String, Bool, true, false, not, Option, none, some, List, [],
  ◌∷◌, ◌++◌, all, any, nat_eq, if◌then◌else◌, arith, eq_iff, eq_refl, Option-cases, inl, inr,
  length, length-append,
}
use megaserver.Common.Texts.{codes, codes-append}
use megaserver.Http.Paths.{
  before_query, strip_prefix, strip_suffix, service_name_from_path, services_prefix,
}

-- No question mark, and no slash, in a text.
abbrev pub HasNoMark : String → Type 0
HasNoMark s = all (λ c. not (nat_eq c b'?')) (codes s) ≡ true

abbrev pub HasNoSlash : String → Type 0
HasNoSlash s = all (λ c. not (nat_eq c b'/')) (codes s) ≡ true

-- A path with the query that may follow it.
abbrev pub with_query : String → Option String → String
with_query path none = path
with_query path (some query) = String.◌++◌ path (String.◌++◌ "?" query)

mark_first : (q : String) → String.◌++◌ "?" q ≡ String.◌∷◌ "?" q
mark_first q = String.append.cons "?" "" q ∙ ap (String.◌∷◌ "?") (String.append.nil q)

before_query-append :
    (s q : String) → HasNoMark s → before_query (String.◌++◌ s (String.◌++◌ "?" q)) ≡ s
unfolding before_query
before_query-append String.[] q h = rw (String.append.nil (String.◌++◌ "?" q), mark_first q) refl
before_query-append (String.◌∷◌ c s) q h =
    rw (String.append.cons c s (String.◌++◌ "?" q)) (grind (arith, before_query-append s q))

before_query_self : (s : String) → HasNoMark s → before_query s ≡ s
unfolding before_query
before_query_self String.[] h = refl
before_query_self (String.◌∷◌ c s) h = grind (arith, before_query_self s)

pub before_query-with_query :
    (s : String) (q : Option String) → HasNoMark s → before_query (with_query s q) ≡ s
before_query-with_query s none h = before_query_self s h
before_query-with_query s (some q) h = before_query-append s q h

pub strip_prefix-append : (p s : String) → strip_prefix p (String.◌++◌ p s) ≡ some s
unfolding strip_prefix
strip_prefix-append String.[] s = ap some (String.append.nil s)
strip_prefix-append (String.◌∷◌ c p) s =
    rw (String.append.cons c p s) (grind (arith, strip_prefix-append p s))

-- A suffix that was stripped is there.
strip_suffix_sound :
    (suffix s r : String) → strip_suffix suffix s ≡ some r → s ≡ String.◌++◌ r suffix
unfolding strip_suffix
strip_suffix_sound suffix String.[] r h = grind (arith, eq_iff suffix "", String.append.nil suffix)
strip_suffix_sound suffix (String.◌∷◌ c s) r h = elim (Option-cases (strip_suffix suffix s)) [
  | inl e ↦ grind (arith, e, eq_iff (String.◌∷◌ c s) suffix, String.append.nil suffix)
  | inr (r', e) ↦ grind (arith, e, strip_suffix_sound suffix s r' e, String.append.cons c r' suffix)
]

codes-injective : (s t : String) → codes s ≡ codes t → s ≡ t
codes-injective String.[] String.[] h = refl
codes-injective String.[] (String.◌∷◌ d t) h = absurd (grind (arith, h))
codes-injective (String.◌∷◌ c s) String.[] h = absurd (grind (arith, h))
codes-injective (String.◌∷◌ c s) (String.◌∷◌ d t) h =
    cc (Char-path c d (ap first h), codes-injective s t (ap later h))
  where
    first : List ℕ → ℕ
    first [] = 0
    first (n ∷ ns) = n

    later : List ℕ → List ℕ
    later [] = []
    later (n ∷ ns) = ns

abbrev has_slash : List ℕ → Bool
has_slash cs = any (λ c. nat_eq c b'/') cs

-- What stands after the last slash, or all where there is none.
abbrev pub last_segment : List ℕ → List ℕ
last_segment [] = []
last_segment (c ∷ cs) =
    let rest = last_segment cs in
    if has_slash cs then rest else if nat_eq c b'/' then cs else c ∷ cs

has_slash-append : (xs w : List ℕ) → has_slash (xs ++ b'/' ∷ w) ≡ true
has_slash-append [] w = refl
has_slash-append (x ∷ xs) w = grind (arith, has_slash-append xs w)

last_segment-append : (xs w : List ℕ) → has_slash w ≡ false → last_segment (xs ++ b'/' ∷ w) ≡ w
last_segment-append [] w h = grind (arith, h)
last_segment-append (x ∷ xs) w h = grind (arith, has_slash-append xs w, last_segment-append xs w h)

has_slash-HasNoSlash : (w : String) → HasNoSlash w → has_slash (codes w) ≡ false
has_slash-HasNoSlash String.[] h = refl
has_slash-HasNoSlash (String.◌∷◌ c w) h = grind (arith, has_slash-HasNoSlash w)

-- Two texts with the same end after a slash.
ends-injective :
    (s r v w : String)
    → HasNoSlash v
    → HasNoSlash w
    → String.◌++◌ s (String.◌++◌ "/" w) ≡ String.◌++◌ r (String.◌++◌ "/" v)
    → w ≡ v
ends-injective s r v w hv hw e =
    codes-injective w v (sym (segment s w hw) ∙ ap (λ x. last_segment (codes x)) e ∙ segment r v hv)
  where
    segment :
        (s w : String)
        → HasNoSlash w
        → last_segment (codes (String.◌++◌ s (String.◌++◌ "/" w))) ≡ codes w
    segment s w h =
        rw (codes-append s (String.◌++◌ "/" w), codes-append "/" w)
          (last_segment-append (codes s) (codes w) (has_slash-HasNoSlash w h))

strip_suffix-other :
    (s v w : String)
    → HasNoSlash v
    → HasNoSlash w
    → w ≢ v
    → strip_suffix (String.◌++◌ "/" v) (String.◌++◌ s (String.◌++◌ "/" w)) ≡ none
strip_suffix-other s v w hv hw other =
    elim (Option-cases (strip_suffix (String.◌++◌ "/" v) (String.◌++◌ s (String.◌++◌ "/" w)))) [
      | inl e ↦ e
      | inr (r, e) ↦ absurd (other (ends-injective s r v w hv hw (strip_suffix_sound _ _ r e)))
    ]

longer : (xs ys : List ℕ) (c : ℕ) → ys ≢ xs ++ c ∷ ys
longer xs ys c e = absurd (omega (arith, ap length e, length-append xs (c ∷ ys)))

strip_suffix_self : (suffix : String) → strip_suffix suffix suffix ≡ some ""
unfolding strip_suffix
strip_suffix_self String.[] = refl
strip_suffix_self (String.◌∷◌ c s) = elim (Option-cases (strip_suffix (String.◌∷◌ c s) s)) [
  | inl e ↦ rw (e, eq_refl) refl
  | inr (r, e) ↦ absurd (
      longer (codes r) (codes s) (code c)
        (ap codes (strip_suffix_sound _ s r e) ∙ codes-append r (String.◌∷◌ c s)))
]

strip_suffix-append : (suffix s : String) → strip_suffix suffix (String.◌++◌ s suffix) ≡ some s
unfolding strip_suffix
strip_suffix-append suffix String.[] = rw (String.append.nil suffix) (strip_suffix_self suffix)
strip_suffix-append suffix (String.◌∷◌ c s) =
    rw (String.append.cons c s suffix, strip_suffix, strip_suffix-append suffix s) refl

-- `/v1/services/{service}/{word}`
abbrev pub service_path : String → String → String
service_path service word = String.◌++◌ services_prefix (String.◌++◌ service (String.◌++◌ "/" word))

all-append :
    (p : ℕ → Bool) (xs ys : List ℕ) → all p xs ≡ true → all p ys ≡ true → all p (xs ++ ys) ≡ true
all-append p [] ys h k = k
all-append p (x ∷ xs) ys h k = grind (arith, all-append p xs ys)

HasNoMark-append : (s t : String) → HasNoMark s → HasNoMark t → HasNoMark (String.◌++◌ s t)
HasNoMark-append s t h k = rw (codes-append s t) (all-append _ (codes s) (codes t) h k)

module _ (service word : String) (query : Option String) (unmarked : HasNoMark service)
    (word_unmarked : HasNoMark word) where
  pub service_path-HasNoMark : HasNoMark (service_path service word)
  service_path-HasNoMark =
      HasNoMark-append services_prefix (String.◌++◌ service (String.◌++◌ "/" word)) refl (
        HasNoMark-append service (String.◌++◌ "/" word) unmarked
          (HasNoMark-append "/" word refl word_unmarked))

  pub service_path-last_segment :
      HasNoSlash word → last_segment (codes (service_path service word)) ≡ codes word
  service_path-last_segment h =
      rw
        (
          codes-append services_prefix (String.◌++◌ service (String.◌++◌ "/" word)),
          codes-append service (String.◌++◌ "/" word),
          codes-append "/" word,
        )
        (rw (has_slash-append (codes service) (codes word))
          (last_segment-append (codes service) (codes word) (has_slash-HasNoSlash word h)))

  -- The service of its own word's path.
  pub service_name_from_path_self :
      service ≢ ""
      → service_name_from_path (with_query (service_path service word) query) (String.◌++◌ "/" word)
        ≡ some service
  unfolding service_name_from_path
  service_name_from_path_self named =
      rw
        (
          service_name_from_path,
          before_query-with_query (service_path service word) query service_path-HasNoMark,
          strip_prefix-append services_prefix (String.◌++◌ service (String.◌++◌ "/" word)),
          strip_suffix-append (String.◌++◌ "/" word) service,
        )
        (ground (arith, eq_iff service ""))

  -- Under another word there is none.
  pub service_name_from_path-other :
      (other : String)
      → HasNoSlash other
      → HasNoSlash word
      → word ≢ other
      → service_name_from_path
          (with_query (service_path service word) query)
          (String.◌++◌ "/" other)
        ≡ none
  unfolding service_name_from_path
  service_name_from_path-other other h k differs =
      rw
        (
          service_name_from_path,
          before_query-with_query (service_path service word) query service_path-HasNoMark,
          strip_prefix-append services_prefix (String.◌++◌ service (String.◌++◌ "/" word)),
          strip_suffix-other service other word h k differs,
        )
        refl
